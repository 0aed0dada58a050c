-- ===== src/Common/Driver/Inputs.antt =====
-- The entry points of harnesses/common.h from the first to the last input, and the two ways in which a
-- target evaluates a call. A target is a parameter: what it evaluates and returns for an input, in view
-- of its own state. That a job runs on the R thread once, and is waited for, is the part of the thread.
use r_oss_fuzz.Base.{
  ℕ, Option, none, List, [], ◌∷◌, ◌++◌, Bytes, All, All-append, map, ◌≡◌, refl, sym, ap, ◌∙◌,
}
use mathlib.Core.List.{append_assoc, append-nil}
use r_oss_fuzz.Common.Labels.Table.{Label, fuzz_label_enter}
use r_oss_fuzz.Common.Labels.Table.Finds.{ids, IsEntered, enter-IsEntered}
use r_oss_fuzz.Common.Driver.{Action, Signals, Results, fuzz_alarm_wrap, wrap_all, read_timeout}
use r_oss_fuzz.Common.Driver.Wraps.{IsWrapped, before_wrap, wrap_all-IsWrapped}

pub record Target : Type 1 where
  pub State : Type 0
  -- the evaluations that enter a label, each in view of the labels so far, the result and the state
  pub on_start : List Bytes → State → List (List Label × ℕ) × (ℕ × State)
  -- the calls that it evaluates, in order, its result and its state behind them
  pub on_input : Bytes → State → List ℕ × (ℕ × State)

-- An evaluation, with the label that a report would print while it runs.
pub record Evaluation : Type 0 where
  pub call : ℕ
  pub label : Option ℕ

module _ (T : Target) (labels : List Label) where
  -- `fuzz_alarm.timeout`, `fuzz_label_current`, the actions of the two signals, and what was evaluated.
  pub record Process : Type 0 where
    pub timeout : ℕ
    pub label : Option ℕ
    pub signals : Signals
    pub state : T.State
    pub log : List Evaluation

  -- `fuzz_eval_silent` and `fuzz_do_eval`: enter the label, and evaluate.
  unfoldable pub fuzz_eval_silent : ℕ → Process → Process
  fuzz_eval_silent call p =
      let label = fuzz_label_enter call labels in
      record p { label = label; log = p.log ++ record { call = call; label = label } ∷ [] }

  unfoldable pub evaluate_all : List ℕ → Process → Process
  unfolding fuzz_eval_silent
  evaluate_all [] p = p
  evaluate_all (call ∷ calls) p = evaluate_all calls (fuzz_eval_silent call p)

  -- The same at start-up, where the table is still being filled.
  unfoldable pub start_all : List (List Label × ℕ) → Process → Process
  start_all [] p = p
  start_all ((table, call) ∷ calls) p =
      let label = fuzz_label_enter call table in
      start_all calls
        (record p { label = label; log = p.log ++ record { call = call; label = label } ∷ [] })

  -- `fuzz_do_target_init` and `fuzz_do_target_run`, with `job->result`. Only the second one clears the
  -- label.
  unfoldable pub fuzz_do_target_init : List Bytes → Process → ℕ × Process
  unfolding start_all
  fuzz_do_target_init args p =
      let r = T.on_start args p.state in (r.1.0, record (start_all r.0 p) { state = r.1.1 })

  unfoldable pub fuzz_do_target_run : Bytes → Process → ℕ × Process
  unfolding evaluate_all
  fuzz_do_target_run input p =
      let r = T.on_input input p.state in
      let done = evaluate_all r.0 (record p { label = none }) in
      (r.1.0, record done { label = none; state = r.1.1 })

  -- `args` are the arguments behind the name of the program.
  unfoldable pub llvm_fuzzer_initialize : (Bytes → ℕ) → List Bytes → Process → ℕ × Process
  unfolding fuzz_do_target_init
  llvm_fuzzer_initialize atoi args p =
      fuzz_do_target_init args (record p { timeout = read_timeout atoi args p.timeout })

  unfoldable pub llvm_fuzzer_test_one_input : Results → Bytes → Process → ℕ × Process
  unfolding fuzz_do_target_run
  llvm_fuzzer_test_one_input r input p =
      fuzz_do_target_run input (record p { signals = fuzz_alarm_wrap r p.signals })

  -- libFuzzer's loop: the results, and the process behind the inputs.
  unfoldable pub test_all : List (Results × Bytes) → Process → List ℕ × Process
  unfolding llvm_fuzzer_test_one_input
  test_all [] p = ([], p)
  test_all ((r, input) ∷ inputs) p =
      let first = llvm_fuzzer_test_one_input r input p in
      let rest = test_all inputs first.1 in (first.0 ∷ rest.0, rest.1)

  -- What the target does by itself: the calls, the results and the state.
  abbrev pub alone : List Bytes → T.State → List ℕ × (List ℕ × T.State)
  alone [] s = ([], ([], s))
  alone (input ∷ inputs) s =
      let r = T.on_input input s in
      let rest = alone inputs r.1.1 in (r.0 ++ rest.0, (r.1.0 ∷ rest.1.0, rest.1.1))

  abbrev pub labelled : ℕ → Evaluation
  labelled call = record { call = call; label = fuzz_label_enter call labels }

  evaluate_all-log :
      (calls : List ℕ) (p : Process)
      → ((evaluate_all calls p).log ≡ p.log ++ map labelled calls)
        × ((evaluate_all calls p).signals ≡ p.signals)
        × ((evaluate_all calls p).timeout ≡ p.timeout)
  unfolding evaluate_all fuzz_eval_silent
  evaluate_all-log [] p = (sym (append-nil p.log), refl, refl)
  evaluate_all-log (call ∷ calls) p =
      let i = evaluate_all-log calls (fuzz_eval_silent call p) in
      (i.0 ∙ append_assoc p.log (labelled call ∷ []) (map labelled calls), i.1, i.2)

  -- The report of a timeout in an evaluation names its own call, or none that has no label.
  abbrev pub Named : Evaluation → Type 0
  Named e = IsEntered e.call (ids labels) e.label

  labelled-Named : (calls : List ℕ) → All Named (map labelled calls)
  labelled-Named [] = tt
  labelled-Named (call ∷ calls) = (enter-IsEntered call labels, labelled-Named calls)

  -- How the inputs left the process.
  pub record Tested (inputs : List (Results × Bytes)) (p : Process) (r : List ℕ × Process)
      : Type 0 where
    pub results : r.0 ≡ (alone (map (λ x. x.1) inputs) p.state).1.0
    pub state : r.1.state ≡ (alone (map (λ x. x.1) inputs) p.state).1.1
    pub evaluations : List Evaluation
    pub log : r.1.log ≡ p.log ++ evaluations
    pub calls : map (λ e. e.call) evaluations ≡ (alone (map (λ x. x.1) inputs) p.state).0
    pub named : All Named evaluations
    pub signals : r.1.signals ≡ wrap_all (map (λ x. x.0) inputs) p.signals
    pub timeout : r.1.timeout ≡ p.timeout
    pub label : p.label ≡ none → r.1.label ≡ none

  calls_of : (calls : List ℕ) → map (λ e. e.call) (map labelled calls) ≡ calls
  calls_of [] = refl
  calls_of (call ∷ calls) = ap (λ l. call ∷ l) (calls_of calls)

  map-append {ℓ κ} :
      {A : Type ℓ} → {B : Type κ} → (f : A → B) (a b : List A) → map f (a ++ b) ≡ map f a ++ map f b
  map-append f [] b = refl
  map-append f (x ∷ a) b = ap (λ l. f x ∷ l) (map-append f a b)

  test_all-Tested :
      (inputs : List (Results × Bytes)) (p : Process) → Tested inputs p (test_all inputs p)
  unfolding test_all llvm_fuzzer_test_one_input fuzz_do_target_run wrap_all
  test_all-Tested [] p = record {
    results = refl;
    state = refl;
    evaluations = [];
    log = sym (append-nil p.log);
    calls = refl;
    named = tt;
    signals = refl;
    timeout = refl;
    label = λ e. e;
  }
  test_all-Tested ((r, input) ∷ inputs) p =
      let first = llvm_fuzzer_test_one_input r input p in
      let i = test_all-Tested inputs first.1 in
      let target = T.on_input input p.state in
      let e =
        evaluate_all-log target.0
          (record p { signals = fuzz_alarm_wrap r p.signals; label = none }) in
      record {
        results = ap (λ l. target.1.0 ∷ l) i.results;
        state = i.state;
        evaluations = map labelled target.0 ++ i.evaluations;
        log =
            i.log
            ∙ ap (λ l. l ++ i.evaluations) e.0
            ∙ append_assoc p.log (map labelled target.0) i.evaluations;
        calls =
            map-append (λ x. x.call) (map labelled target.0) i.evaluations
            ∙ ap (λ l. l ++ map (λ x. x.call) i.evaluations) (calls_of target.0)
            ∙ ap (λ l. target.0 ++ l) i.calls;
        named =
            All-append Named (map labelled target.0) i.evaluations (labelled-Named target.0)
              i.named;
        signals = i.signals ∙ ap (wrap_all (map (λ x. x.0) inputs)) e.1;
        timeout = i.timeout ∙ e.2;
        label = λ f. i.label refl;
      }

  -- For a process that libFuzzer has left with the action h of SIGALRM, with whatever label start-up has left,
  -- and inputs of which there is one or more, whatever calls of sigaction fail: each target job is run once and in order, its
  -- result is returned and its state goes on to the next one; whatever a target evaluates is logged under
  -- the label of that very call, or under none if it has no label; behind the inputs no label is set and
  -- the timeout stands; and the handlers are either both in place or both not, unless the call that is to
  -- put the default action of the dump signal back fails as well.
  pub test_all-Sound :
      (h : Action) (r : Results) (input : Bytes) (inputs : List (Results × Bytes)) (p : Process)
      → p.signals ≡ before_wrap h
      → Tested ((r, input) ∷ inputs) p (test_all ((r, input) ∷ inputs) p)
        × ((test_all ((r, input) ∷ inputs) p).1.label ≡ none)
        × IsWrapped r h (test_all ((r, input) ∷ inputs) p).1.signals
  unfolding test_all llvm_fuzzer_test_one_input fuzz_do_target_run
  test_all-Sound h r input inputs p e =
      let t = test_all-Tested ((r, input) ∷ inputs) p in
      let rest = test_all-Tested inputs (llvm_fuzzer_test_one_input r input p).1 in
      let w = wrap_all-IsWrapped h r (map (λ x. x.0) inputs) in
      (t, rest.label refl, rw (t.signals, e) w.0)
