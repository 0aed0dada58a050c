-- ===== src/Eval/Budget.antt =====
-- The execution budget of harnesses/eval.c, and how a run sets, spends and clears it. What R does is a
-- parameter: how often an evaluation polls, when the CPU limit is over, and how it ends.
pub mod Laws
use r_oss_fuzz.Base.{
  ℕ, zero, suc, ◌-◌, Bool, true, false, not, ◌||◌, Option, none, some, List, [], ◌∷◌, ◌++◌, Bytes,
  length, leb, ltb, ◌==◌, if◌then◌else◌,
}
use r_oss_fuzz.Host.{has_byte}
use r_oss_fuzz.Eval.Utf8.{eval_valid_utf8}
use r_oss_fuzz.Eval.Tree.{Tree, Trees, nil, cons, vector, eval_tree_within_budget}

abbrev pub max_input : ℕ
max_input = 8192

abbrev pub full_budget : ℕ
full_budget = 20000

-- `eval_poll_budget` raises no error, or one of its two.
pub data Poll : Type 0 where
  quiet exhausted cpu_exhausted : Poll

-- `eval_poll_budget`: `eval_budget` behind it, and the error. `over` is the test of the clock.
unfoldable pub eval_poll_budget : Bool → ℕ → ℕ × Poll
eval_poll_budget over budget =
    if leb budget 0
    then (budget, quiet)
    else if budget - 1 == 0
    then (0, exhausted)
    else if over
    then (0, cpu_exhausted)
    else (budget - 1, quiet)

-- Polls in a row, each with its clock test; an error unwinds, so later polls are of what follows.
unfoldable pub polls : List Bool → ℕ → ℕ × List Poll
polls [] budget = (budget, [])
polls (over ∷ l) budget =
    let p = eval_poll_budget over budget in let r = polls l p.0 in (r.0, p.1 ∷ r.1)

-- What R does: `compile` is `compiler::compile` and `evaluate` is `R_tryEvalSilent`, both given the
-- budget when they begin. An evaluation says with what budget it ended, and how.
pub data Ending : Type 0 where
  finished failed jumped : Ending

-- `R_ParseVector`: the expressions, an error status, or a jump out of it.
pub data Parsing : Type 0 where
  parsed : Trees → Parsing
  refused escaped : Parsing

-- The call of the compiler: code, an error, or a jump past the code that puts the budget back.
pub data Compiling (A : Type 0) : Type 0 where
  code : A → Compiling A
  declined escapes : Compiling A

pub record Rhost : Type 1 where
  pub Code : Type 0
  pub parse : Bytes → Parsing
  pub new_env : Bytes → Bool  -- false if `R_NewEnv` jumped
  pub source : Tree → Code  -- the expression as it is
  pub compile : ℕ → Tree → ℕ × Compiling Code
  pub evaluate : ℕ → Code → ℕ × Ending

-- What is evaluated with what budget, in order.
pub data Event (r : Rhost) : Type 0 where
  compiled : ℕ → Tree → Event r
  evaluated : ℕ → r.Code → Event r

module _ (r : Rhost) where
  -- `eval_compile`: the budget behind it, and the code, which a jump leaves out. The budget is 0 while
  -- the compiler runs and is put back.
  abbrev pub compiled_as : ℕ → Tree → ℕ × Compiling r.Code → ℕ × Option r.Code
  compiled_as budget x (left, code c) = (budget, some c)
  compiled_as budget x (left, declined) = (budget, some (r.source x))
  compiled_as budget x (left, escapes) = (left, none)

  -- A call of the compiler, and an evaluation, with what they are given.
  abbrev pub call_compiler : ℕ → Tree → Event r × (ℕ × Compiling r.Code)
  call_compiler given x = (compiled given x, r.compile given x)

  abbrev pub evaluation : ℕ → r.Code → Event r × (ℕ × Ending)
  evaluation given c = (evaluated given c, r.evaluate given c)

  -- `eval_budget = 0;` in front of the call.
  unfoldable pub eval_compile : Tree → ℕ → Event r × (ℕ × Option r.Code)
  eval_compile x budget = let call = call_compiler 0 x in (call.0, compiled_as budget x call.1)

  -- `if (*error) break;`, and a jump out of the loop.
  abbrev pub after_each :
      List (Event r) → ℕ → Ending → List (Event r) × (ℕ × Ending) → List (Event r) × (ℕ × Ending)
  after_each done budget finished rest = (done ++ rest.0, rest.1)
  after_each done budget failed rest = (done, (budget, failed))
  after_each done budget jumped rest = (done, (budget, jumped))

  -- `eval_budget = 0;` behind the loop, which a jump skips.
  abbrev pub settled : ℕ → Ending → ℕ
  settled budget finished = 0
  settled budget failed = 0
  settled budget jumped = budget

  -- The loop of `eval_source`, from a budget on: the events, the budget, and how it ended.
  unfoldable pub eval_each : Trees → ℕ → List (Event r) × (ℕ × Ending)
  unfolding eval_compile
  eval_each nil budget = ([], (budget, finished))
  eval_each (cons x l) budget =
      let c = eval_compile x budget in
      elim c.1.1 [
        | none ↦ (c.0 ∷ [], (c.1.0, jumped))
        | some k ↦
            let e = evaluation c.1.0 k in
            let rest = eval_each l e.1.0 in after_each (c.0 ∷ e.0 ∷ []) e.1.0 e.1.1 rest
      ]

  -- `eval_source`, with `eval_budget` behind it. A jump skips the reset.
  unfoldable pub eval_source : Bytes → ℕ → List (Event r) × ℕ
  unfolding eval_each
  eval_source input budget = elim (r.parse input) [
    | refused ↦ ([], budget)
    | escaped ↦ ([], budget)
    | parsed l ↦
        if not (eval_tree_within_budget (vector l) 0 0).0 || not (r.new_env input)
        then ([], budget)
        else (let e = eval_each l full_budget in (e.0, settled e.1.0 e.1.1))
  ]

  -- `eval_run`: the last line resets the budget whatever happened.
  unfoldable pub eval_run : Bytes → ℕ → List (Event r) × ℕ
  unfolding eval_source
  eval_run input budget = ((eval_source input budget).0, 0)

  -- `none` is a read outside of the input.
  unfoldable pub run : Bytes → ℕ → Option (List (Event r) × ℕ)
  unfolding eval_run
  run input budget =
      if length input == 0 || ltb max_input (length input) || has_byte 0 input
      then some ([], budget)
      else elim (eval_valid_utf8 input) [
        | none ↦ none
        | some valid ↦ if not valid then some ([], budget) else some (eval_run input budget)
      ]
