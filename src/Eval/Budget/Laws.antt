-- ===== src/Eval/Budget/Laws.antt =====
-- What the budget of harnesses/eval.c guarantees.
use r_oss_fuzz.Base.{
  ℕ, zero, suc, ◌≤◌, Bool, true, false, some, List, [], ◌∷◌, Bytes, length, All, All-append, ltb,
  ◌==◌, ◌||◌, ◌≡◌, refl, ap, arith, Bool-cases, ◌⊎◌, none, not, inl, inr,
}
use r_oss_fuzz.Host.{has_byte}
use r_oss_fuzz.Eval.Utf8.Encoding.{IsByte}
use r_oss_fuzz.Eval.Utf8.Laws.{eval_valid_utf8_total}
use r_oss_fuzz.Eval.Tree.{Tree, Trees, nil, cons, vector, eval_tree_within_budget}
use r_oss_fuzz.Eval.Budget.{
  Poll, quiet, exhausted, cpu_exhausted, eval_poll_budget, polls, Parsing, parsed, refused, escaped,
  Compiling, code, declined, escapes, compiled_as, Rhost, Ending, finished, failed, jumped, Event,
  compiled, evaluated, eval_compile, after_each, eval_each, eval_source, eval_run, run, full_budget,
  max_input,
}

-- How many polls raise an error.
abbrev pub errors : List Poll → ℕ
errors [] = 0
errors (quiet ∷ l) = errors l
errors (exhausted ∷ l) = suc (errors l)
errors (cpu_exhausted ∷ l) = suc (errors l)

eval_poll_budget-none : (over : Bool) → eval_poll_budget over 0 ≡ (0, quiet)
unfolding eval_poll_budget
eval_poll_budget-none over = refl

-- Without a budget, no poll raises.
polls-zero : (flags : List Bool) → (errors (polls flags 0).1 ≡ 0) × ((polls flags 0).0 ≡ 0)
unfolding polls
polls-zero [] = (refl, refl)
polls-zero (over ∷ flags) = rw (eval_poll_budget-none over) (polls-zero flags)

eval_poll_budget-one : (over : Bool) → eval_poll_budget over 1 ≡ (0, exhausted)
unfolding eval_poll_budget
eval_poll_budget-one over = refl

eval_poll_budget-over : (b : ℕ) → eval_poll_budget true (suc (suc b)) ≡ (0, cpu_exhausted)
unfolding eval_poll_budget
eval_poll_budget-over b = ground arith

eval_poll_budget-quiet : (b : ℕ) → eval_poll_budget false (suc (suc b)) ≡ (suc b, quiet)
unfolding eval_poll_budget
eval_poll_budget-quiet b = ground arith

-- What one budget allows: an error at most, and one for sure once the budget is polled away.
abbrev pub CutOff : List Bool → ℕ → Type 0
CutOff flags budget =
    (errors (polls flags budget).1 ≤ 1)
    × (budget ≤ length flags → (errors (polls flags budget).1 ≡ 1) × ((polls flags budget).0 ≡ 0))

-- For every sequence of polls under a budget of 1 or more, whatever the clock says: at most one of them
-- raises an error, and if there are as many as the budget, one does, and the budget is then 0.
pub polls-CutOff : (flags : List Bool) (budget : ℕ) → 1 ≤ budget → CutOff flags budget
unfolding polls
polls-CutOff [] budget h = (omega arith, λ k. absurd (omega arith))
polls-CutOff (over ∷ flags) zero h = absurd (omega arith)
polls-CutOff (over ∷ flags) (suc zero) h =
    rw (eval_poll_budget-one over)
      (let z = polls-zero flags in (omega (arith, z.0), λ k. (ap suc z.0, z.1)))
polls-CutOff (true ∷ flags) (suc (suc b)) h =
    rw (eval_poll_budget-over b)
      (let z = polls-zero flags in (omega (arith, z.0), λ k. (ap suc z.0, z.1)))
polls-CutOff (false ∷ flags) (suc (suc b)) h =
    rw (eval_poll_budget-quiet b)
      (let z = polls-CutOff flags (suc b) (omega arith) in (z.0, λ k. z.1 (omega arith)))

Parsing-cases : (p : Parsing) → ((p ≡ refused) ⊎ (p ≡ escaped)) ⊎ ((l : Trees) × (p ≡ parsed l))
Parsing-cases (parsed l) = inr (l, refl)
Parsing-cases refused = inl (inl refl)
Parsing-cases escaped = inl (inr refl)

module _ (r : Rhost) where
  -- The compiler runs without a budget, and an evaluation within that of the input.
  abbrev pub Within : Event r → Type 0
  Within (compiled b x) = b ≡ 0
  Within (evaluated b c) = b ≤ full_budget

  abbrev pub Spends : Type 0
  Spends = (b : ℕ) (c : r.Code) → (r.evaluate b c).0 ≤ b

  after_each-Within :
      (done : List (Event r)) (budget : ℕ) (e : Ending) (rest : List (Event r) × (ℕ × Ending))
      → All Within done
      → All Within rest.0
      → All Within (after_each r done budget e rest).0
  after_each-Within done budget finished rest h k = All-append Within done rest.0 h k
  after_each-Within done budget failed rest h k = h
  after_each-Within done budget jumped rest h k = h

  -- Code comes with the budget put back.
  eval_compile-cases :
      (x : Tree) (budget : ℕ) (c : ℕ × Compiling r.Code)
      → ((compiled_as r budget x c).1 ≡ none)
        ⊎ ((k : r.Code) × ((compiled_as r budget x c).1 ≡ some k)
            × ((compiled_as r budget x c).0 ≡ budget))
  eval_compile-cases x budget (left, code k) = inr (k, refl, refl)
  eval_compile-cases x budget (left, declined) = inr (r.source x, refl, refl)
  eval_compile-cases x budget (left, escapes) = inl refl

  each-Within :
      Spends → (l : Trees) (budget : ℕ) → budget ≤ full_budget → All Within (eval_each r l budget).0
  unfolding eval_each eval_compile
  each-Within s nil budget h = tt
  each-Within s (cons x l) budget h = elim (eval_compile-cases x budget (r.compile 0 x)) [
    | inl jump ↦ rw (jump, eval_each, eval_compile) (refl, tt)
    | inr (k, some_code, same) ↦
        let e = r.evaluate budget k in
        rw (some_code, same, eval_each, eval_compile)
          (after_each-Within (compiled 0 x ∷ evaluated budget k ∷ []) e.0 e.1 (eval_each r l e.0)
            (refl, (h, tt)) (each-Within s l e.0 (omega (arith, s budget k))))
  ]

  eval_source-Within :
      Spends → (input : Bytes) (budget : ℕ) → All Within (eval_source r input budget).0
  unfolding eval_source
  eval_source-Within s input budget = elim (Parsing-cases (r.parse input)) [
    | inl nothing ↦ elim nothing [ inl e ↦ rw (e, eval_source) tt | inr e ↦ rw (e, eval_source) tt ]
    | inr (l, e) ↦
        elim (Bool-cases
          (not (eval_tree_within_budget (vector l) 0 0).0 || not (r.new_env input))) [
            | inl stop ↦ rw (e, stop, eval_source) tt
            | inr go ↦ rw (e, go, eval_source) (each-Within s l full_budget (omega arith))
          ]
  ]

  -- Where an evaluation never adds to the budget, every input of bytes is taken to its end, no byte
  -- outside of it is read, the compiler runs without a budget and each evaluation within that of the
  -- input, and no budget is left behind, also where R jumped out of the parser, the compiler or an
  -- evaluation, past the reset.
  pub run-Within :
      Spends
      → (input : Bytes) → All IsByte input
      → (events : List (Event r)) × (run r input 0 ≡ some (events, 0)) × All Within events
  unfolding run eval_run
  run-Within s input b =
      let v = eval_valid_utf8_total input b in
      elim (Bool-cases (length input == 0 || ltb max_input (length input) || has_byte 0 input)) [
        | inl skip ↦ ([], rw (skip, run) refl, tt)
        | inr go ↦ elim (Bool-cases v.0) [
          | inr bad ↦ ([], rw (go, v.1, bad, run) refl, tt)
          | inl good ↦ (
            (eval_source r input 0).0,
            rw (go, v.1, good, run) refl,
            eval_source-Within s input 0,
          )
        ]
      ]
