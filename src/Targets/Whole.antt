-- ===== src/Targets/Whole.antt =====
-- The targets that hand the whole input to every one of their calls.
use r_oss_fuzz.Base.{
  ◌*◌, Bool, not, ◌&&◌, some, [], ◌∷◌, ◌++◌, Bytes, length, length-append, leb, if◌then◌else◌, ◌≡◌,
  refl, arith,
}
use mathlib.Core.List.{append_assoc}
use r_oss_fuzz.Host.{x_str, native, Op, set_string, eval_toplevel, Host, Trace, c_string}
use r_oss_fuzz.Host.Session.{session}
use r_oss_fuzz.Common.Repeat.{fuzz_repeat_product_excessive}
use r_oss_fuzz.Targets.Coerce
use r_oss_fuzz.Targets.Agrep

-- The NUL behind the input ends the string, if none stands in it.
c_string-append : (p : Bytes) → c_string (p ++ 0 ∷ []) ≡ c_string p
unfolding c_string
c_string-append [] = refl
c_string-append (b ∷ p) = ground (arith, c_string-append p)

module _ (t : Trace) (a b c : Op) where
  append_three : ((t ++ a ∷ []) ++ b ∷ []) ++ c ∷ [] ≡ t ++ (a ∷ b ∷ c ∷ [])
  append_three = simp append_assoc

  append_four :
      (d : Op) → (((t ++ a ∷ []) ++ b ∷ []) ++ c ∷ []) ++ d ∷ [] ≡ t ++ (a ∷ b ∷ c ∷ d ∷ [])
  append_four d = simp append_assoc

abbrev pub in_size : Bytes → Bool
in_size input = leb 1 (length input) && leb (length input) (1024 * 64)

-- The coercion target stages the input up to its first NUL and then runs each of its four calls, in
-- order; an input outside the size limits does nothing, and nothing is overrun.
pub coerce_run-session :
    (h : Host) (input : Bytes) (t : Trace)
    → Coerce.run h input t
      ≡ some (
        tt,
        if in_size input
            then session h
                (set_string x_str native (c_string input) ∷ [])
                (eval_toplevel 0 ∷ eval_toplevel 1 ∷ eval_toplevel 2 ∷ eval_toplevel 3 ∷ [])
                t
            else t,
      )
unfolding Coerce.run session
coerce_run-session h input t = ground (
  arith,
  c_string-append input,
  length-append input (0 ∷ []),
  append_four (t ++ set_string x_str native (c_string input) ∷ []) (eval_toplevel 0)
      (eval_toplevel 1) (eval_toplevel 2) (eval_toplevel 3),
)

-- The agrep target does so with its three calls, unless the repeat guard refuses the pattern.
pub agrep_run-session :
    (h : Host) (input : Bytes) (t : Trace) {excessive : Bool}
    → fuzz_repeat_product_excessive (c_string input) ≡ some excessive
    → Agrep.run h input t
      ≡ some (
        tt,
        if in_size input && not excessive
            then session h
                (set_string x_str native (c_string input) ∷ [])
                (eval_toplevel 0 ∷ eval_toplevel 1 ∷ eval_toplevel 2 ∷ [])
                t
            else t,
      )
unfolding Agrep.run session
agrep_run-session h input t e = ground (
  arith,
  c_string-append input,
  append_three (t ++ set_string x_str native (c_string input) ∷ []) (eval_toplevel 0)
      (eval_toplevel 1) (eval_toplevel 2),
)

-- For every input, the coercion target stages the input up to its first NUL and, if that succeeds, runs
-- its four calls in order. The target of approximate matching does so with its three calls, on an input
-- for which the repeat guard answers, unless the guard refuses it. An input outside of the size limits
-- does nothing.
pub whole_run-session :
    (h : Host) (input : Bytes) (t : Trace) {excessive : Bool}
    → fuzz_repeat_product_excessive (c_string input) ≡ some excessive
    → (Coerce.run h input t
        ≡ some (
          tt,
          if in_size input
              then session h
                  (set_string x_str native (c_string input) ∷ [])
                  (eval_toplevel 0 ∷ eval_toplevel 1 ∷ eval_toplevel 2 ∷ eval_toplevel 3 ∷ [])
                  t
              else t,
        ))
      × (Agrep.run h input t
          ≡ some (
            tt,
            if in_size input && not excessive
                then session h
                    (set_string x_str native (c_string input) ∷ [])
                    (eval_toplevel 0 ∷ eval_toplevel 1 ∷ eval_toplevel 2 ∷ [])
                    t
                else t,
          ))
whole_run-session h input t e = (coerce_run-session h input t, agrep_run-session h input t e)
