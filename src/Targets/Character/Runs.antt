-- ===== src/Targets/Character/Runs.antt =====
-- What harnesses/character.c does with an input.
use r_oss_fuzz.Base.{
  ℕ, suc, ◌*◌, ◌%◌, ◌<◌, ◌≤◌, lt→ltb, le→ltb, Bool, true, false, not, ◌&&◌, ◌||◌, some, List, [],
  ◌∷◌, ◌++◌, Bytes, length, get_elem?, get_elem?-lt, ltb, if◌then◌else◌, ◌or_else◌, ◌≡◌, refl, sym,
  ◌∙◌, arith, Bool-cases, inl, inr,
}
use r_oss_fuzz.Host.{
  Op, x_str, x_utf8, x_latin1, aux_string, aux_utf8, native, utf8, latin1, set_string, eval_silent,
  Host, Trace, M, finish, has_byte,
}
use r_oss_fuzz.Host.Session.{session}
use r_oss_fuzz.Common.Repeat.Laws.{fuzz_repeat_product_excessive_total}
use r_oss_fuzz.Common.Repeat.{fuzz_repeat_product_excessive}
use r_oss_fuzz.Targets.Character.Chartr.{fuzz_chartr_table_excessive}
use r_oss_fuzz.Targets.Character.Chartr.Laws.{fuzz_chartr_table_excessive_total}
use r_oss_fuzz.Targets.Character.Slots.{
  needs, wants, need_x, need_xu, need_xl, need_aux, need_auxu, need_regex, need_chartr,
}
use r_oss_fuzz.Targets.Character.{
  n_fixed_calls, default_aux, fields, refuses, require_if, stage_and_eval, run,
}
use r_oss_fuzz.Host.Fields.{halves, cut_at_newline-halves}
use r_oss_fuzz.Host.Buffers.{accepts, accepts-bounds, c_string-fill}

-- A slot with two fields reads the auxiliary string in front of the first newline and the subject
-- behind it. Without a newline, and in the other slots, the payload is the subject.
abbrev pub split : ℕ → Bytes → Bytes × Bytes
split i p = if ltb i n_fixed_calls then (p, default_aux) else halves default_aux p

abbrev pub only_if : Bool → Op → List Op
only_if true op = op ∷ []
only_if false op = []

-- What a mask asks to be staged.
abbrev pub stages : ℕ → Bytes → Bytes → List Op
stages need subject aux =
    only_if (wants need need_x) (set_string x_str native subject)
    ++ (only_if (wants need need_xu) (set_string x_utf8 utf8 subject)
        ++ (only_if (wants need need_xl) (set_string x_latin1 latin1 subject)
            ++ (only_if (wants need need_aux) (set_string aux_string native aux)
                ++ (only_if (wants need need_auxu) (set_string aux_utf8 utf8 aux) ++ []))))

require_if-session :
    (wanted : Bool) (h : Host) (op : Op) (k : M (Unit {0})) (ops evals : List Op)
    → ((t : Trace) → k t ≡ some (tt, session h ops evals t))
    → (t : Trace)
    → require_if wanted h op k t ≡ some (tt, session h (only_if wanted op ++ ops) evals t)
unfolding require_if session
require_if-session true h op k ops evals next t = ground (arith, next (t ++ op ∷ []))
require_if-session false h op k ops evals next t = next t

stage_and_eval-session :
    (h : Host) (i need : ℕ) (subject aux : Bytes)
    → (t : Trace)
    → stage_and_eval h i need subject aux t
      ≡ some (tt, session h (stages need subject aux) (eval_silent i ∷ []) t)
unfolding stage_and_eval require_if session
stage_and_eval-session h i need subject aux = require_if-session (wants need need_x) h _ _ _ _ (
    require_if-session (wants need need_xu) h _ _ _ _ (
      require_if-session (wants need need_xl) h _ _ _ _ (
        require_if-session (wants need need_aux) h _ _ _ _
          (require_if-session (wants need need_auxu) h _ _ [] (eval_silent i ∷ []) (λ t. refl)))))

fields-split : (i : ℕ) (p : Bytes) → has_byte 0 p ≡ false → fields i p (p ++ 0 ∷ []) ≡ split i p
unfolding fields
fields-split i p h = rw (c_string-fill p h, cut_at_newline-halves default_aux p h) refl

or_else-guards :
    (u v x y : Bool)
    → (if u then some x else some false) or_else (if v then some y else some false)
      ≡ some ((u && x) || (v && y))
or_else-guards u v x y = ground arith

refuses_lem :
    (need : ℕ) (aux : Bytes) (x y : Bool)
    → fuzz_repeat_product_excessive aux ≡ some x
    → fuzz_chartr_table_excessive aux ≡ some y
    → refuses need aux ≡ some ((wants need need_regex && x) || (wants need need_chartr && y))
unfolding refuses
refuses_lem need aux x y a b =
    rw (a, b) (or_else-guards (wants need need_regex) (wants need need_chartr) x y)

needs-total : (i : ℕ) → (need : ℕ) × (get_elem? needs (i % 34) ≡ some need)
needs-total i = get_elem?-lt needs (i % 34) (omega arith)

-- What follows `fill`, with the fields that the buffer gives.
run-accepted :
    (h : Host) (b : ℕ) (p : Bytes) (t : Trace) (need : ℕ) (refused : Bool)
    → has_byte 0 p ≡ false
    → 1 ≤ length p
    → length p < 1024 * 64
    → get_elem? needs (b % 34) ≡ some need
    → refuses need (split (b % 34) p).1 ≡ some refused
    → run h (b ∷ p) t ≡ (
        if refused
        then some (tt, t)
        else stage_and_eval h (b % 34) need (split (b % 34) p).0 (split (b % 34) p).1 t)
unfolding run
run-accepted h b p t need refused text lo hi e r =
    rw
      (
        le→ltb (suc (length p)) 2 (omega arith),
        le→ltb (1024 * 64) (suc (length p)) (omega arith),
        text,
        e,
        lt→ltb (length p) (1024 * 64) hi,
        fields-split (b % 34) p text,
        r,
      )
      (elim refused
        as (λ x.
          (if x
              then finish
              else stage_and_eval h (b % 34) need (split (b % 34) p).0 (split (b % 34) p).1)
            t
          ≡ (if x
              then some (tt, t)
              else stage_and_eval h (b % 34) need (split (b % 34) p).0 (split (b % 34) p).1 t)) [
                | true ↦ refl
                | false ↦ refl
              ])

run-other :
    (h : Host) (b : ℕ) (p : Bytes) (t : Trace)
    → accepts (1024 * 64) (b ∷ p) ≡ false
    → run h (b ∷ p) t ≡ some (tt, t)
unfolding run
run-other h b p t e = elim (Bool-cases (has_byte 0 p)) [
  | inl nul ↦ ground arith
  | inr text ↦ ground arith
]

choose :
    (h : Host) (i need : ℕ) (subject aux : Bytes) (t : Trace) (refused : Bool)
    → (if refused then some (tt, t) else stage_and_eval h i need subject aux t)
      ≡ some (
        tt,
        if not refused then session h (stages need subject aux) (eval_silent i ∷ []) t else t,
      )
choose h i need subject aux t true = refl
choose h i need subject aux t false = stage_and_eval-session h i need subject aux t

-- The guard that the mask asks for has refused.
abbrev pub refused_by : ℕ → Bool → Bool → Bool
refused_by need repeats table =
    (wants need need_regex && repeats) || (wants need need_chartr && table)

-- For every input of a byte or more: both guards answer, no buffer is overrun and no index is out of
-- range. An input that is not accepted, or that a guard which the slot's mask asks for refuses, does
-- nothing. Any other one is split into its fields, the objects of the mask are staged in order, and if
-- all of that succeeds the call is evaluated.
pub character_run-session :
    (h : Host) (b : ℕ) (p : Bytes) (t : Trace)
    → (need : ℕ) × (repeats : Bool) × (table : Bool) × (get_elem? needs (b % 34) ≡ some need)
      × (fuzz_repeat_product_excessive (split (b % 34) p).1 ≡ some repeats)
      × (fuzz_chartr_table_excessive (split (b % 34) p).1 ≡ some table)
      × (run h (b ∷ p) t
          ≡ some (
            tt,
            if accepts (1024 * 64) (b ∷ p) && not (refused_by need repeats table)
                then session h
                    (stages need (split (b % 34) p).0 (split (b % 34) p).1)
                    (eval_silent (b % 34) ∷ [])
                    t
                else t,
          ))
character_run-session h b p t =
    let n = needs-total b in
    let aux = (split (b % 34) p).1 in
    let x = fuzz_repeat_product_excessive_total aux in
    let y = fuzz_chartr_table_excessive_total aux in
    let r = refused_by n.0 _ y.0 in
    (
      n.0,
      _,
      y.0,
      n.1,
      x.2,
      y.1,
      elim (Bool-cases (accepts (1024 * 64) (b ∷ p))) [
        | inr other ↦ run-other h b p t other ∙ sym (rw other refl)
        | inl good ↦
            let w = accepts-bounds (1024 * 64) b p good in
            run-accepted h b p t n.0 r w.0 w.1 w.2 n.1 (refuses_lem n.0 aux _ y.0 x.2 y.1)
            ∙ choose h (b % 34) n.0 (split (b % 34) p).0 (split (b % 34) p).1 t r
            ∙ sym (rw good refl)
      ],
    )
