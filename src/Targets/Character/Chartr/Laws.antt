-- ===== src/Targets/Character/Chartr/Laws.antt =====
-- What `fuzz_chartr_table_excessive` of harnesses/character.c answers.
use r_oss_fuzz.Base.{
  ℕ, zero, suc, ◌+◌, ◌/◌, ◌%◌, ◌≤◌, Bool, some, List, [], ◌∷◌, ◌++◌, Bytes, length, drop,
  length-drop, get_elem?, All, ltb, ◌≡◌, refl, ap, sym, ◌∙◌, arith, dec_lt,
}
use mathlib.Core.Path.{subst}
use r_oss_fuzz.Targets.Character.Chartr.{max_chartr_table, fuzz_chartr_table_excessive}
use r_oss_fuzz.Targets.Character.Chartr.Spec.{table_entries}
use r_oss_fuzz.Targets.Character.Chartr.Front.{front, front_bounds, front-encode}
use r_oss_fuzz.Eval.Utf8.Encoding.{IsScalar, encode, encode_all}
use r_oss_fuzz.Targets.Character.Chartr.Chars.{Chars, done, char, points, Rest}
use r_oss_fuzz.Targets.Character.Chartr.Rounds.{table_from-Chars}

starts : (l : Bytes) → Rest (l ++ 0 ∷ []) 0 l
starts l = record { size = omega arith; at = λ k. ap (get_elem? (l ++ 0 ∷ [])) (omega arith) }

-- For every specification, as the characters that the lenient decoder finds in it, the guard answers
-- whether the table has more than `max_chartr_table` entries.
pub fuzz_chartr_table_excessive-Chars :
    (spec : Bytes) (cs : List (ℕ × ℕ))
    → Chars spec cs
    → fuzz_chartr_table_excessive spec ≡ some (ltb max_chartr_table (table_entries (points cs)))
unfolding fuzz_chartr_table_excessive
fuzz_chartr_table_excessive-Chars spec cs r =
    table_from-Chars (suc (length spec)) (spec ++ 0 ∷ []) (length spec) r 0 0 (starts spec)
      (omega arith) (omega arith) (omega arith)
    ∙ ap (λ x. some (ltb max_chartr_table x)) (omega arith)

-- Every text has its characters, by the lengths of what is left.
characters : (fuel : ℕ) (l : Bytes) → length l ≤ fuel → (cs : List (ℕ × ℕ)) × Chars l cs
characters fuel [] h = ([], done)
characters zero (c ∷ l) h = absurd (omega arith)
characters (suc fuel) (c ∷ l) h =
    let r =
      characters fuel (drop (front c l).1 (c ∷ l))
        (omega (arith, length-drop (front c l).1 (c ∷ l), front_bounds c l)) in
    (front c l ∷ r.0, char refl refl r.1)

-- For every specification, the guard ends with an answer and reads no byte behind the NUL.
pub fuzz_chartr_table_excessive_total :
    (spec : Bytes) → (b : Bool) × (fuzz_chartr_table_excessive spec ≡ some b)
fuzz_chartr_table_excessive_total spec =
    let r = characters (length spec) spec (omega arith) in
    (
      ltb max_chartr_table (table_entries (points r.0)),
      fuzz_chartr_table_excessive-Chars spec r.0 r.1,
    )

starts_with : (cp : ℕ) → (c : ℕ) × (r : Bytes) × (encode cp ≡ c ∷ r)
starts_with cp = elim (dec_lt cp 0x80) [
  | yes h ↦ (cp, [], ground arith)
  | no h ↦ elim (dec_lt cp 0x800) [
    | yes h₂ ↦ (0xc0 + cp / 64, (0x80 + cp % 64) ∷ [], ground arith)
    | no h₂ ↦ elim (dec_lt cp 0x10000) [
      | yes h₃ ↦ (0xe0 + cp / 4096, (0x80 + cp / 64 % 64) ∷ (0x80 + cp % 64) ∷ [], ground arith)
      | no h₃ ↦ (
        0xf0 + cp / 262144,
        (0x80 + cp / 4096 % 64) ∷ (0x80 + cp / 64 % 64) ∷ (0x80 + cp % 64) ∷ [],
        ground arith,
      )
    ]
  ]
]

drop_past : (r l : Bytes) → drop (length r) (r ++ l) ≡ l
drop_past [] l = refl
drop_past (x ∷ r) l = drop_past r l

encode_one :
    (cp : ℕ) (l : Bytes) (cs : List (ℕ × ℕ))
    → IsScalar cp
    → Chars l cs
    → (w : ℕ) × Chars (encode cp ++ l) ((cp, w) ∷ cs)
encode_one cp l cs h r =
    let b = starts_with cp in
    (
      suc (length b.1),
      subst (λ x. Chars (x ++ l) ((cp, suc (length b.1)) ∷ cs)) (sym b.2)
          (char (front-encode cp b.0 b.1 l h b.2) (drop_past b.1 l) r),
    )

encode-Chars :
    (cps : List ℕ)
    → All IsScalar cps
    → (cs : List (ℕ × ℕ)) × Chars (encode_all cps) cs × (points cs ≡ cps)
unfolding encode_all
encode-Chars [] h = ([], done, refl)
encode-Chars (cp ∷ cps) h =
    let rest = encode-Chars cps h.1 in
    let first = encode_one cp (encode_all cps) rest.0 h.0 rest.1 in
    ((cp, first.0) ∷ rest.0, first.1, ap (λ x. cp ∷ x) rest.2)

-- For the UTF-8 of a list of scalar values, the guard answers whether the table that these declare has
-- more than `max_chartr_table` entries.
pub fuzz_chartr_table_excessive_lem :
    (cps : List ℕ)
    → All IsScalar cps
    → fuzz_chartr_table_excessive (encode_all cps) ≡ some (ltb max_chartr_table (table_entries cps))
fuzz_chartr_table_excessive_lem cps h =
    let r = encode-Chars cps h in
    fuzz_chartr_table_excessive-Chars (encode_all cps) r.0 r.1
    ∙ ap (λ x. some (ltb max_chartr_table (table_entries x))) r.2
