-- ===== src/Host/Fields.antt =====
-- A payload that a newline cuts into two C strings in place, as harnesses/character.c and
-- harnesses/datetime.c do it.
use r_oss_fuzz.Base.{
  ℕ, suc, ◌+◌, false, none, some, [], ◌∷◌, ◌++◌, Bytes, length, drop, ◌==◌, if◌then◌else◌, ◌≡◌,
  refl, ap, ◌∙◌, arith, Bool-cases, Option-cases, inl, inr,
}
use mathlib.Core.List.{append_assoc}
use r_oss_fuzz.Host.{has_byte, c_string, break_line}
use r_oss_fuzz.Host.Buffers.{c_string-fill}

-- The string behind the newline and the one in front of it, which is `default` without a newline.
-- `buffer` holds the payload and a NUL; a NUL is written over the newline.
unfoldable pub cut_at_newline : Bytes → Bytes → Bytes → Bytes × Bytes
cut_at_newline default payload buffer = elim (break_line payload) [
  | none ↦ (c_string buffer, default)
  | some (a, b) ↦
      let cut = a ++ 0 ∷ drop (length a + 1) buffer in
      (c_string (drop (length a + 1) cut), c_string cut)
]

-- The same two strings, read off the payload.
abbrev pub halves : Bytes → Bytes → Bytes × Bytes
halves default p = elim (break_line p) [ none ↦ (p, default) | some (a, b) ↦ (b, a) ]

abbrev pub newlines : Bytes → ℕ
newlines [] = 0
newlines (c ∷ l) = if c == b'\n' then suc (newlines l) else newlines l

-- Where `memchr` finds the newline.
pub break_line-some :
    (p a b : Bytes)
    → break_line p ≡ some (a, b)
    → (p ≡ a ++ (b'\n' ∷ b)) × (newlines p ≡ suc (newlines b)) × (newlines a ≡ 0)
unfolding break_line
break_line-some [] a b e = cc
break_line-some (c ∷ p) [] b e = elim (Bool-cases (c == b'\n')) [
  | inl here ↦ ground arith
  | inr later ↦ elim (Option-cases (break_line p)) [
    | inl fail ↦ absurd (ground arith)
    | inr found ↦ absurd (ground arith)
  ]
]
break_line-some (c ∷ p) (d ∷ a) b e = ground (arith, break_line-some p a b)

pub break_line-none : (p : Bytes) → break_line p ≡ none → newlines p ≡ 0
unfolding break_line
break_line-none [] e = refl
break_line-none (c ∷ p) e = ground (arith, break_line-none p)

break_line-NoNul :
    (p a b : Bytes)
    → break_line p ≡ some (a, b)
    → has_byte 0 p ≡ false
    → (has_byte 0 a ≡ false) × (has_byte 0 b ≡ false)
unfolding break_line has_byte
break_line-NoNul [] a b e h = cc
break_line-NoNul (c ∷ p) [] b e h = elim (Bool-cases (c == b'\n')) [
  | inl here ↦ ground arith
  | inr later ↦ elim (Option-cases (break_line p)) [
    | inl fail ↦ absurd (ground arith)
    | inr found ↦ absurd (ground arith)
  ]
]
break_line-NoNul (c ∷ p) (d ∷ a) b e h = ground (arith, break_line-NoNul p a b)

c_string-cut : (a r : Bytes) → has_byte 0 a ≡ false → c_string (a ++ 0 ∷ r) ≡ a
unfolding c_string has_byte
c_string-cut [] r h = refl
c_string-cut (b ∷ a) r h = ground (arith, c_string-cut a r)

drop_behind : (a : Bytes) (c : ℕ) (r : Bytes) → drop (length a + 1) (a ++ c ∷ r) ≡ r
drop_behind [] c r = refl
drop_behind (x ∷ a) c r = ap (λ n. drop n (x ∷ (a ++ c ∷ r))) (shift (length a)) ∙ drop_behind a c r
  where
    shift : (n : ℕ) → suc n + 1 ≡ suc (n + 1)
    shift n = omega arith

pub cut_at_newline-halves :
    (default p : Bytes)
    → has_byte 0 p ≡ false
    → cut_at_newline default p (p ++ 0 ∷ []) ≡ halves default p
unfolding cut_at_newline
cut_at_newline-halves default p h = elim (Option-cases (break_line p)) [
  | inl whole ↦ ground (arith, c_string-fill p h)
  | inr ((a, b), e) ↦
      let s = break_line-some p a b e in
      let z = break_line-NoNul p a b e h in
      let shape = ap (λ x. x ++ 0 ∷ []) s.0 ∙ append_assoc a (b'\n' ∷ b) (0 ∷ []) in
      let behind = ap (drop (length a + 1)) shape ∙ drop_behind a b'\n' (b ++ 0 ∷ []) in
      rw
        (
          e,
          cut_at_newline,
          behind,
          drop_behind a 0 (b ++ 0 ∷ []),
          c_string-cut a (b ++ 0 ∷ []) z.0,
          c_string-cut b [] z.1,
        )
        (rw (e, halves) refl)
]
