-- ===== src/Targets/Lines.antt =====
-- `set_lines` of harnesses/sort.c loses nothing: its lines, joined again, are the input.
use r_oss_fuzz.Base.{
  ◌⊎◌, inl, inr, dec_lt, ◌≤◌, ℕ, zero, suc, ◌+◌, ◌-◌, ◌≤◌, ◌<◌, none, some, List, [], ◌∷◌, ◌++◌,
  Bytes, length, All, min, ◌≡◌, inl, inr, refl, ap, sym, ◌∙◌, arith, Option-cases,
}
use r_oss_fuzz.Host.{break_line}
use r_oss_fuzz.Host.Fields.{newlines, break_line-some, break_line-none}
use r_oss_fuzz.Targets.Sort.{count_lines, split_lines, lines, max_lines}

-- The lines with a newline between each two.
abbrev pub join : List Bytes → Bytes
join [] = []
join (l ∷ []) = l
join (l ∷ m ∷ r) = l ++ (b'\n' ∷ join (m ∷ r))

count_lines-newlines :
    (n : ℕ) (p : Bytes) → n ≤ max_lines → count_lines n p ≡ min max_lines (n + newlines p)
unfolding count_lines
count_lines-newlines n [] h = omega arith
count_lines-newlines n (c ∷ p) h =
    ground (arith, count_lines-newlines n p, count_lines-newlines (n + 1) p)

module _ (n : ℕ) (p : Bytes) where
  split_lines-none : break_line p ≡ none → split_lines (suc (suc n)) p ≡ p ∷ split_lines (suc n) []
  unfolding split_lines
  split_lines-none e = rw (e, split_lines)

  split_lines-some :
      (a b : Bytes)
      → break_line p ≡ some (a, b)
      → split_lines (suc (suc n)) p ≡ a ∷ split_lines (suc n) b
  unfolding split_lines
  split_lines-some a b e = rw (e, split_lines)

length-split_lines : (n : ℕ) (p : Bytes) → length (split_lines n p) ≡ n
length-split_lines zero p = unfold split_lines in refl
length-split_lines (suc zero) p = unfold split_lines in refl
length-split_lines (suc (suc n)) p = elim (Option-cases (break_line p)) [
  | inl e ↦ ap length (split_lines-none n p e) ∙ ap suc (length-split_lines (suc n) [])
  | inr ((a, b), e) ↦ ap length (split_lines-some n p a b e) ∙ ap suc (length-split_lines (suc n) b)
]

join-cons : (l : Bytes) (r : List Bytes) → 0 < length r → join (l ∷ r) ≡ l ++ (b'\n' ∷ join r)
join-cons l [] h = absurd (omega arith)
join-cons l (m ∷ r) h = refl

join-split_lines : (n : ℕ) (p : Bytes) → n ≤ newlines p → join (split_lines (suc n) p) ≡ p
join-split_lines zero p h = unfold split_lines in refl
join-split_lines (suc n) p h = elim (Option-cases (break_line p)) [
  | inl e ↦ absurd (omega (arith, break_line-none p e))
  | inr ((a, b), e) ↦
      let f = break_line-some p a b e in
      ap join (split_lines-some n p a b e)
      ∙ join-cons a (split_lines (suc n) b) (omega (arith, length-split_lines (suc n) b))
      ∙ ap (λ r. a ++ (b'\n' ∷ r)) (join-split_lines n b (omega arith))
      ∙ sym f.0
]

abbrev pub OneLine : Bytes → Type 0
OneLine l = newlines l ≡ 0

All-split_lines : (n : ℕ) (p : Bytes) → n ≡ newlines p → All OneLine (split_lines (suc n) p)
All-split_lines zero p h = unfold split_lines in (sym h, tt)
All-split_lines (suc n) p h = elim (Option-cases (break_line p)) [
  | inl e ↦ absurd (omega (arith, break_line-none p e))
  | inr ((a, b), e) ↦
      let f = break_line-some p a b e in
      rw (split_lines-some n p a b e) (f.2, All-split_lines n b (omega arith))
]

-- One line fewer than there are: the newlines that part them.
breaks : Bytes → ℕ
breaks p = min (max_lines - 1) (newlines p)

lines_lem : (p : Bytes) → lines p ≡ split_lines (suc (breaks p)) p
unfolding lines breaks
lines_lem p = ap (λ n. split_lines n p) count
  where
    count : count_lines 1 p ≡ suc (breaks p)
    count = omega (arith, count_lines-newlines 1 p (omega arith))

lines-OneLine : (p : Bytes) → newlines p < max_lines → All OneLine (lines p)
unfolding breaks
lines-OneLine p h = rw (lines_lem p) (All-split_lines (breaks p) p (omega arith))

-- The lines of an input, joined by newlines, are the input; there is one more of them than it has
-- newlines, up to 2000; and no line holds a newline, unless there are 2000 newlines or more.
pub lines-join :
    (p : Bytes)
    → (join (lines p) ≡ p)
      × (length (lines p) ≡ min max_lines (suc (newlines p)))
      × ((max_lines ≤ newlines p) ⊎ All OneLine (lines p))
unfolding breaks
lines-join p = (
  rw (lines_lem p) (join-split_lines (breaks p) p (omega arith)),
  rw (lines_lem p) (omega (arith, length-split_lines (suc (breaks p)) p)),
  elim (dec_lt (newlines p) max_lines) [
    | yes h ↦ inr (lines-OneLine p h)
    | no h ↦ inl (omega arith)
  ],
)
