-- ===== src/Targets/Character/Chartr/Rounds.antt =====
-- The outer loop of `fuzz_chartr_table_excessive` of harnesses/character.c, round by round.
use r_oss_fuzz.Base.{
  ℕ, zero, suc, ◌+◌, ◌≤◌, ◌<◌, true, some, List, [], ◌∷◌, Bytes, length, take, drop, ltb, lt→ltb,
  ◌≡◌, refl, ap, ◌∙◌, arith, dec_lt, ℕ_discrete,
}
use mathlib.Core.Path.{subst}
use r_oss_fuzz.Targets.Character.Chartr.{
  max_chartr_table, decode_some, advance, range_entries, table_from,
}
use r_oss_fuzz.Targets.Character.Chartr.Spec.{table_entries}
use r_oss_fuzz.Targets.Character.Chartr.Front.{front}
use r_oss_fuzz.Targets.Character.Chartr.Chars.{
  Chars, done, char, points, Rest, after, decode_some-take,
}

within : (e t : ℕ) → e ≤ t → max_chartr_table < e → ltb max_chartr_table t ≡ true
within e t le h = lt→ltb _ _ (omega arith)

-- One round, from the characters that the inner loop decodes to the round that follows.
round :
    (fuel : ℕ) (s : Bytes) (n entries i t : ℕ) (r : List (ℕ × ℕ)) (e j : ℕ)
    → i < n
    → decode_some s n i 3 ≡ some r
    → advance r entries i ≡ some (e, j)
    → e ≤ t
    → (e ≤ max_chartr_table → table_from fuel s n e j ≡ some (ltb max_chartr_table t))
    → table_from (suc fuel) s n entries i ≡ some (ltb max_chartr_table t)
unfolding table_from
round fuel s n entries i t r e j h d a le next = elim (dec_lt max_chartr_table e) [
  | yes over ↦ ground (arith, within e t le over)
  | no under ↦ ground (arith, next (omega arith))
]

table_from-done :
    (fuel : ℕ) (s : Bytes) (n entries i : ℕ)
    → n ≤ i
    → entries ≤ max_chartr_table
    → table_from (suc fuel) s n entries i ≡ some (ltb max_chartr_table (entries + table_entries []))
unfolding table_from table_entries
table_from-done fuel s n entries i h m = ground arith

-- What the theorem below says of the text that is left.
abbrev pub Counts : ℕ → Bytes → ℕ → Bytes → List (ℕ × ℕ) → Type 0
Counts fuel s n l cs =
    (entries i : ℕ)
    → Rest s i l
    → n ≡ i + length l
    → length l < fuel
    → entries ≤ max_chartr_table
    → table_from fuel s n entries i
      ≡ some (ltb max_chartr_table (entries + table_entries (points cs)))

-- A round that takes a single character.
one :
    (fuel : ℕ) (s : Bytes) (n : ℕ) (c : ℕ) (l l' : Bytes) (a : ℕ × ℕ) (cs : List (ℕ × ℕ))
    → front c l ≡ a
    → drop a.1 (c ∷ l) ≡ l'
    → Chars l' cs
    → ((entries i : ℕ) → advance (take 3 (a ∷ cs)) entries i ≡ some (entries + 1, i + a.1))
    → table_entries (points (a ∷ cs)) ≡ 1 + table_entries (points cs)
    → Counts fuel s n l' cs
    → Counts (suc fuel) s n (c ∷ l) (a ∷ cs)
one fuel s n c l l' a cs e q r adv split next entries i f h k m =
    let w = after s i c l a l' e q f in
    let t = entries + table_entries (points (a ∷ cs)) in
    let goal = next (entries + 1) (i + a.1) w.rest (h ∙ w.size) (omega (arith, w.moves, w.size)) in
    round fuel s n entries i t (take 3 (a ∷ cs)) (entries + 1) (i + a.1) (omega arith)
      (decode_some-take s n i 3 (char e q r) f h) (adv entries i) (omega (arith, split))
      (λ le. goal le ∙ ap (λ x. some (ltb max_chartr_table x)) (omega (arith, split)))

range_advance :
    (a b d : ℕ × ℕ) (entries i : ℕ)
    → b.0 ≡ b'-'
    → advance (a ∷ b ∷ d ∷ []) entries i
      ≡ some (entries + range_entries a.0 d.0, i + (a.1 + b.1 + d.1))
range_advance a b d entries i h = ground arith

single_advance :
    (a b d : ℕ × ℕ) (entries i : ℕ)
    → ¬ (b.0 ≡ b'-')
    → advance (a ∷ b ∷ d ∷ []) entries i ≡ some (entries + 1, i + a.1)
single_advance a b d entries i h = ground arith

range_split :
    (x d y : ℕ) (cs : List ℕ)
    → d ≡ b'-'
    → table_entries (x ∷ d ∷ y ∷ cs) ≡ range_entries x y + table_entries cs
unfolding table_entries
range_split x d y cs h = ground arith

single_split :
    (x d y : ℕ) (cs : List ℕ)
    → ¬ (d ≡ b'-')
    → table_entries (x ∷ d ∷ y ∷ cs) ≡ 1 + table_entries (d ∷ y ∷ cs)
unfolding table_entries
single_split x d y cs h = ground arith

last_split : (x : ℕ) → table_entries (x ∷ []) ≡ 1 + table_entries []
unfolding table_entries
last_split x = refl

pair_split : (x d : ℕ) → table_entries (x ∷ d ∷ []) ≡ 1 + table_entries (d ∷ [])
unfolding table_entries
pair_split x d = refl

-- A round that takes a range.
range :
    (fuel : ℕ) (s : Bytes) (n : ℕ) (c c₂ c₃ : ℕ) (l l₂ l₃ l₄ : Bytes) (a b d : ℕ × ℕ)
    (cs : List (ℕ × ℕ))
    → front c l ≡ a
    → drop a.1 (c ∷ l) ≡ c₂ ∷ l₂
    → front c₂ l₂ ≡ b
    → drop b.1 (c₂ ∷ l₂) ≡ c₃ ∷ l₃
    → front c₃ l₃ ≡ d
    → drop d.1 (c₃ ∷ l₃) ≡ l₄
    → Chars l₄ cs
    → b.0 ≡ b'-'
    → Counts fuel s n l₄ cs
    → Counts (suc fuel) s n (c ∷ l) (a ∷ b ∷ d ∷ cs)
range fuel s n c c₂ c₃ l l₂ l₃ l₄ a b d cs e q e₂ q₂ e₃ q₃ r dash next entries i f h k m =
    let w = after s i c l a (c₂ ∷ l₂) e q f in
    let w₂ = after s (i + a.1) c₂ l₂ b (c₃ ∷ l₃) e₂ q₂ w.rest in
    let w₃ = after s (i + a.1 + b.1) c₃ l₃ d l₄ e₃ q₃ w₂.rest in
    let t = entries + table_entries (points (a ∷ b ∷ d ∷ cs)) in
    let split = range_split a.0 b.0 d.0 (points cs) dash in
    let place : i + a.1 + b.1 + d.1 ≡ i + (a.1 + b.1 + d.1) = omega arith in
    let goal =
      next (entries + range_entries a.0 d.0) (i + (a.1 + b.1 + d.1))
        (subst (λ j. Rest s j l₄) place w₃.rest) (omega (arith, h, w.size, w₂.size, w₃.size))
        (omega (arith, w.moves, w.size, w₂.size, w₃.size)) in
    round fuel s n entries i t (a ∷ b ∷ d ∷ []) (entries + range_entries a.0 d.0)
      (i + (a.1 + b.1 + d.1)) (omega arith)
      (decode_some-take s n i 3 (char e q (char e₂ q₂ (char e₃ q₃ r))) f h)
      (range_advance a b d entries i dash) (omega (arith, split))
      (λ le. goal le ∙ ap (λ x. some (ltb max_chartr_table x)) (omega (arith, split)))

pub table_from-Chars :
    (fuel : ℕ) (s : Bytes) (n : ℕ) {l : Bytes} {cs : List (ℕ × ℕ)}
    → Chars l cs
    → Counts fuel s n l cs
table_from-Chars zero s n r entries i f h k m = absurd (omega arith)
table_from-Chars (suc fuel) s n done entries i f h k m =
    table_from-done fuel s n entries i (omega arith) m
table_from-Chars (suc fuel) s n (char {c} {l} {l'} {a} e q done) entries i f h k m =
    one fuel s n c l [] a [] e q done (λ entries i. refl) (last_split a.0)
      (table_from-Chars fuel s n done) entries i f h k m
table_from-Chars (suc fuel) s n (char {c} {l} {l'} {a} e q (char {a = b} e₂ q₂ done)) entries i f h
      k m =
    one fuel s n c l _ a (b ∷ []) e q (char e₂ q₂ done) (λ entries i. refl) (pair_split a.0 b.0)
      (table_from-Chars fuel s n (char e₂ q₂ done)) entries i f h k m
table_from-Chars (suc fuel) s n
      (char {c} {l} {l'} {a} e q (
        char {c = c₂} {l = l₂} {a = b} e₂ q₂
          (char {c = c₃} {l = l₃} {l' = l₄} {a = d} {cs} e₃ q₃ r)))
      entries i f h k m =
    elim (ℕ_discrete b.0 b'-') [
      | no other ↦
          one fuel s n c l _ a (b ∷ d ∷ cs) e q (char e₂ q₂ (char e₃ q₃ r))
            (λ entries i. single_advance a b d entries i other)
            (single_split a.0 b.0 d.0 (points cs) other)
            (table_from-Chars fuel s n (char e₂ q₂ (char e₃ q₃ r))) entries i f h k m
      | yes dash ↦
          range fuel s n c c₂ c₃ l l₂ l₃ l₄ a b d cs e q e₂ q₂ e₃ q₃ r dash
            (table_from-Chars fuel s n r) entries i f h k m
    ]
