-- ===== src/Common/Repeat/Scan.antt =====
-- The inner loop against the decimal numbers between the braces.
use r_oss_fuzz.Base.{
  ℕ, ◌+◌, ◌-◌, ◌*◌, Bool, true, false, ◌||◌, none, some, [], ◌∷◌, ◌++◌, ◌⊎◌, inl, inr, ◌≢◌, ◌≡◌,
  refl, ap, ◌∙◌, Bytes, All, ◌==◌, min, max, arith, Bool-cases, Option-cases,
}
use r_oss_fuzz.Common.Repeat.{
  saturation, Braces, is_digit, push_digit, larger, scan_braces, closed, repeat_at,
}
use r_oss_fuzz.Common.Repeat.Spec.{IsDigit, IsBodyByte, has_digit, IsBody, largest}

-- A number cut off at the saturation point.
abbrev pub cut : ℕ → ℕ
cut n = min saturation n

push_digit-cut : (n c : ℕ) → IsDigit c → push_digit (cut n) c ≡ cut (10 * n + (c - b'0'))
push_digit-cut n c d = ground arith

-- What the loop finds at a closing brace: counted, at that brace, with the largest number cut off.
record Reads (r : Braces) (digit : Bool) (n : ℕ) (q : Bytes) : Type 0 where
  seen : r.counted ≡ digit
  stops : r.q ≡ q
  value : larger r.bound r.cur ≡ cut n

module _ (bound cur : ℕ) (counted : Bool) (c : ℕ) (q : Bytes) where
  scan_braces-digit :
      IsDigit c
      → scan_braces bound cur counted (c ∷ q) ≡ scan_braces bound (push_digit cur c) true q
  unfolding scan_braces
  scan_braces-digit d = ground arith

  scan_braces-comma :
      c ≡ b',' → scan_braces bound cur counted (c ∷ q) ≡ scan_braces (larger bound cur) 0 counted q
  unfolding scan_braces
  scan_braces-comma e = ground arith

  scan_braces-end :
      c ≡ b'}'
      → scan_braces bound cur counted (c ∷ q)
        ≡ record { bound = bound; cur = cur; counted = counted; q = c ∷ q }
  unfolding scan_braces
  scan_braces-end e = ground arith

  scan_braces-other :
      c ≢ b'}'
      → ¬ IsBodyByte c
      → scan_braces bound cur counted (c ∷ q)
        ≡ record { bound = bound; cur = cur; counted = false; q = c ∷ q }
  unfolding scan_braces
  scan_braces-other e n = ground arith

larger-cut : (m n : ℕ) → larger (cut m) (cut n) ≡ cut (max m n)
larger-cut m n = ground arith

-- Numbers behind a comma only add to the largest.
scan_braces-Reads :
    (body rest : Bytes) (m n : ℕ) (counted : Bool)
    → All IsBodyByte body
    → Reads
        (scan_braces (cut m) (cut n) counted (body ++ (b'}' ∷ rest)))
        (counted || has_digit body)
        (max m (largest n body))
        (b'}' ∷ rest)
scan_braces-Reads [] rest m n counted h =
    rw (scan_braces-end (cut m) (cut n) counted b'}' rest refl)
      (record { seen = ground arith; stops = refl; value = larger-cut m n })
scan_braces-Reads (c ∷ body) rest m n counted (inl d, h) =
    let r = scan_braces-Reads body rest m (10 * n + (c - b'0')) true h in
    rw (scan_braces-digit (cut m) (cut n) counted c (body ++ (b'}' ∷ rest)) d, push_digit-cut n c d)
      (record { seen = ground (arith, r.seen); stops = r.stops; value = ground (arith, r.value) })
scan_braces-Reads (c ∷ body) rest m n counted (inr comma, h) =
    let r = scan_braces-Reads body rest (max m n) 0 counted h in
    rw (scan_braces-comma (cut m) (cut n) counted c (body ++ (b'}' ∷ rest)) comma, larger-cut m n)
      (record { seen = ground (arith, r.seen); stops = r.stops; value = ground (arith, r.value) })

pub repeat_at-IsBody :
    (body rest : Bytes)
    → IsBody body
    → repeat_at (body ++ (b'}' ∷ rest)) ≡ some (cut (largest 0 body), rest)
unfolding repeat_at
repeat_at-IsBody body rest (h, d) =
    let r = scan_braces-Reads body rest 0 0 false h in ground (arith, r.seen, r.stops, r.value)

-- The loop stops behind bytes that all may stand in a counted repeat.
record Split (counted : Bool) (l : Bytes) (r : Braces) : Type 0 where
  body : Bytes
  all : All IsBodyByte body
  parts : l ≡ body ++ r.q
  digit : r.counted ≡ true → (counted || has_digit body) ≡ true

Split-here :
    (counted flag : Bool) (bound cur : ℕ) (l : Bytes)
    → (flag ≡ true → counted ≡ true)
    → Split counted l (record { bound = bound; cur = cur; counted = flag; q = l })
Split-here counted flag bound cur l h = record {
  body = [];
  all = tt;
  parts = refl;
  digit = λ e. ground (arith, h e);
}

Split-cons :
    (counted before : Bool) (c : ℕ) (l : Bytes) (r : Braces)
    → IsBodyByte c
    → (before ≡ true → (counted || has_digit (c ∷ [])) ≡ true)
    → Split before l r
    → Split counted (c ∷ l) r
Split-cons counted before c l r b h s = record {
  body = c ∷ s.body;
  all = (b, s.all);
  parts = ap (λ x. c ∷ x) s.parts;
  digit = λ e. ground (arith, s.digit e, h);
}

IsBodyByte-cases : (c : ℕ) → IsDigit c ⊎ (c ≡ b',') ⊎ (¬ IsBodyByte c)
IsBodyByte-cases c = elim (Bool-cases (is_digit c)) [
  | inl d ↦ inl (ground arith)
  | inr n ↦ elim (Bool-cases (c == b',')) [
    | inl comma ↦ inr (inl (ground arith))
    | inr other ↦ inr (inr (λ b. ground arith))
  ]
]

scan_braces-Split :
    (bound cur : ℕ) (counted : Bool) (l : Bytes) → Split counted l (scan_braces bound cur counted l)
scan_braces-Split bound cur counted [] =
    unfold scan_braces in Split-here counted counted bound cur [] (λ e. e)
scan_braces-Split bound cur counted (c ∷ l) = elim (Bool-cases (c == b'}')) [
  | inl close ↦
      rw (scan_braces-end bound cur counted c l (ground arith))
        (Split-here counted counted bound cur (c ∷ l) (λ e. e))
  | inr more ↦ elim (IsBodyByte-cases c) [
    | inl d ↦ rw (scan_braces-digit bound cur counted c l d) (
        Split-cons counted true c l _ (inl d) (λ e. ground arith)
          (scan_braces-Split bound (push_digit cur c) true l))
    | inr (inl comma) ↦ rw (scan_braces-comma bound cur counted c l comma) (
        Split-cons counted counted c l _ (inr comma) (λ e. ground arith)
          (scan_braces-Split (larger bound cur) 0 counted l))
    | inr (inr other) ↦
        rw (scan_braces-other bound cur counted c l (ground arith) other)
          (Split-here counted false bound cur (c ∷ l) (λ e. cc))
  ]
]

closed-eq-some : (q rest : Bytes) → closed q ≡ some rest → q ≡ b'}' ∷ rest
closed-eq-some [] rest e = cc
closed-eq-some (c ∷ q) rest e = ground arith

repeat_at-eq :
    (p : Bytes) (bound : ℕ) (q : Bytes)
    → repeat_at p ≡ some (bound, q)
    → ((scan_braces 0 0 false p).counted ≡ true) × (closed (scan_braces 0 0 false p).q ≡ some q)
unfolding repeat_at
repeat_at-eq p bound q e = ground arith

repeat_at-inv :
    (p : Bytes) (bound : ℕ) (q : Bytes)
    → repeat_at p ≡ some (bound, q)
    → (body : Bytes) × IsBody body × (p ≡ body ++ (b'}' ∷ q))
repeat_at-inv p bound q e =
    let r = scan_braces 0 0 false p in
    let s = scan_braces-Split 0 0 false p in
    let f = repeat_at-eq p bound q e in
    (s.body, (s.all, s.digit f.0), s.parts ∙ ap (λ x. s.body ++ x) (closed-eq-some r.q q f.1))

-- Behind a brace the code sees a counted repeat exactly where there is one, with its largest count
-- cut off.
pub repeat_at-cases :
    (p : Bytes)
    → ((repeat_at p ≡ none) × ((body rest : Bytes) → IsBody body → p ≢ (body ++ (b'}' ∷ rest))))
      ⊎ ((body : Bytes) × (rest : Bytes) × IsBody body
          × (p ≡ body ++ (b'}' ∷ rest))
          × (repeat_at p ≡ some (cut (largest 0 body), rest)))
repeat_at-cases p = elim (Option-cases (repeat_at p)) [
  | inl stop ↦ inl (stop, λ body rest h e. cc (stop, ap repeat_at e, repeat_at-IsBody body rest h))
  | inr ((bound, q), found) ↦
      let (body, h, e) = repeat_at-inv p bound q found in
      inr (body, q, h, e, ap repeat_at e ∙ repeat_at-IsBody body q h)
]
