-- ===== src/Common/Repeat/Laws.antt =====
-- The guard's verdict is the comparison that its comment promises, for every pattern.
use r_oss_fuzz.Base.{
  ℕ, zero, suc, ◌*◌, ◌≤◌, ◌<◌, Bool, true, false, Option, none, some, List, [], ◌∷◌, ◌++◌, inl, inr,
  ◌≢◌, ◌≡◌, refl, ap, ◌∙◌, Bytes, length, length-append, ltb, lt→ltb, max, if◌then◌else◌, arith,
  dec_lt, ℕ_discrete,
}
use native.Mathlib.Nat.{mul-le-mul, mul_assoc, le-mul_of_pos_right}
use r_oss_fuzz.Common.Repeat.{
  max_product, saturation, repeat_at, absorb, product_excessive, fuel_for,
  fuzz_repeat_product_excessive,
}
use r_oss_fuzz.Common.Repeat.Spec.{IsBody, largest, Repeats, done, plain, loose, counted, copies}
use r_oss_fuzz.Common.Repeat.Scan.{cut, repeat_at-IsBody, repeat_at-cases}

product_bound :
    (product b : ℕ) → product ≤ max_product → b ≤ saturation → product * b ≤ 10000000000000
product_bound product b h k = mul-le-mul h k

absorb_lem :
    (product b : ℕ)
    → product ≤ max_product
    → b ≤ saturation
    → absorb product b ≡ some (product * max 1 b)
unfolding absorb
absorb_lem product b h k = ground (arith, product_bound product b h k)

module _ (fuel product : ℕ) where
  product_excessive-plain :
      (c : ℕ) (p : Bytes)
      → c ≢ b'{'
      → product_excessive (suc fuel) product (c ∷ p) ≡ product_excessive fuel product p
  unfolding product_excessive
  product_excessive-plain c p h = ground arith

  product_excessive-loose :
      (p : Bytes)
      → repeat_at p ≡ none
      → product_excessive (suc fuel) product (b'{' ∷ p) ≡ product_excessive fuel product p
  unfolding product_excessive
  product_excessive-loose p h = ground arith

  -- Within the budget so far, a multiplication is exact.
  product_excessive-counted :
      (p : Bytes) (n : ℕ) (q : Bytes)
      → product ≤ max_product
      → repeat_at p ≡ some (cut n, q)
      → product_excessive (suc fuel) product (b'{' ∷ p) ≡ (
          if ltb max_product (product * max 1 (cut n))
          then some true
          else product_excessive fuel (product * max 1 (cut n)) q)
  unfolding product_excessive
  product_excessive-counted p n q small h = ground (arith, absorb_lem product (cut n) small)

copies-pos : (counts : List ℕ) → 1 ≤ copies counts
copies-pos [] = omega arith
copies-pos (n ∷ counts) = grind (arith, copies-pos counts)

verdict_step :
    (x m : ℕ)
    → 1 ≤ m
    → (if ltb max_product x then some true else some (ltb max_product (x * m)))
      ≡ some (ltb max_product (x * m))
verdict_step x m h = ground (arith, le-mul_of_pos_right x h)

large_count : (x k : ℕ) → 1 ≤ x → saturation ≤ k → ltb max_product (x * k) ≡ true
large_count x k h l = lt→ltb _ _ (omega (arith, mul-le-mul h l))

-- Cutting off a count never changes the verdict: a count past the cut is over the budget alone.
verdict_eq :
    (product n m : ℕ)
    → 1 ≤ m
    → 1 ≤ product
    → (if ltb max_product (product * max 1 (cut n))
        then some true
        else some (ltb max_product (product * max 1 (cut n) * m)))
      ≡ some (ltb max_product (product * (max 1 n * m)))
verdict_eq product n m h k = elim (dec_lt saturation n) [
  | yes large ↦ rw (
    large_count product (max 1 (cut n)) k (omega arith),
    large_count product (max 1 n * m) k (omega (arith, mul-le-mul (max_above n large) h)),
  )
  | no small ↦
      rw (cut_small n (omega arith), ← mul_assoc product (max 1 n) m)
        (verdict_step (product * max 1 n) m h)
]
  where
    max_above : (a : ℕ) → saturation < a → saturation ≤ max 1 a
    max_above a l = omega arith

    cut_small : (a : ℕ) → a ≤ saturation → cut a ≡ a
    cut_small a l = omega arith

repeat_at-loose :
    (p : Bytes)
    → ((body rest : Bytes) → IsBody body → p ≢ (body ++ (b'}' ∷ rest)))
    → repeat_at p ≡ none
repeat_at-loose p h = elim (repeat_at-cases p) [
  | inl (e, other) ↦ e
  | inr (body, rest, b, e, found) ↦ absurd (h body rest b e)
]

rest_shorter : (p body rest : Bytes) → p ≡ body ++ (b'}' ∷ rest) → length rest < length p
rest_shorter p body rest e = omega (arith, ap length e, length-append body (b'}' ∷ rest))

product_excessive-done :
    (fuel product : ℕ)
    → product ≤ max_product
    → product_excessive (suc fuel) product [] ≡ some (ltb max_product (product * 1))
unfolding product_excessive
product_excessive-done fuel product m = ground arith

else_branch :
    (b : Bool) {x y : Option Bool}
    → (b ≡ false → x ≡ y)
    → (if b then some true else x) ≡ (if b then some true else y)
else_branch true h = refl
else_branch false h = h refl

not_larger : (x : ℕ) → ltb max_product x ≡ false → x ≤ max_product
not_larger x h = ground arith

product_excessive_lem :
    (fuel product : ℕ) {p : Bytes} {counts : List ℕ}
    → Repeats p counts
    → length p < fuel
    → 1 ≤ product
    → product ≤ max_product
    → product_excessive fuel product p ≡ some (ltb max_product (product * copies counts))
product_excessive_lem zero product r h k m = absurd (omega arith)
product_excessive_lem (suc fuel) product done h k m = product_excessive-done fuel product m
product_excessive_lem (suc fuel) product (plain {c} {p} ne r) h k m =
    product_excessive-plain fuel product c p ne
    ∙ product_excessive_lem fuel product r (omega arith) k m
product_excessive_lem (suc fuel) product (loose {p} ne r) h k m =
    product_excessive-loose fuel product p (repeat_at-loose p ne)
    ∙ product_excessive_lem fuel product r (omega arith) k m
product_excessive_lem (suc fuel) product (counted {p} {rest} {counts} body b e r) h k m =
    product_excessive-counted fuel product p (largest 0 body) rest m
      (ap repeat_at e ∙ repeat_at-IsBody body rest b)
    ∙ else_branch (ltb max_product grown) (λ small.
      product_excessive_lem fuel grown r (omega (arith, rest_shorter p body rest e))
        (mul-le-mul k (max_pos (largest 0 body))) (not_larger grown small))
    ∙ verdict_eq product (largest 0 body) (copies counts) (copies-pos counts) k
  where
    grown : ℕ
    grown = product * max 1 (cut (largest 0 body))

    max_pos : (n : ℕ) → 1 ≤ max 1 (cut n)
    max_pos n = omega arith

fuel_for-length : (p : Bytes) → length p < fuel_for p
fuel_for-length [] = omega arith
fuel_for-length (c ∷ p) = omega (arith, fuel_for-length p)

-- The guard refuses a pattern exactly when the product of the largest counts of its counted repeats
-- is over the budget. It always returns, and neither the saturation, nor the wrap of `cur`, nor the
-- rounding of `product`, nor the early return changes the verdict.
pub fuzz_repeat_product_excessive_lem :
    (p : Bytes) (counts : List ℕ)
    → Repeats p counts
    → fuzz_repeat_product_excessive p ≡ some (ltb max_product (copies counts))
unfolding fuzz_repeat_product_excessive
fuzz_repeat_product_excessive_lem p counts r =
    product_excessive_lem (fuel_for p) 1 r (fuel_for-length p) (omega arith) (omega arith)
    ∙ ap (λ n. some (ltb max_product n)) (one_mul (copies counts))
  where
    one_mul : (n : ℕ) → 1 * n ≡ n
    one_mul n = omega arith

Repeats-below : (n : ℕ) (p : Bytes) → length p < n → (counts : List ℕ) × Repeats p counts
Repeats-below zero p h = absurd (omega arith)
Repeats-below (suc n) [] h = ([], done)
Repeats-below (suc n) (c ∷ p) h = elim (ℕ_discrete c b'{') [
  | no ne ↦ let (counts, r) = Repeats-below n p (omega arith) in (counts, plain ne r)
  | yes brace ↦ elim (repeat_at-cases p) [
    | inl (e, ne) ↦
        let (counts, r) = Repeats-below n p (omega arith) in (counts, rw brace (loose ne r))
    | inr (body, rest, b, e, found) ↦
        let (counts, r) = Repeats-below n rest (omega (arith, rest_shorter p body rest e)) in
        (largest 0 body ∷ counts, rw brace (counted body b e r))
  ]
]

-- Every pattern has a list of counted repeats, and the guard answers on it by their product.
pub fuzz_repeat_product_excessive_total :
    (p : Bytes)
    → (counts : List ℕ) × Repeats p counts
      × (fuzz_repeat_product_excessive p ≡ some (ltb max_product (copies counts)))
fuzz_repeat_product_excessive_total p =
    let (counts, r) = Repeats-below (suc (length p)) p (omega arith) in
    (counts, r, fuzz_repeat_product_excessive_lem p counts r)
