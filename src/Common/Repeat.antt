-- ===== src/Common/Repeat.antt =====
-- `fuzz_repeat_product_excessive` of harnesses/common.h, over the bytes of a C string up to its NUL.
-- `unsigned long` wraps at 2^64. The product is a `double`: `none` stands for one past 2^53, where a
-- `double` no longer holds every integer, and for fuel that ran out.
pub mod Spec
pub mod Scan
pub mod Laws
use r_oss_fuzz.Base.{
  ℕ, zero, suc, ◌+◌, ◌-◌, ◌*◌, ◌%◌, ◌^◌, Bool, true, false, not, ◌&&◌, ◌||◌, Option, none, some, [],
  ◌∷◌, Bytes, ltb, leb, ◌==◌, if◌then◌else◌, ◌>>=◌,
}

abbrev pub max_product : ℕ
max_product = 1000000

abbrev pub saturation : ℕ
saturation = 10000000

-- The variables of the inner loop, with `q` as the bytes from there on.
pub record Braces : Type 0 where
  pub bound : ℕ
  pub cur : ℕ
  pub counted : Bool
  pub q : Bytes

abbrev pub is_digit : ℕ → Bool
is_digit c = leb b'0' c && leb c b'9'

-- `cur = cur * 10 + digit`, saturated.
abbrev pub push_digit : ℕ → ℕ → ℕ
push_digit cur c =
    let n = (cur * 10 + (c - b'0')) % 2 ^ 64 in if ltb saturation n then saturation else n

abbrev pub larger : ℕ → ℕ → ℕ
larger bound cur = if ltb bound cur then cur else bound

-- The inner `for`.
unfoldable pub scan_braces : ℕ → ℕ → Bool → Bytes → Braces
scan_braces bound cur counted [] = record { bound = bound; cur = cur; counted = counted; q = [] }
scan_braces bound cur counted (c ∷ q) = elim (c == b'}') [
  | true ↦ record { bound = bound; cur = cur; counted = counted; q = c ∷ q }
  | false ↦ elim (is_digit c) [
    | true ↦ scan_braces bound (push_digit cur c) true q
    | false ↦ elim (c == b',') [
      | true ↦ scan_braces (larger bound cur) 0 counted q
      | false ↦ record { bound = bound; cur = cur; counted = false; q = c ∷ q }
    ]
  ]
]

-- `*q == '}'`, and the bytes behind it.
abbrev pub closed : Bytes → Option Bytes
closed [] = none
closed (c ∷ q) = if c == b'}' then some q else none

-- `product *= (double)bound` where that is exact.
abbrev pub multiply : ℕ → ℕ → Option ℕ
multiply product bound = if leb (product * bound) (2 ^ 53) then some (product * bound) else none

-- What follows the inner loop: `none` for `continue`, else the bound and where the outer loop goes on.
unfoldable pub repeat_at : Bytes → Option (ℕ × Bytes)
unfolding scan_braces
repeat_at p =
    let r = scan_braces 0 0 false p in
    if r.counted then (do q ← closed r.q; some (larger r.bound r.cur, q)) else none

-- `if (bound > 1) product *= (double)bound;`
unfoldable pub absorb : ℕ → ℕ → Option ℕ
absorb product bound = if ltb 1 bound then multiply product bound else some product

unfoldable pub product_excessive : ℕ → ℕ → Bytes → Option Bool
product_excessive zero product p = none
product_excessive (suc fuel) product [] = some false
product_excessive (suc fuel) product (c ∷ p) = elim (c == b'{') [
  | false ↦ product_excessive fuel product p
  | true ↦ elim (repeat_at p) [
    | none ↦ product_excessive fuel product p
    | some (bound, q) ↦ elim (absorb product bound) [
      | none ↦ none
      | some product' ↦ elim (ltb max_product product') [
        | true ↦ some true
        | false ↦ product_excessive fuel product' q
      ]
    ]
  ]
]

abbrev pub fuel_for : Bytes → ℕ
fuel_for [] = 1
fuel_for (c ∷ p) = suc (fuel_for p)

unfoldable pub fuzz_repeat_product_excessive : Bytes → Option Bool
unfolding product_excessive repeat_at absorb
fuzz_repeat_product_excessive p = product_excessive (fuel_for p) 1 p
