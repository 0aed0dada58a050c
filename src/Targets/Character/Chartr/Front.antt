-- ===== src/Targets/Character/Chartr/Front.antt =====
-- The lenient decoder against the bytes that are left.
use r_oss_fuzz.Base.{
  ℕ, zero, suc, ◌+◌, ◌-◌, ◌*◌, ◌%◌, ◌/◌, ◌≤◌, ◌<◌, true, false, some, [], ◌∷◌, ◌++◌, Bytes, length,
  get_elem?, Suffix, if◌then◌else◌, is_continuation, is_continuation_range, ◌≡◌, refl, ap, ◌∙◌,
  arith,
}
use r_oss_fuzz.Targets.Character.Chartr.{length_of, lead_bits, decode_tail, fuzz_decode_utf8}
use r_oss_fuzz.Eval.Utf8.Encoding.{IsScalar, encode}

-- The tail of a sequence, read off the bytes before the NUL.
unfoldable pub tail_value : ℕ → ℕ → ℕ → ℕ → Bytes → ℕ × ℕ
tail_value c len v zero l = (v, len)
tail_value c len v (suc m) [] = (c, 1)
tail_value c len v (suc m) (b ∷ l) =
    let more = tail_value c len (v * 64 + b % 64) m l in if is_continuation b then more else (c, 1)

unfoldable pub front : ℕ → Bytes → ℕ × ℕ
unfolding tail_value
front c l = tail_value c (length_of c) (lead_bits c) (length_of c - 1) l

zero_ends : is_continuation 0 ≡ false
unfolding is_continuation
zero_ends = refl

-- The NUL is no continuation byte, so no read goes past it.
decode_tail-tail_value :
    (s : Bytes) (c len v m i : ℕ) (l : Bytes)
    → ((k : ℕ) → get_elem? s (i + k) ≡ get_elem? (l ++ 0 ∷ []) k)
    → decode_tail s c len i v m ≡ some (tail_value c len v m l)
unfolding decode_tail tail_value
decode_tail-tail_value s c len v zero i l h = refl
decode_tail-tail_value s c len v (suc m) i [] h = ground (arith, h 0, zero_ends)
decode_tail-tail_value s c len v (suc m) i (b ∷ l) h = ground (
  arith,
  h 0,
  decode_tail-tail_value s c len (v * 64 + b % 64) m (i + 1) l
      (λ k. ap (get_elem? s) (shift k) ∙ h (suc k)),
)
  where
    shift : (k : ℕ) → i + 1 + k ≡ i + suc k
    shift k = omega arith

pub fuzz_decode_utf8-front :
    (s : Bytes) (i c : ℕ) (l : Bytes)
    → Suffix s i (c ∷ (l ++ 0 ∷ []))
    → fuzz_decode_utf8 s i ≡ some (front c l)
unfolding fuzz_decode_utf8 front
fuzz_decode_utf8-front s i c l f = ground (
  arith,
  f.at 0,
  decode_tail-tail_value s c (length_of c) (lead_bits c) (length_of c - 1) (i + 1) l
      (λ k. ap (get_elem? s) (shift k) ∙ f.at (suc k)),
)
  where
    shift : (k : ℕ) → i + 1 + k ≡ i + suc k
    shift k = omega arith

-- A sequence takes a byte at least, and no more than there are.
tail_value_bounds :
    (c len v m : ℕ) (l : Bytes) (n : ℕ)
    → len ≡ suc (n + m)
    → (1 ≤ (tail_value c len v m l).1) × ((tail_value c len v m l).1 ≤ suc (n + length l))
unfolding tail_value
tail_value_bounds c len v zero l n h = omega arith
tail_value_bounds c len v (suc m) [] n h = omega arith
tail_value_bounds c len v (suc m) (b ∷ l) n h =
    ground (arith, tail_value_bounds c len (v * 64 + b % 64) m l (suc n))

pub front_bounds : (c : ℕ) (l : Bytes) → (1 ≤ (front c l).1) × ((front c l).1 ≤ suc (length l))
unfolding front
front_bounds c l =
    omega
      (arith, tail_value_bounds c (length_of c) (lead_bits c) (length_of c - 1) l 0 (ground arith))

tail_continues : (n : ℕ) → n < 64 → is_continuation (0x80 + n) ≡ true
tail_continues n h = ground (arith, is_continuation_range (0x80 + n))

module _ (cp : ℕ) (l : Bytes) where
  front_one : cp < 0x80 → front cp l ≡ (cp, 1)
  unfolding front
  front_one h = ground arith

  front_two : 0x80 ≤ cp → cp < 0x800 → front (0xc0 + cp / 64) ((0x80 + cp % 64) ∷ l) ≡ (cp, 2)
  unfolding front
  front_two lo hi = ground (arith, tail_continues (cp % 64))

  front_three :
      0x800 ≤ cp
      → cp < 0x10000
      → front (0xe0 + cp / 4096) ((0x80 + cp / 64 % 64) ∷ (0x80 + cp % 64) ∷ l) ≡ (cp, 3)
  unfolding front
  front_three lo hi = ground (arith, tail_continues (cp % 64), tail_continues (cp / 64 % 64))

  front_four :
      0x10000 ≤ cp
      → cp < 0x110000
      → front
          (0xf0 + cp / 262144)
          ((0x80 + cp / 4096 % 64) ∷ (0x80 + cp / 64 % 64) ∷ (0x80 + cp % 64) ∷ l)
        ≡ (cp, 4)
  unfolding front
  front_four lo hi = ground (
    arith,
    tail_continues (cp % 64),
    tail_continues (cp / 64 % 64),
    tail_continues (cp / 4096 % 64),
  )

-- The decoder reads back what the encoding of a scalar value wrote.
pub front-encode :
    (cp c : ℕ) (r l : Bytes)
    → IsScalar cp
    → encode cp ≡ c ∷ r
    → front c (r ++ l) ≡ (cp, suc (length r))
front-encode cp c r l h e =
    ground (arith, front_one cp l, front_two cp l, front_three cp l, front_four cp l)
