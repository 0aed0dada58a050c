-- ===== src/Eval/Utf8/Width.antt =====
-- The width of a sequence and the encoding of scalar values fit each other.
use r_oss_fuzz.Base.{
  true, ◌/◌, ◌%◌, ◌≤◌, ◌⊎◌, ◌≢◌, leb, ◌&&◌, Bool-cases, ltb→lt, ℕ, ◌+◌, ◌-◌, ◌*◌, ◌<◌, some, [],
  ◌∷◌, ◌++◌, Bytes, length, drop, All, ltb, ◌≡◌, arith, is_continuation, is_continuation_range, inl,
  inr,
}
use r_oss_fuzz.Eval.Utf8.Encoding.{IsScalar, encode, IsByte}
use r_oss_fuzz.Eval.Utf8.Decode.{width, two_width, three_width, four_width}

tail_is_continuation : (n : ℕ) → n < 64 → is_continuation (0x80 + n) ≡ true
tail_is_continuation n h = ground (arith, is_continuation_range (0x80 + n))

pub width-encode :
    (c : ℕ) (l : Bytes) → IsScalar c → width (encode c ++ l) ≡ some (length (encode c))
unfolding width
width-encode c l h = ground (
  arith,
  tail_is_continuation (c % 64),
  tail_is_continuation (c / 64 % 64),
  tail_is_continuation (c / 4096 % 64),
)

-- What the first bytes of a well-formed text encode.
abbrev Begins : Bytes → ℕ → ℕ → Type 0
Begins l n c = IsScalar c × (l ≡ encode c ++ drop n l) × (length (encode c) ≡ n)

-- The two halves of what a continuation test says of a byte.
continuation_bounds : (b : ℕ) → b < 256 → is_continuation b ≡ true → (0x80 ≤ b) × (b < 0xc0)
continuation_bounds b h e = ground (arith, is_continuation_range b)

abbrev two_value : ℕ → ℕ → ℕ
two_value c a = (c - 0xc0) * 64 + (a - 0x80)

abbrev three_value : ℕ → ℕ → ℕ → ℕ
three_value c a b = (c - 0xe0) * 4096 + (a - 0x80) * 64 + (b - 0x80)

abbrev four_value : ℕ → ℕ → ℕ → ℕ → ℕ
four_value c a b d = (c - 0xf0) * 262144 + (a - 0x80) * 4096 + (b - 0x80) * 64 + (d - 0x80)

decode_two :
    (c a : ℕ) (l : Bytes)
    → 0xc2 ≤ c
    → c ≤ 0xdf
    → (0x80 ≤ a) × (a < 0xc0)
    → Begins (c ∷ a ∷ l) 2 (two_value c a)
decode_two c a l lo hi ha = (inl (omega arith), ground arith, ground arith)

decode_three :
    (c a b : ℕ) (l : Bytes)
    → 0xe0 ≤ c
    → c ≤ 0xef
    → (0x80 ≤ a) × (a < 0xc0)
    → (0x80 ≤ b) × (b < 0xc0)
    → (0xe0 < c) ⊎ (0xa0 ≤ a)
    → (c ≢ 0xed) ⊎ (a < 0xa0)
    → Begins (c ∷ a ∷ b ∷ l) 3 (three_value c a b)
decode_three c a b l lo hi ha hb low surrogate = (omega arith, ground arith, ground arith)

decode_four :
    (c a b d : ℕ) (l : Bytes)
    → 0xf0 ≤ c
    → c ≤ 0xf4
    → (0x80 ≤ a) × (a < 0xc0)
    → (0x80 ≤ b) × (b < 0xc0)
    → (0x80 ≤ d) × (d < 0xc0)
    → (0xf0 < c) ⊎ (0x90 ≤ a)
    → (c < 0xf4) ⊎ (a < 0x90)
    → Begins (c ∷ a ∷ b ∷ d ∷ l) 4 (four_value c a b d)
decode_four c a b d l lo hi ha hb hd low high = (inr (omega arith), ground arith, ground arith)

abbrev pub Found : Bytes → ℕ → Type 0
Found l n = (c : ℕ) × Begins l n c

one-Found : (c : ℕ) (l : Bytes) {n : ℕ} → c < 0x80 → some 1 ≡ some n → Found (c ∷ l) n
one-Found c l {n} h e =
    let m : n ≡ 1 = ground arith in (c, rw m (inl (omega arith), ground arith, ground arith))

two-Found :
    (c : ℕ) (l : Bytes) {n : ℕ}
    → All IsByte l
    → 0xc2 ≤ c
    → c ≤ 0xdf
    → two_width l ≡ some n
    → Found (c ∷ l) n
unfolding two_width
two-Found c [] h lo hi e = cc
two-Found c (a ∷ l) {n} h lo hi e =
    let f : (n ≡ 2) × (is_continuation a ≡ true) = ground arith in
    (two_value c a, rw f.0 (decode_two c a l lo hi (continuation_bounds a h.0 f.1)))

three-Found :
    (c : ℕ) (l : Bytes) {n : ℕ}
    → All IsByte l
    → 0xe0 ≤ c
    → c ≤ 0xef
    → three_width c l ≡ some n
    → Found (c ∷ l) n
unfolding three_width
three-Found c [] h lo hi e = cc
three-Found c (a ∷ []) h lo hi e = cc
three-Found c (a ∷ b ∷ l) {n} h lo hi e =
    let f : (n ≡ 3)
        × (is_continuation a ≡ true)
        × (is_continuation b ≡ true)
        × ((0xe0 < c) ⊎ (0xa0 ≤ a))
        × ((c ≢ 0xed) ⊎ (a < 0xa0)) =
      ground arith in
    (
      three_value c a b,
      rw f.0 (
          decode_three c a b l lo hi (continuation_bounds a h.0 f.1)
            (continuation_bounds b h.1.0 f.2) f.3 f.4),
    )

four-Found :
    (c : ℕ) (l : Bytes) {n : ℕ}
    → All IsByte l
    → 0xf0 ≤ c
    → c ≤ 0xf4
    → four_width c l ≡ some n
    → Found (c ∷ l) n
unfolding four_width
four-Found c [] h lo hi e = cc
four-Found c (a ∷ []) h lo hi e = cc
four-Found c (a ∷ b ∷ []) h lo hi e = cc
four-Found c (a ∷ b ∷ d ∷ l) {n} h lo hi e =
    let f : (n ≡ 4)
        × (is_continuation a ≡ true)
        × (is_continuation b ≡ true)
        × (is_continuation d ≡ true)
        × ((0xf0 < c) ⊎ (0x90 ≤ a))
        × ((c < 0xf4) ⊎ (a < 0x90)) =
      ground arith in
    (
      four_value c a b d,
      rw f.0 (
          decode_four c a b d l lo hi (continuation_bounds a h.0 f.1)
            (continuation_bounds b h.1.0 f.2) (continuation_bounds d h.1.1.0 f.3) f.4 f.5),
    )

pub width-decode : (l : Bytes) {n : ℕ} → All IsByte l → width l ≡ some n → Found l n
unfolding width
width-decode [] h e = cc
width-decode (c ∷ l) h e = elim (Bool-cases (ltb c 0x80)) [
  | inl ascii ↦ one-Found c l (ltb→lt _ _ ascii) (rw ascii at e)
  | inr more ↦ elim (Bool-cases (leb 0xc2 c && leb c 0xdf)) [
    | inl two ↦ two-Found c l h.1 (ground arith) (ground arith) (rw (more, two) at e)
    | inr beyond ↦ elim (Bool-cases (leb 0xe0 c && leb c 0xef)) [
      | inl three ↦
          three-Found c l h.1 (ground arith) (ground arith) (rw (more, beyond, three) at e)
      | inr far ↦ elim (Bool-cases (leb 0xf0 c && leb c 0xf4)) [
        | inl four ↦
            four-Found c l h.1 (ground arith) (ground arith) (rw (more, beyond, far, four) at e)
        | inr bad ↦ cc (rw (more, beyond, far, bad) at e)
      ]
    ]
  ]
]
