-- ===== src/Targets/Character/Chartr.antt =====
-- `fuzz_chartr_table_excessive` of harnesses/character.c. A specification is its bytes up to the NUL,
-- and `buffer` is those with the NUL behind them. `none` stands for a read outside of the buffer or of
-- the arrays `cps` and `lens`, or for fuel that ran out. `entries` is a `double` that counts by whole
-- numbers below 2^53, and so exact.
pub mod Spec
pub mod Front
pub mod Chars
pub mod Rounds
pub mod Laws
use r_oss_fuzz.Base.{
  ℕ, zero, suc, ◌+◌, ◌-◌, ◌*◌, ◌%◌, ◌^◌, Bool, true, false, Option, none, some, List, [], ◌∷◌, ◌++◌,
  Bytes, length, get_elem?, ltb, leb, ◌==◌, if◌then◌else◌, ◌>>=◌, is_continuation,
}

abbrev pub max_chartr_table : ℕ
max_chartr_table = 2000000

abbrev pub length_of : ℕ → ℕ
length_of c = if ltb c 0x80 then 1 else if ltb c 0xe0 then 2 else if ltb c 0xf0 then 3 else 4

-- `len == 1 ? c : c & (0x7f >> len)`
abbrev pub lead_bits : ℕ → ℕ
lead_bits c =
    if ltb c 0x80 then c else if ltb c 0xe0 then c % 32 else if ltb c 0xf0 then c % 16 else c % 8

-- The loop of `fuzz_decode_utf8`, with the bytes that are left to read: the code point and the length.
-- `(v << 6) | (b & 0x3f)` is `v * 64 + b % 64`.
unfoldable pub decode_tail : Bytes → ℕ → ℕ → ℕ → ℕ → ℕ → Option (ℕ × ℕ)
decode_tail s c len i v zero = some (v, len)
decode_tail s c len i v (suc m) = elim (get_elem? s i) [
  | none ↦ none
  | some b ↦ elim (is_continuation b) [
    | true ↦ decode_tail s c len (i + 1) (v * 64 + b % 64) m
    | false ↦ some (c, 1)
  ]
]

unfoldable pub fuzz_decode_utf8 : Bytes → ℕ → Option (ℕ × ℕ)
unfolding decode_tail
fuzz_decode_utf8 s i = do
  c ← get_elem? s i
  decode_tail s c (length_of c) (i + 1) (lead_bits c) (length_of c - 1)

-- The inner loop: up to `m` characters from index `j` on, of `n` bytes.
unfoldable pub decode_some : Bytes → ℕ → ℕ → ℕ → Option (List (ℕ × ℕ))
decode_some s n j zero = some []
decode_some s n j (suc m) = elim (ltb j n) [
  | false ↦ some []
  | true ↦ elim (fuzz_decode_utf8 s j) [
    | none ↦ none
    | some (cp, len) ↦ elim (decode_some s n (j + len) m) [
      | none ↦ none
      | some r ↦ some ((cp, len) ∷ r)
    ]
  ]
]

-- What a range adds: `(double)(cps[2] - cps[0]) + 1.0` if it does not run backwards.
abbrev pub range_entries : ℕ → ℕ → ℕ
range_entries x y = if leb x y then y - x + 1 else 0

-- How one round of the outer loop moves `entries` and `i`. An empty list leaves `lens[0]` unset.
abbrev pub advance : List (ℕ × ℕ) → ℕ → ℕ → Option (ℕ × ℕ)
advance [] entries i = none
advance (a ∷ []) entries i = some (entries + 1, i + a.1)
advance (a ∷ b ∷ []) entries i = some (entries + 1, i + a.1)
advance (a ∷ b ∷ d ∷ r) entries i =
    if b.0 == b'-'
    then some (entries + range_entries a.0 d.0, i + (a.1 + b.1 + d.1))
    else some (entries + 1, i + a.1)

unfoldable pub table_from : ℕ → Bytes → ℕ → ℕ → ℕ → Option Bool
table_from zero s n entries i = none
table_from (suc fuel) s n entries i = elim (ltb i n) [
  | false ↦ some false
  | true ↦ elim (decode_some s n i 3) [
    | none ↦ none
    | some r ↦ elim (advance r entries i) [
      | none ↦ none
      | some (entries', i') ↦ elim (ltb max_chartr_table entries') [
        | true ↦ some true
        | false ↦ table_from fuel s n entries' i'
      ]
    ]
  ]
]

-- Each round moves on by a byte at least.
unfoldable pub fuzz_chartr_table_excessive : Bytes → Option Bool
unfolding table_from decode_some fuzz_decode_utf8
fuzz_chartr_table_excessive spec = table_from (suc (length spec)) (spec ++ 0 ∷ []) (length spec) 0 0
