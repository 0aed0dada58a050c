-- ===== src/Eval/Utf8/Encoding.antt =====
-- UTF-8 as the Unicode standard defines it: the bytes of a scalar value, and of a text.
use r_oss_fuzz.Base.{
  ℕ, ◌+◌, ◌/◌, ◌%◌, ◌≤◌, ◌<◌, ◌⊎◌, List, [], ◌∷◌, ◌++◌, Bytes, All, ◌≡◌, ltb, if◌then◌else◌,
}

-- A code point that is no surrogate.
abbrev pub IsScalar : ℕ → Type 0
IsScalar c = (c < 0xd800) ⊎ ((0xe000 ≤ c) × (c < 0x110000))

abbrev pub encode : ℕ → Bytes
encode c =
    if ltb c 0x80
    then c ∷ []
    else if ltb c 0x800
    then (0xc0 + c / 64) ∷ (0x80 + c % 64) ∷ []
    else if ltb c 0x10000
    then (0xe0 + c / 4096) ∷ (0x80 + c / 64 % 64) ∷ (0x80 + c % 64) ∷ []
    else (0xf0 + c / 262144) ∷ (0x80 + c / 4096 % 64) ∷ (0x80 + c / 64 % 64) ∷ (0x80 + c % 64) ∷ []

unfoldable pub encode_all : List ℕ → Bytes
encode_all [] = []
encode_all (c ∷ cs) = encode c ++ encode_all cs

-- Some sequence of scalar values has these bytes.
abbrev pub IsUtf8 : Bytes → Type 0
IsUtf8 s = (cs : List ℕ) × All IsScalar cs × (s ≡ encode_all cs)

abbrev pub IsByte : ℕ → Type 0
IsByte b = b < 256
