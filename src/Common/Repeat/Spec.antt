-- ===== src/Common/Repeat/Spec.antt =====
-- The counted repeats of a pattern, and how far they multiply it.
use r_oss_fuzz.Base.{
  ℕ, ◌+◌, ◌-◌, ◌*◌, ◌≤◌, Bool, true, false, List, [], ◌∷◌, ◌++◌, ◌⊎◌, ◌≢◌, ◌≡◌, Bytes, All, ◌==◌,
  max, if◌then◌else◌,
}

abbrev pub IsDigit : ℕ → Type 0
IsDigit c = (b'0' ≤ c) × (c ≤ b'9')

-- What may stand between the braces of a counted repeat.
abbrev pub IsBodyByte : ℕ → Type 0
IsBodyByte c = IsDigit c ⊎ (c ≡ b',')

abbrev pub has_digit : Bytes → Bool
has_digit [] = false
has_digit (c ∷ l) = if c == b',' then has_digit l else true

abbrev pub IsBody : Bytes → Type 0
IsBody body = All IsBodyByte body × (has_digit body ≡ true)

-- The largest of the decimal numbers that commas part, the first of which goes on from `n`.
abbrev pub largest : ℕ → Bytes → ℕ
largest n [] = n
largest n (c ∷ l) = if c == b',' then max n (largest 0 l) else largest (10 * n + (c - b'0')) l

-- The pattern's counted repeats, from the left, each with its largest count. A brace that opens no
-- counted repeat is skipped alone; what a counted repeat holds is skipped with it.
pub data Repeats : Bytes → List ℕ → Type 0 where
  done : Repeats [] []
  plain :
      {c : ℕ} {p : Bytes} {counts : List ℕ} → c ≢ b'{' → Repeats p counts → Repeats (c ∷ p) counts
  loose :
      {p : Bytes} {counts : List ℕ}
      → ((body rest : Bytes) → IsBody body → p ≢ (body ++ (b'}' ∷ rest)))
      → Repeats p counts
      → Repeats (b'{' ∷ p) counts
  counted :
      {p rest : Bytes} {counts : List ℕ} (body : Bytes)
      → IsBody body
      → p ≡ body ++ (b'}' ∷ rest)
      → Repeats rest counts
      → Repeats (b'{' ∷ p) (largest 0 body ∷ counts)

-- How often a pattern under all of these repeats is copied; a count of 0 copies it once.
abbrev pub copies : List ℕ → ℕ
copies [] = 1
copies (n ∷ counts) = max 1 n * copies counts
