-- ===== src/Host/Buffers.antt =====
-- Payloads as C strings.
use r_oss_fuzz.Base.{
  ℕ, Bool, true, false, not, ◌&&◌, [], ◌∷◌, ◌++◌, Bytes, length, leb, ltb, ◌≡◌, refl, arith, ◌≤◌,
  ◌<◌, Bool-cases, inl, inr,
}
use r_oss_fuzz.Host.{has_byte, c_string}

-- A selector byte, a payload of a byte or more with no NUL, and no more than fits.
abbrev pub accepts : ℕ → Bytes → Bool
accepts max_size [] = false
accepts max_size (b ∷ p) = leb 1 (length p) && ltb (length p) max_size && not (has_byte 0 p)

pub c_string-fill : (p : Bytes) → has_byte 0 p ≡ false → c_string (p ++ 0 ∷ []) ≡ p
unfolding c_string has_byte
c_string-fill [] h = refl
c_string-fill (b ∷ p) h = ground (arith, c_string-fill p)

pub accepts-bounds :
    (max_size b : ℕ) (p : Bytes)
    → accepts max_size (b ∷ p) ≡ true
    → (has_byte 0 p ≡ false) × (1 ≤ length p) × (length p < max_size)
accepts-bounds max_size b p e = elim (Bool-cases (has_byte 0 p)) [
  | inl nul ↦ absurd (ground arith)
  | inr text ↦ (text, ground arith, ground arith)
]
