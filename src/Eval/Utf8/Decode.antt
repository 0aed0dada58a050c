-- ===== src/Eval/Utf8/Decode.antt =====
-- One round of `eval_valid_utf8` against the bytes that are left: it reads within the input, and it
-- goes on exactly when these begin with the encoding of a scalar value.
use r_oss_fuzz.Base.{
  ℕ, ◌+◌, not, ◌&&◌, Option, none, some, [], ◌∷◌, Bytes, ltb, leb, ◌==◌, if◌then◌else◌, Suffix, ◌≡◌,
  arith, is_continuation,
}
use r_oss_fuzz.Eval.Utf8.{Step, next, reject, two_bytes, three_bytes, four_bytes, dispatch, round}

unfoldable pub two_width : Bytes → Option ℕ
two_width [] = none
two_width (b ∷ l) = if is_continuation b then some 2 else none

unfoldable pub three_width : ℕ → Bytes → Option ℕ
three_width c (a ∷ b ∷ l) =
    if is_continuation a
      && is_continuation b
      && not (c == 0xe0 && ltb a 0xa0)
      && not (c == 0xed && leb 0xa0 a)
    then some 3
    else none
three_width c _ = none

unfoldable pub four_width : ℕ → Bytes → Option ℕ
four_width c (a ∷ b ∷ d ∷ l) =
    if is_continuation a
      && is_continuation b
      && is_continuation d
      && not (c == 0xf0 && ltb a 0x90)
      && not (c == 0xf4 && leb 0x90 a)
    then some 4
    else none
four_width c _ = none

-- How many bytes the sequence takes that a text begins with.
unfoldable pub width : Bytes → Option ℕ
unfolding two_width three_width four_width
width [] = none
width (c ∷ l) =
    if ltb c 0x80
    then some 1
    else if leb 0xc2 c && leb c 0xdf
    then two_width l
    else if leb 0xe0 c && leb c 0xef
    then three_width c l
    else if leb 0xf0 c && leb c 0xf4
    then four_width c l
    else none

abbrev pub step_of : ℕ → Option ℕ → Option Step
step_of i none = some reject
step_of i (some n) = some (next (i + n))

module _ (s : Bytes) (i c : ℕ) where
  two_bytes-width : (l : Bytes) → Suffix s i (c ∷ l) → two_bytes s (i + 1) ≡ step_of i (two_width l)
  unfolding two_bytes two_width
  two_bytes-width [] f = ground (arith, f.size)
  two_bytes-width (a ∷ l) f = ground (arith, f.size, f.at 1)

  three_bytes-width :
      (l : Bytes) → Suffix s i (c ∷ l) → three_bytes s c (i + 1) ≡ step_of i (three_width c l)
  unfolding three_bytes three_width
  three_bytes-width [] f = ground (arith, f.size)
  three_bytes-width (a ∷ []) f = ground (arith, f.size)
  three_bytes-width (a ∷ b ∷ l) f = ground (arith, f.size, f.at 1, f.at 2)

  four_bytes-width :
      (l : Bytes) → Suffix s i (c ∷ l) → four_bytes s c (i + 1) ≡ step_of i (four_width c l)
  unfolding four_bytes four_width
  four_bytes-width [] f = ground (arith, f.size)
  four_bytes-width (a ∷ []) f = ground (arith, f.size)
  four_bytes-width (a ∷ b ∷ []) f = ground (arith, f.size)
  four_bytes-width (a ∷ b ∷ d ∷ l) f = ground (arith, f.size, f.at 1, f.at 2, f.at 3)

  dispatch-width :
      (l : Bytes) → Suffix s i (c ∷ l) → dispatch s c (i + 1) ≡ step_of i (width (c ∷ l))
  unfolding dispatch width
  dispatch-width l f =
      ground (arith, two_bytes-width l f, three_bytes-width l f, four_bytes-width l f)

pub round-width :
    (s : Bytes) (i c : ℕ) (l : Bytes) → Suffix s i (c ∷ l) → round s i ≡ step_of i (width (c ∷ l))
unfolding round
round-width s i c l f = ground (arith, f.at 0, dispatch-width s i c l f)
