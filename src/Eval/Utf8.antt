-- ===== src/Eval/Utf8.antt =====
-- `eval_valid_utf8` of harnesses/eval.c. `none` stands for a read outside `data[0..size)`, or for
-- fuel that ran out.
pub mod Encoding
pub mod Decode
pub mod Width
pub mod Laws
use r_oss_fuzz.Base.{
  ℕ, zero, suc, ◌+◌, Bool, true, false, not, ◌&&◌, Option, none, some, Bytes, length, get_elem?,
  ltb, leb, ◌==◌, if◌then◌else◌, ◌>>=◌, ◌or_else◌, is_continuation,
}

-- What one round of the `while` does: `continue` at an index, or `return 0`.
pub data Step : Type 0 where
  next : ℕ → Step
  reject : Step

-- `data[i]` under a test.
abbrev pub test : Bytes → ℕ → (ℕ → Bool) → Option Bool
test s i p = do b ← get_elem? s i; some (p b)

abbrev pub verdict : Option Bool → ℕ → Option Step
verdict none i = none
verdict (some true) i = some reject
verdict (some false) i = some (next i)

pub two_bytes : Bytes → ℕ → Option Step
two_bytes s i =
    verdict (some (leb (length s) i) or_else test s i (λ b. not (is_continuation b))) (i + 1)

pub three_bytes : Bytes → ℕ → ℕ → Option Step
three_bytes s c i =
    verdict
      (some (leb (length s) (i + 1))
        or_else test s i (λ b. not (is_continuation b))
        or_else test s (i + 1) (λ b. not (is_continuation b))
        or_else test s i (λ b. c == 0xe0 && ltb b 0xa0)
        or_else test s i (λ b. c == 0xed && leb 0xa0 b))
      (i + 2)

pub four_bytes : Bytes → ℕ → ℕ → Option Step
four_bytes s c i =
    verdict
      (some (leb (length s) (i + 2))
        or_else test s i (λ b. not (is_continuation b))
        or_else test s (i + 1) (λ b. not (is_continuation b))
        or_else test s (i + 2) (λ b. not (is_continuation b))
        or_else test s i (λ b. c == 0xf0 && ltb b 0x90)
        or_else test s i (λ b. c == 0xf4 && leb 0x90 b))
      (i + 3)

-- The body of the loop behind `c = data[i++]`.
pub dispatch : Bytes → ℕ → ℕ → Option Step
dispatch s c i =
    if ltb c 0x80
    then some (next i)
    else if leb 0xc2 c && leb c 0xdf
    then two_bytes s i
    else if leb 0xe0 c && leb c 0xef
    then three_bytes s c i
    else if leb 0xf0 c && leb c 0xf4
    then four_bytes s c i
    else some reject

pub round : Bytes → ℕ → Option Step
unfolding dispatch
round s i = do c ← get_elem? s i; dispatch s c (i + 1)

pub valid_from : Bytes → ℕ → ℕ → Option Bool
valid_from s zero i = none
valid_from s (suc fuel) i = elim (ltb i (length s)) [
  | false ↦ some true
  | true ↦ elim (round s i) [
    | none ↦ none
    | some reject ↦ some false
    | some (next j) ↦ valid_from s fuel j
  ]
]

-- Every round moves on by a byte at least, so `size + 1` rounds are enough.
unfoldable pub eval_valid_utf8 : Bytes → Option Bool
unfolding valid_from round dispatch two_bytes three_bytes four_bytes is_continuation
eval_valid_utf8 s = valid_from s (suc (length s)) 0
