-- ===== src/Common/Labels.antt =====
-- The label of a call in harnesses/common.h: the text that a timeout dump prints, made in a buffer of
-- 4096 bytes. `none` stands for a write past its end. The deparsed lines are R's, and a parameter.
pub mod Laws
pub mod Table
use r_oss_fuzz.Base.{
  ℕ, ◌+◌, ◌-◌, ◌%◌, ◌^◌, Bool, true, false, Option, none, some, List, [], ◌∷◌, ◌++◌, Bytes, length,
  codes, leb, ltb, if◌then◌else◌,
}

abbrev pub label_max : ℕ
label_max = 4096

abbrev pub indent : Bytes
indent = codes "    "

abbrev pub ellipsis : Bytes
ellipsis = codes "    ...\n"

-- Write at the end of the text, with a NUL behind it. `text` is what the buffer holds up to the NUL.
abbrev pub write_at_end : Bytes → Bytes → Option Bytes
write_at_end text s = if leb (length text + length s + 1) label_max then some (text ++ s) else none

-- `sizeof "    ...\n"` counts the NUL. The sum is a `size_t`.
unfoldable pub fuzz_label_append_line : Bytes → Bytes → Option (Bool × Bytes)
fuzz_label_append_line text line =
    if leb (label_max - (length ellipsis + 1)) ((length text + 4 + length line + 1) % 2 ^ 64)
    then some (false, text)
    else elim (write_at_end text (indent ++ (line ++ (b'\n' ∷ [])))) [
      | none ↦ none
      | some t ↦ some (true, t)
    ]

-- The loop of `fuzz_do_deparse` over the lines.
unfoldable pub fuzz_do_deparse : Bytes → List Bytes → Option Bytes
unfolding fuzz_label_append_line
fuzz_do_deparse text [] = some text
fuzz_do_deparse text (line ∷ lines) = elim (fuzz_label_append_line text line) [
  | none ↦ none
  | some (true, t) ↦ fuzz_do_deparse t lines
  | some (false, t) ↦ write_at_end t ellipsis
]
