-- ===== src/Tests/Guards.antt =====
-- The guards and scanners at concrete inputs.
use r_oss_fuzz.Common.Labels.{fuzz_do_deparse, label_max}
use r_oss_fuzz.Common.Labels.Laws.{fuzz_do_deparse-Shows, Shows, IsShort}
use r_oss_fuzz.Base.{
  ◌⊎◌, ◌≤◌, codes, ◌<◌, ℕ, ◌+◌, true, some, List, [], ◌∷◌, Bytes, All, length, min, ◌≡◌, ◌↔◌, arith,
  ltb, Bool, inl,
}
use r_oss_fuzz.Eval.Utf8.{eval_valid_utf8}
use r_oss_fuzz.Eval.Utf8.Encoding.{IsByte, IsUtf8, IsScalar, encode_all}
use r_oss_fuzz.Eval.Utf8.Laws.{eval_valid_utf8-IsUtf8}
use r_oss_fuzz.Common.Repeat.{fuzz_repeat_product_excessive, max_product}
use r_oss_fuzz.Common.Repeat.Spec.{Repeats, copies}
use r_oss_fuzz.Common.Repeat.Laws.{fuzz_repeat_product_excessive_total}
use r_oss_fuzz.Targets.Character.Chartr.{fuzz_chartr_table_excessive, max_chartr_table}
use r_oss_fuzz.Targets.Character.Chartr.Spec.{table_entries}
use r_oss_fuzz.Targets.Character.Chartr.Laws.{
  fuzz_chartr_table_excessive_total, fuzz_chartr_table_excessive_lem,
}
use r_oss_fuzz.Targets.Sort.{lines, max_lines}
use r_oss_fuzz.Targets.Lines.{lines-join, join, OneLine}
use r_oss_fuzz.Host.Fields.{newlines}

-- é, as the encoding and as the bytes
abbrev accented : Bytes
accented = 0xc3 ∷ 0xa9 ∷ []

accented-bytes : All IsByte accented
accented-bytes = (omega arith, (omega arith, tt))

eval_valid_utf8-IsUtf8_example :
    (b : Bool) × (eval_valid_utf8 accented ≡ some b) × ((b ≡ true) ↔ IsUtf8 accented)
eval_valid_utf8-IsUtf8_example = eval_valid_utf8-IsUtf8 accented accented-bytes

-- a{2,30}
abbrev pattern_bytes : Bytes
pattern_bytes = b'a' ∷ b'{' ∷ b'3' ∷ b'0' ∷ b'}' ∷ []

fuzz_repeat_product_excessive_total_example :
    (counts : List ℕ) × Repeats pattern_bytes counts
    × (fuzz_repeat_product_excessive pattern_bytes ≡ some (ltb max_product (copies counts)))
fuzz_repeat_product_excessive_total_example = fuzz_repeat_product_excessive_total pattern_bytes

-- a-zé
abbrev letters : List ℕ
letters = b'a' ∷ b'-' ∷ b'z' ∷ 0xe9 ∷ []

letters-IsScalar : All IsScalar letters
letters-IsScalar =
    (inl (omega arith), (inl (omega arith), (inl (omega arith), (inl (omega arith), tt))))

fuzz_chartr_table_excessive_lem_example :
    fuzz_chartr_table_excessive (encode_all letters)
    ≡ some (ltb max_chartr_table (table_entries letters))
fuzz_chartr_table_excessive_lem_example = fuzz_chartr_table_excessive_lem letters letters-IsScalar

fuzz_chartr_table_excessive_total_example :
    (b : Bool) × (fuzz_chartr_table_excessive accented ≡ some b)
fuzz_chartr_table_excessive_total_example = fuzz_chartr_table_excessive_total accented

-- Two lines, the second of them empty.
abbrev two_lines : Bytes
two_lines = b'x' ∷ b'\n' ∷ []

lines-join_example :
    (join (lines two_lines) ≡ two_lines)
    × (length (lines two_lines) ≡ min max_lines (1 + newlines two_lines))
    × ((max_lines ≤ newlines two_lines) ⊎ All OneLine (lines two_lines))
lines-join_example = lines-join two_lines

-- The header of slot 0, with two lines of a call.
abbrev label_header : Bytes
label_header = codes "==fuzz== slot 0 of 2:\n"

abbrev label_lines : List Bytes
label_lines = codes "f(x," ∷ codes "  y)" ∷ []

label_lines-IsShort : All IsShort label_lines
label_lines-IsShort = (omega arith, (omega arith, tt))

fuzz_do_deparse-Shows_example :
    (out : Bytes) × (fuzz_do_deparse label_header label_lines ≡ some out)
    × (length out < label_max)
    × Shows label_header label_lines out
fuzz_do_deparse-Shows_example =
    fuzz_do_deparse-Shows label_header label_lines (omega arith) label_lines-IsShort
