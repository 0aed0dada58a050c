-- ===== src/Targets/Grep.antt =====
-- harnesses/grep.c: the PCRE2 engine behind the entry points of grep.c.
use r_oss_fuzz.Base.{
  ℕ, ◌*◌, ◌%◌, ◌||◌, List, [], ◌∷◌, map, Bytes, length, get_elem?, drop, codes, ltb, if◌then◌else◌,
}
use Prim.Native.String.{String}
use r_oss_fuzz.Host.{
  x_str, native, set_string, set_element, eval_silent, Host, M, ◌>>=◌, ◌>>◌, return, finish,
  checked, require, perform_, for_each_slot, has_byte, c_string, fill, slot,
}
use r_oss_fuzz.Host.Boot.{Boot, booted}
use r_oss_fuzz.Host.Call.{Term, Function, vec, fixed, lang, nil, ◌&◌}
use r_oss_fuzz.Common.Repeat.{fuzz_repeat_product_excessive}

abbrev pub max_input : ℕ
max_input = 1024 * 64

abbrev pub n_calls : ℕ
n_calls = 16

abbrev pub sources : List String
sources =
    "function(p, x) grepl(p, x, perl = TRUE)" ∷ "function(p, x) grep(p, x, perl = TRUE)"
    ∷ "function(p, x) sub(p, \"X\", x, perl = TRUE)"
    ∷ "function(p, x) regexpr(p, x, perl = TRUE, useBytes = TRUE)"
    ∷ "function(p, x) gregexpr(p, x, perl = TRUE, ignore.case = TRUE)"
    ∷ "function(p, x) regexec(p, x, perl = TRUE, ignore.case = TRUE)"
    ∷ "function(p, x) gregexpr(p, x, perl = TRUE)" ∷ "function(p, x) regexpr(p, x, fixed = TRUE)"
    ∷ "function(p, x) gsub(p, \"X\", x, perl = TRUE)"
    ∷ "function(p, x) grepRaw(p, charToRaw(x[3L]), all = TRUE, fixed = TRUE)"
    ∷ "function(p, x) grepl(p, x, perl = TRUE, useBytes = TRUE)"
    ∷ "function(p, x) regexec(p, x, perl = TRUE)" ∷ "function(p, x) regexpr(p, x, perl = TRUE)"
    ∷ "function(p, x) gsub(p, \"\\\\1\", x, perl = TRUE)"
    ∷ "function(p, x) sub(p, \"X\", x, fixed = TRUE)"
    ∷ "function(p, x) gsub(p, \"\\\\U\\\\1\", x, perl = TRUE)" ∷ []

abbrev pub subjects : List String
subjects =
    "hello world" ∷ "foo bar baz 123" ∷ "the quick brown fox jumps over the lazy dog"
    ∷ "aaaaaaaaaaaaaaaaaaaaaaaaaaaaaab" ∷ "" ∷ []

abbrev pub calls : List Function → List Term
calls wrappers = map (λ w. lang w (vec x_str & fixed subjects & nil)) wrappers

unfoldable pub init : Boot → M (List Term)
unfolding for_each_slot
init b = booted b sources λ wrappers. do
  perform_ (set_element x_str native (codes "(o)"))
  for_each_slot eval_silent n_calls
  return (calls wrappers)

unfoldable pub run : Host → Bytes → M (Unit {0})
run h input =
    if ltb (length input) 2 || ltb max_input (length input) || has_byte 0 (drop 1 input)
    then finish
    else do
      buffer ← checked (fill max_input (drop 1 input))
      excessive ← checked (fuzz_repeat_product_excessive (c_string buffer))
      if excessive
          then finish
          else require h (set_string x_str native (c_string buffer)) (do
            b ← checked (get_elem? input 0)
            i ← checked (slot n_calls (b % n_calls))
            perform_ (eval_silent i))
