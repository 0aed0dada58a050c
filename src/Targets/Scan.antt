-- ===== src/Targets/Scan.antt =====
-- harnesses/scan.c: `scan()` under one of its configurations.
use r_oss_fuzz.Base.{
  ℕ, ◌*◌, ◌%◌, ◌||◌, List, [], ◌∷◌, map, Bytes, length, get_elem?, drop, codes, ltb, if◌then◌else◌,
}
use Prim.Native.String.{String}
use r_oss_fuzz.Host.{
  x_str, native, set_string, set_element, eval_silent, Host, M, ◌>>=◌, ◌>>◌, return, finish,
  checked, require, perform_, for_each_slot, has_byte, c_string, fill, slot,
}
use r_oss_fuzz.Host.Boot.{Boot, booted}
use r_oss_fuzz.Host.Call.{Term, vec, lang, closure, nil, ◌&◌}

abbrev pub max_input : ℕ
max_input = 1024 * 64

abbrev pub n_calls : ℕ
n_calls = 18

abbrev pub sources : List String
sources =
    "function(x) scan(text = x, what = \"\", quiet = TRUE)"
    ∷ "function(x) scan(text = x, what = 0, quiet = TRUE)"
    ∷ "function(x) scan(text = x, what = \"\", sep = \",\", quiet = TRUE)"
    ∷ "function(x) scan(text = x, what = \"\", sep = \"\\t\", quiet = TRUE)"
    ∷ "function(x) scan(text = x, what = integer(), quiet = TRUE)"
    ∷ "function(x) scan(text = x, what = complex(), quiet = TRUE)"
    ∷ "function(x) scan(text = x, what = raw(), quiet = TRUE)"
    ∷ "function(x) scan(text = x, what = logical(), quiet = TRUE)"
    ∷ "function(x) scan(text = x, what = list(\"\", 0, \"\"), sep = \",\", quiet = TRUE)"
    ∷ "function(x) scan(text = x, what = \"\", allowEscapes = TRUE, quiet = TRUE)"
    ∷ "function(x) scan(text = x, what = \"\", sep = \",\", quote = \"\\\"'\", quiet = TRUE)"
    ∷ "function(x) scan(text = x, what = 0, na.strings = c(\"NA\", \"-\"), quiet = TRUE)"
    ∷ "function(x) scan(text = x, what = 0, dec = \",\", quiet = TRUE)"
    ∷ "function(x) scan(text = x, what = \"\", comment.char = \"#\", quiet = TRUE)"
    ∷ "function(x) scan(text = x, what = \"\", sep = \",\", strip.white = TRUE, quiet = TRUE)"
    ∷ "function(x) scan(text = x, what = list(\"\", 0, \"\"), sep = \",\", fill = TRUE, multi.line = FALSE, quiet = TRUE)"
    ∷ "function(x) scan(text = x, what = \"\", skip = 1, nlines = 4, quiet = TRUE)"
    ∷ "function(x) scan(text = x, what = \"\", sep = \",\", blank.lines.skip = FALSE, quiet = TRUE)"
    ∷ []

abbrev pub calls : List Term
calls = map (λ s. lang (closure s) (vec x_str & nil)) sources

unfoldable pub init : Boot → M (List Term)
unfolding for_each_slot
init b = booted b sources λ wrappers. do
  perform_ (set_element x_str native (codes "1,2,3\n4,5,6\n"))
  for_each_slot eval_silent n_calls
  return (map (λ w. lang w (vec x_str & nil)) wrappers)

unfoldable pub run : Host → Bytes → M (Unit {0})
run h input =
    if ltb (length input) 2 || ltb max_input (length input) || has_byte 0 (drop 1 input)
    then finish
    else do
      buffer ← checked (fill max_input (drop 1 input))
      require h (set_string x_str native (c_string buffer)) (do
        b ← checked (get_elem? input 0)
        i ← checked (slot n_calls (b % n_calls))
        perform_ (eval_silent i))
