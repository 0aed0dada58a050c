-- ===== src/Targets/Readtable.antt =====
-- harnesses/readtable.c: `read.table()` and its kin.
use r_oss_fuzz.Base.{
  ℕ, ◌*◌, ◌%◌, ◌||◌, List, [], ◌∷◌, map, Bytes, length, get_elem?, drop, codes, ltb, if◌then◌else◌,
}
use Prim.Native.String.{String}
use r_oss_fuzz.Host.{
  x_str, native, set_string, set_element, eval_silent, Host, M, ◌>>=◌, ◌>>◌, return, finish,
  checked, require, perform_, for_each_slot, has_byte, c_string, fill, slot,
}
use r_oss_fuzz.Host.Boot.{Boot, booted}
use r_oss_fuzz.Host.Call.{Term, vec, lang, closure, nil, ◌&◌}

abbrev pub max_input : ℕ
max_input = 1024 * 64

abbrev pub n_calls : ℕ
n_calls = 20

abbrev pub sources : List String
sources =
    "function(x) read.table(text = x)" ∷ "function(x) read.csv(text = x)"
    ∷ "function(x) read.csv2(text = x)" ∷ "function(x) read.delim(text = x)"
    ∷ "function(x) read.table(text = x, header = TRUE, sep = \",\", quote = \"\\\"'\", comment.char = \"#\", fill = TRUE)"
    ∷ "function(x) read.table(text = x, sep = \",\", allowEscapes = TRUE, strip.white = TRUE, blank.lines.skip = FALSE)"
    ∷ "function(x) read.table(text = x, header = TRUE, row.names = 1, check.names = TRUE)"
    ∷ "function(x) read.table(text = x, colClasses = \"character\", nrows = 100, skip = 1, fill = TRUE)"
    ∷ "function(x) read.table(text = x, header = TRUE, na.strings = c(\"NA\", \"\", \"-\", \"?\"), stringsAsFactors = TRUE)"
    ∷ "function(x) read.table(text = x, flush = TRUE, numerals = \"no.loss\", dec = \",\")"
    ∷ "function(x) read.csv(text = x, encoding = \"UTF-8\", skipNul = TRUE)"
    ∷ "function(x) read.csv(text = x, encoding = \"latin1\", header = FALSE, col.names = paste0(\"V\", 1:3), fill = TRUE)"
    ∷ "function(x) { con <- textConnection(x); on.exit(close(con)); count.fields(con, sep = \",\", quote = \"\\\"\", comment.char = \"#\") }"
    ∷ "function(x) { con <- textConnection(x); on.exit(close(con)); count.fields(con, sep = \"\", blank.lines.skip = FALSE, skip = 1) }"
    ∷ "function(x) { con <- textConnection(x); on.exit(close(con)); count.fields(con, sep = \";\", quote = \"'\", comment.char = \"\") }"
    ∷ "function(x) { d <- read.csv(text = x, stringsAsFactors = TRUE); write.table(d, nullfile(), sep = \",\", qmethod = \"double\") }"
    ∷ "function(x) { d <- read.table(text = x, fill = TRUE); write.csv(d, nullfile(), row.names = FALSE, na = \"\") }"
    ∷ "function(x) { d <- read.csv2(text = x); write.table(d, nullfile(), quote = FALSE, dec = \",\", eol = \"\\r\\n\", col.names = NA) }"
    ∷ "function(x) { d <- read.delim(text = x); write.table(d, nullfile(), qmethod = \"escape\", quote = seq_along(d)) }"
    ∷ "function(x) { d <- read.csv(text = x, encoding = \"UTF-8\"); write.csv(d, nullfile(), fileEncoding = \"UTF-16LE\") }"
    ∷ []

abbrev pub calls : List Term
calls = map (λ s. lang (closure s) (vec x_str & nil)) sources

unfoldable pub init : Boot → M (List Term)
unfolding for_each_slot
init b = booted b sources λ wrappers. do
  perform_ (set_element x_str native (codes "a,b,c\n1,2,x\n4,NA,\"y\"\n"))
  for_each_slot eval_silent n_calls
  return (map (λ w. lang w (vec x_str & nil)) wrappers)

unfoldable pub run : Host → Bytes → M (Unit {0})
run h input =
    if ltb (length input) 2 || ltb max_input (length input) || has_byte 0 (drop 1 input)
    then finish
    else do
      buffer ← checked (fill max_input (drop 1 input))
      require h (set_string x_str native (c_string buffer)) (do
        b ← checked (get_elem? input 0)
        i ← checked (slot n_calls (b % n_calls))
        perform_ (eval_silent i))
