-- ===== src/Targets/Parse.antt =====
-- harnesses/parse.c: the parser, and deparsing of what it read.
use r_oss_fuzz.Base.{
  ℕ, zero, suc, ◌*◌, ◌%◌, ◌||◌, Option, none, some, List, [], ◌∷◌, map, Bytes, length, get_elem?,
  drop, codes, ltb, if◌then◌else◌,
}
use Prim.Native.String.{String}
use r_oss_fuzz.Host.{
  x_str, native, set_string, set_element, eval_silent, collect, parse_vector, Host, M, ◌>>=◌, ◌>>◌,
  return, finish, checked, require, perform_, has_byte, c_string, fill, slot,
}
use r_oss_fuzz.Host.Call.{Term, vec, lang, closure, nil, ◌&◌}

abbrev pub max_input : ℕ
max_input = 1024 * 16

abbrev pub n_calls : ℕ
n_calls = 7

abbrev pub parse_data_source : String
parse_data_source =
    "\nfunction(x) {\n    e <- parse(text = x, keep.source = TRUE)\n    getParseData(e)\n}\n"

abbrev pub deparse_roundtrip_source : String
deparse_roundtrip_source =
    "\nfunction(x) {\n    e <- parse(text = x, keep.source = FALSE)\n    if (length(e) > 256L)\n        return(NULL)\n    d <- vapply(as.list(e), function(ex) {\n        paste(deparse(ex, control = \"all\"), collapse = \"\\n\")\n    }, \"\")\n    identical(e, parse(text = d, keep.source = FALSE))\n}\n"

abbrev pub str2lang_source : String
str2lang_source = "\nfunction(x) str2lang(x)\n"

abbrev pub str2expression_source : String
str2expression_source = "\nfunction(x) str2expression(x)\n"

abbrev pub deparse_options_source : String
deparse_options_source =
    "\nfunction(x) {\n    e <- parse(text = x, keep.source = FALSE)\n    deparse(\n        e,\n        width.cutoff = 20L,\n        backtick = TRUE,\n        control = c(\"keepInteger\", \"quoteExpressions\",\n                    \"showAttributes\", \"digits17\")\n    )\n}\n"

abbrev pub deparse_srcref_source : String
deparse_srcref_source =
    "\nfunction(x) {\n    e <- parse(text = x, keep.source = TRUE)\n    if (length(e) > 256L)\n        return(NULL)\n    deparse(e, control = c(\"useSource\", \"keepNA\", \"niceNames\"))\n}\n"

-- Slot 0 has no call: it is `R_ParseVector`, in C.
abbrev pub sources : List (Option String)
sources =
    none
    ∷ some parse_data_source
    ∷ some deparse_roundtrip_source
    ∷ some str2lang_source
    ∷ some str2expression_source
    ∷ some deparse_options_source
    ∷ some deparse_srcref_source
    ∷ []

abbrev pub wrap : Option String → Option Term
wrap none = none
wrap (some s) = some (lang (closure s) (vec x_str & nil))

abbrev pub calls : List (Option Term)
calls = map wrap sources

abbrev pub run_slot : ℕ → M (Unit {0})
run_slot zero = perform_ parse_vector
run_slot (suc n) = perform_ (eval_silent (suc n))

abbrev pub warmup : List String
warmup =
    "1+1" ∷ "x <- function(a, b) a + b" ∷ "if (TRUE) 'yes' else 'no'" ∷ "for (i in 1:10) i"
    ∷ "list(a=1, b=\"hello\", c=NULL, d=NA)" ∷ "\\(x) x + 1" ∷ "1:10 |> rev()" ∷ []

unfoldable pub run_slots : ℕ → M (Unit {0})
run_slots zero = finish
run_slots (suc n) = do run_slots n; run_slot n

unfoldable pub warm_up : List String → M (Unit {0})
unfolding run_slots
warm_up [] = perform_ collect
warm_up (s ∷ l) = do perform_ (set_element x_str native (codes s)); run_slots n_calls; warm_up l

unfoldable pub init : M (List (Option Term))
unfolding warm_up
init = do warm_up warmup; return calls

unfoldable pub run : Host → Bytes → M (Unit {0})
run h input =
    if ltb (length input) 2 || ltb max_input (length input) || has_byte 0 (drop 1 input)
    then finish
    else do
      buf ← checked (fill max_input (drop 1 input))
      require h (set_string x_str native (c_string buf))
          (do b ← checked (get_elem? input 0); i ← checked (slot n_calls (b % n_calls)); run_slot i)
