-- ===== src/Targets/Sprintf.antt =====
-- harnesses/sprintf.c: the format-string parser. `x_str` is its `format`.
use r_oss_fuzz.Base.{
  ℕ, ◌*◌, ◌%◌, ◌||◌, List, [], ◌∷◌, Bytes, length, get_elem?, drop, codes, ltb, if◌then◌else◌,
}
use r_oss_fuzz.Host.{
  x_str, native, set_string, set_element, eval_silent, Host, M, ◌>>=◌, ◌>>◌, return, finish,
  checked, require, perform_, has_byte, c_string, fill, slot,
}
use r_oss_fuzz.Host.Boot.{Boot, booted}
use r_oss_fuzz.Host.Call.{Term, vec, text, literal, lang, named, nil, ◌&◌}

abbrev pub max_input : ℕ
max_input = 1024 * 16

abbrev pub n_calls : ℕ
n_calls = 4

abbrev pub calls : List Term
calls =
    lang (named "sprintf") (vec x_str & text "fuzz" & nil)
    ∷ lang (named "sprintf") (vec x_str & literal "-12345L" & nil)
    ∷ lang (named "sprintf") (vec x_str & literal "3.141592653589793" & nil)
    ∷ lang (named "sprintf")
        (vec x_str & literal "-12345L" & literal "3.141592653589793" & text "fuzz" & nil)
    ∷ []

unfoldable pub init : Boot → M (List Term)
init b = booted b [] λ wrappers. do perform_ (set_element x_str native (codes "%s")); return calls

unfoldable pub run : Host → Bytes → M (Unit {0})
run h input =
    if ltb (length input) 2 || ltb max_input (length input) || has_byte 0 (drop 1 input)
    then finish
    else do
      buffer ← checked (fill max_input (drop 1 input))
      require h (set_string x_str native (c_string buffer)) (do
        b ← checked (get_elem? input 0)
        i ← checked (slot n_calls (b % n_calls))
        perform_ (eval_silent i))
