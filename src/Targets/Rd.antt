-- ===== src/Targets/Rd.antt =====
-- harnesses/rd.c: `tools::parse_Rd` on whole documents and on fragments or all fields.
use r_oss_fuzz.Base.{
  ℕ, ◌*◌, ◌%◌, true, false, ◌||◌, List, [], ◌∷◌, Bytes, length, get_elem?, drop, ltb, if◌then◌else◌,
}
use Prim.Native.String.{String}
use r_oss_fuzz.Host.{
  x_str, native, set_string, eval_silent, Host, M, ◌>>=◌, return, finish, checked, require,
  perform_, has_byte, c_string, fill, slot,
}
use r_oss_fuzz.Host.Boot.{Boot, booted}
use r_oss_fuzz.Host.Call.{Term, vec, flag, lang, closure, nil, ◌&◌}

abbrev pub max_input : ℕ
max_input = 1024 * 64

abbrev pub n_calls : ℕ
n_calls = 2

abbrev pub source : String
source =
    "function(x, fragment) { con <- textConnection(x); on.exit(close(con)); tools::parse_Rd(con, fragment = fragment, permissive = TRUE) }"

abbrev pub calls : List Term
calls =
    lang (closure source) (vec x_str & flag false & nil)
    ∷ lang (closure source) (vec x_str & flag true & nil)
    ∷ []

unfoldable pub init : Boot → M (List Term)
init b = booted b (source ∷ []) λ wrappers. do
  wrapper ← checked (get_elem? wrappers 0)
  return (
      lang wrapper (vec x_str & flag false & nil) ∷ lang wrapper (vec x_str & flag true & nil) ∷ [])

-- `data[0] & 1` is the remainder by 2.
unfoldable pub run : Host → Bytes → M (Unit {0})
run h input =
    if ltb (length input) 2 || ltb max_input (length input) || has_byte 0 (drop 1 input)
    then finish
    else do
      buffer ← checked (fill max_input (drop 1 input))
      require h (set_string x_str native (c_string buffer)) (do
        b ← checked (get_elem? input 0)
        i ← checked (slot n_calls (b % n_calls))
        perform_ (eval_silent i))
