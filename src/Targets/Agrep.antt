-- ===== src/Targets/Agrep.antt =====
-- harnesses/agrep.c: approximate matching. Every call runs on every input.
use r_oss_fuzz.Base.{
  ℕ, ◌+◌, ◌*◌, false, ◌||◌, List, [], ◌∷◌, Bytes, length, codes, ltb, ◌==◌, if◌then◌else◌,
}
use Prim.Native.String.{String}
use r_oss_fuzz.Host.{
  x_str, native, set_string, set_element, eval_toplevel, eval_try, Host, M, ◌>>=◌, ◌>>◌, return,
  finish, checked, require, perform_, for_each_slot, c_string, fill,
}
use r_oss_fuzz.Host.Call.{Term, vec, flag, fixed, literal, lang, named, nil, ◌&◌, tagged}
use r_oss_fuzz.Common.Repeat.{fuzz_repeat_product_excessive}

abbrev pub max_input : ℕ
max_input = 1024 * 64

abbrev pub n_calls : ℕ
n_calls = 3

abbrev pub subjects : List String
subjects =
    "hello world" ∷ "foo bar baz 123" ∷ "the quick brown fox jumps over the lazy dog"
    ∷ "aaaaaaaaaaaaaaaaaaaaaaaaaaaaaab" ∷ "" ∷ []

unfoldable pub init : M (List Term)
unfolding for_each_slot tagged
init = do
  agrep ← checked (
      tagged 3 "max.distance"
        (lang (named "agrep") (vec x_str & fixed subjects & literal "0.3" & nil)))
  agrepl ← checked (
      tagged 3 "max.distance"
        (lang (named "agrepl") (vec x_str & fixed subjects & literal "0.3" & nil)))
  regex ←
      checked
        (tagged 3 "fixed" (lang (named "agrep") (vec x_str & fixed subjects & flag false & nil)))
  perform_ (set_element x_str native (codes "hello"))
  for_each_slot eval_try n_calls
  return (agrep ∷ agrepl ∷ regex ∷ [])

unfoldable pub run : Host → Bytes → M (Unit {0})
unfolding for_each_slot
run h input = if length input == 0 || ltb max_input (length input) then finish else do
  buf ← checked (fill (max_input + 1) input)
  excessive ← checked (fuzz_repeat_product_excessive (c_string buf))
  if excessive
      then finish
      else require h (set_string x_str native (c_string buf)) (for_each_slot eval_toplevel n_calls)
