-- ===== src/Targets/Coerce.antt =====
-- harnesses/coerce.c: string conversion. Every call runs on every input.
use r_oss_fuzz.Base.{
  ℕ, ◌+◌, ◌*◌, true, ◌||◌, Option, none, some, List, [], ◌∷◌, Bytes, length, codes, ltb, ◌==◌,
  if◌then◌else◌,
}
use r_oss_fuzz.Host.{
  x_str, native, set_string, set_element, eval_toplevel, eval_try, Host, M, ◌>>=◌, ◌>>◌, return,
  finish, checked, require, perform_, for_each_slot, c_string, fill,
}
use r_oss_fuzz.Host.Call.{Term, vec, flag, lang, named, nil, ◌&◌, tagged}

abbrev pub max_input : ℕ
max_input = 1024 * 64

abbrev pub n_calls : ℕ
n_calls = 4

abbrev pub calls : Option (List Term)
calls = elim (tagged 2 "as.is" (lang (named "type.convert") (vec x_str & flag true & nil))) [
  | none ↦ none
  | some convert ↦ some (
      lang (named "as.numeric") (vec x_str & nil)
      ∷ lang (named "as.complex") (vec x_str & nil)
      ∷ lang (named "as.logical") (vec x_str & nil)
      ∷ convert
      ∷ [])
]

unfoldable pub init : M (List Term)
unfolding for_each_slot tagged
init = do
  built ← checked calls
  perform_ (set_element x_str native (codes "1"))
  for_each_slot eval_try n_calls
  return built

unfoldable pub run : Host → Bytes → M (Unit {0})
unfolding for_each_slot
run h input = if length input == 0 || ltb max_input (length input) then finish else do
  buf ← checked (fill (max_input + 1) input)
  require h (set_string x_str native (c_string buf)) (for_each_slot eval_toplevel n_calls)
