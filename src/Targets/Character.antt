-- ===== src/Targets/Character.antt =====
-- harnesses/character.c: operations on strings.
pub mod Chartr
pub mod Slots
pub mod Masks
pub mod Runs
use r_oss_fuzz.Base.{
  ℕ, ◌+◌, ◌-◌, ◌*◌, ◌%◌, Bool, true, false, not, ◌||◌, ◌&&◌, Option, none, some, List, [], ◌∷◌,
  ◌++◌, Bytes, length, get_elem?, drop, codes, ltb, leb, ◌==◌, if◌then◌else◌, ◌or_else◌,
}
use r_oss_fuzz.Host.{
  Op, x_str, x_utf8, x_latin1, aux_string, aux_utf8, native, utf8, latin1, set_string, set_element,
  eval_silent, Host, M, ◌>>=◌, ◌>>◌, return, finish, checked, require, perform_, has_byte, c_string,
  break_line, fill,
}
use r_oss_fuzz.Host.Fields.{cut_at_newline}
use r_oss_fuzz.Host.Call.{Term}
use r_oss_fuzz.Common.Repeat.{fuzz_repeat_product_excessive}
use r_oss_fuzz.Targets.Character.Chartr.{fuzz_chartr_table_excessive}
use r_oss_fuzz.Targets.Character.Slots.{
  slots, needs, build, wants, need_x, need_xu, need_xl, need_aux, need_auxu, need_regex,
  need_chartr,
}

abbrev pub max_input : ℕ
max_input = 1024 * 64

abbrev pub n_fixed_calls : ℕ
n_fixed_calls = 9

abbrev pub n_calls : ℕ
n_calls = 34

abbrev pub default_aux : Bytes
default_aux = codes "[ ,;]+"

-- `if (k != N_CALLS) abort();` is the test of the length.
unfoldable pub init : M (List Term)
unfolding build
init = do
  calls ← checked (build slots)
  checked (if length calls == n_calls then some tt else none)
  perform_ (set_element x_str native (codes "fuzz"))
  perform_ (set_element x_utf8 utf8 (codes "fuzz"))
  perform_ (set_element x_latin1 latin1 (codes "fuzz"))
  perform_ (set_element aux_string native default_aux)
  perform_ (set_element aux_utf8 utf8 default_aux)
  return calls

-- `subject` and `aux`, read from `buffer`, which holds the payload and a NUL.
unfoldable pub fields : ℕ → Bytes → Bytes → Bytes × Bytes
unfolding cut_at_newline
fields selected payload buffer =
    if ltb selected n_fixed_calls
    then (c_string buffer, default_aux)
    else cut_at_newline default_aux payload buffer

-- The two guards, each behind its bit of the mask.
unfoldable pub refuses : ℕ → Bytes → Option Bool
refuses need aux =
    (if wants need need_regex then fuzz_repeat_product_excessive aux else some false)
    or_else (if wants need need_chartr then fuzz_chartr_table_excessive aux else some false)

-- `if ((need & mask) && !op) return 0;` in front of what follows.
unfoldable pub require_if : Bool → Host → Op → M (Unit {0}) → M (Unit {0})
require_if wanted h op k = if wanted then require h op k else k

-- What follows the guards.
unfoldable pub stage_and_eval : Host → ℕ → ℕ → Bytes → Bytes → M (Unit {0})
unfolding require_if
stage_and_eval h selected need subject aux =
    require_if (wants need need_x) h (set_string x_str native subject) (
      require_if (wants need need_xu) h (set_string x_utf8 utf8 subject) (
        require_if (wants need need_xl) h (set_string x_latin1 latin1 subject) (
          require_if (wants need need_aux) h (set_string aux_string native aux) (
            require_if (wants need need_auxu) h (set_string aux_utf8 utf8 aux)
              (perform_ (eval_silent selected))))))

unfoldable pub run : Host → Bytes → M (Unit {0})
unfolding fields refuses stage_and_eval
run h input =
    if ltb (length input) 2 || ltb max_input (length input) || has_byte 0 (drop 1 input)
    then finish
    else do
      b ← checked (get_elem? input 0)
      let selected = b % n_calls
      need ← checked (get_elem? needs selected)
      buffer ← checked (fill max_input (drop 1 input))
      let (subject, aux) = fields selected (drop 1 input) buffer
      refused ← checked (refuses need aux)
      if refused then finish else stage_and_eval h selected need subject aux
