-- ===== src/Targets/Encoding.antt =====
-- harnesses/encoding.c: iconv and the marks around it.
pub mod Runs
pub mod Calls
use r_oss_fuzz.Base.{
  ℕ, zero, suc, ◌*◌, ◌%◌, Bool, true, false, ◌||◌, Option, none, some, List, [], ◌∷◌, ◌++◌, map,
  Bytes, length, get_elem?, drop, codes, ltb, ◌==◌, if◌then◌else◌,
}
use Prim.Native.String.{String}
use r_oss_fuzz.Host.{
  Vec, x_str, x_utf8, x_latin1, x_list, native, utf8, latin1, Op, set_string, set_element,
  set_raw_element, eval_silent, Host, M, ◌>>=◌, ◌>>◌, return, finish, checked, require, perform_,
  has_byte, c_string, fill,
}
use r_oss_fuzz.Host.Boot.{Boot, booted}
use r_oss_fuzz.Host.Call.{
  Term, Args, vec, text, flag, missing_string, lang, named, nil, ◌&◌, with_tags,
}

abbrev pub max_input : ℕ
max_input = 1024 * 64

abbrev pub n_calls : ℕ
n_calls = 28

pub data Input : Type 0 where
  in_raw in_str in_utf8 in_latin1 : Input

-- `extra_name` and `extra`, or NULL.
abbrev pub extra_args : Option (String × Term) → Args
extra_args none = nil
extra_args (some (s, e)) = e & nil

abbrev pub extra_tags : Option (String × Term) → List (ℕ × String)
extra_tags none = []
extra_tags (some (s, e)) = (5, s) ∷ []

unfoldable pub iconv_call : Term → String → String → Term → Option (String × Term) → Option Term
unfolding with_tags
iconv_call x from to sub extra =
    with_tags ((2, "from") ∷ (3, "to") ∷ (4, "sub") ∷ extra_tags extra)
      (lang (named "iconv") (x & text from & text to & sub & extra_args extra))

abbrev pub raw_value : Term
raw_value = vec x_list

abbrev pub str_value : Term
str_value = vec x_str

abbrev pub utf8_value : Term
utf8_value = vec x_utf8

abbrev pub latin1_value : Term
latin1_value = vec x_latin1

abbrev pub from_to : List (String × String)
from_to =
    ("UTF-8", "UTF-8")
    ∷ ("latin1", "UTF-8")
    ∷ ("CP1252", "UTF-8")
    ∷ ("UTF-16LE", "UTF-8")
    ∷ ("UTF-16BE", "UTF-8")
    ∷ ("", "ASCII//TRANSLIT")
    ∷ []

abbrev pub to_raw : Option (String × Term)
to_raw = some ("toRaw", flag true)

unfoldable pub raw_slots : List (Option Term × Input)
unfolding iconv_call
raw_slots = map (λ p. (iconv_call raw_value p.0 p.1 (text "byte") to_raw, in_raw)) from_to

unfoldable pub string_slots : List (Option Term × Input)
unfolding iconv_call
string_slots =
    (iconv_call str_value "UTF-8" "latin1" (text "byte") none, in_str)
    ∷ (iconv_call str_value "UTF-8" "ASCII" (text "Unicode") none, in_str)
    ∷ (iconv_call str_value "UTF-8" "ASCII" (text "c99") none, in_str)
    ∷ (iconv_call str_value "UTF-8" "UTF-16LE" (text "byte") to_raw, in_str)
    ∷ (iconv_call str_value "UTF-8" "latin1" missing_string none, in_str)
    ∷ (iconv_call str_value "UTF-8" "ASCII" (text "") none, in_str)
    ∷ (iconv_call utf8_value "" "latin1" (text "?") (some ("mark", flag true)), in_utf8)
    ∷ (iconv_call latin1_value "" "UTF-8" (text "byte") (some ("mark", flag true)), in_latin1)
    ∷ (iconv_call utf8_value "" "ASCII//TRANSLIT" (text "byte") none, in_utf8)
    ∷ (iconv_call str_value "UTF-8" "UTF-8" (text "Unicode") none, in_str)
    ∷ (
      iconv_call latin1_value "latin1" "UTF-8" (text "byte") (some ("mark", flag false)),
      in_latin1,
    )
    ∷ (some (lang (named "enc2utf8") (latin1_value & nil)), in_latin1)
    ∷ (some (lang (named "enc2native") (utf8_value & nil)), in_utf8)
    ∷ (some (lang (named "validUTF8") (str_value & nil)), in_str)
    ∷ (some (lang (named "validEnc") (utf8_value & nil)), in_utf8)
    ∷ (
      some (
          lang (named "enc2utf8")
            (lang (named "Encoding<-") (str_value & text "latin1" & nil) & nil)),
      in_str,
    )
    ∷ []

unfoldable pub decoder_slots : List (Option Term × Input)
unfolding iconv_call
decoder_slots =
    (iconv_call raw_value "UTF-16" "UTF-8" (text "byte") none, in_raw)
    ∷ (iconv_call raw_value "UTF-32" "UTF-8" (text "byte") none, in_raw)
    ∷ (iconv_call raw_value "UTF-7" "UTF-8" (text "byte") none, in_raw)
    ∷ (iconv_call raw_value "ISO-2022-JP" "UTF-8" (text "byte") none, in_raw)
    ∷ (iconv_call raw_value "GB18030" "UTF-8" (text "byte") none, in_raw)
    ∷ (iconv_call raw_value "UTF-8" "UTF-16" (text "byte") to_raw, in_raw)
    ∷ []

unfoldable pub slots : List (Option Term × Input)
unfolding raw_slots string_slots decoder_slots
slots = raw_slots ++ (string_slots ++ decoder_slots)

unfoldable pub inputs : List Input
unfolding slots
inputs = map (λ s. s.1) slots

unfoldable pub gather : List (Option Term × Input) → Option (List Term)
gather [] = some []
gather ((none, i) ∷ l) = none
gather ((some c, i) ∷ l) = elim (gather l) [ none ↦ none | some r ↦ some (c ∷ r) ]

-- `if (k != N_CALLS) abort();` is the test of the length.
unfoldable pub init : Boot → M (List Term)
unfolding gather slots
init b = booted b [] λ wrappers. do
  perform_ (set_raw_element x_list [])
  calls ← checked (gather slots)
  checked (if length calls == n_calls then some tt else none)
  perform_ (set_element x_str native (codes "fuzz"))
  perform_ (set_element x_utf8 utf8 (codes "fuzz"))
  perform_ (set_element x_latin1 latin1 (codes "fuzz"))
  return calls

-- The `switch`.
abbrev pub stage_string : Input → Bytes → Op
stage_string in_utf8 s = set_string x_utf8 utf8 s
stage_string in_latin1 s = set_string x_latin1 latin1 s
stage_string other s = set_string x_str native s

abbrev pub is_raw : Input → Bool
is_raw in_raw = true
is_raw other = false

unfoldable pub run : Host → Bytes → M (Unit {0})
unfolding inputs
run h input = if ltb (length input) 2 || ltb max_input (length input) then finish else do
  b ← checked (get_elem? input 0)
  let selected = b % n_calls
  kind ← checked (get_elem? inputs selected)
  if is_raw kind
      then require h (set_raw_element x_list (drop 1 input)) (perform_ (eval_silent selected))
      else if has_byte 0 (drop 1 input)
      then finish
      else (do
        buffer ← checked (fill max_input (drop 1 input))
        require h (stage_string kind (c_string buffer)) (perform_ (eval_silent selected)))
