-- ===== src/Targets/Datetime.antt =====
-- harnesses/datetime.c: parsing and formatting of times, some of it under a UTF-8 locale.
pub mod Locale
pub mod Probe
pub mod Switch
pub mod Process
use r_oss_fuzz.Base.{
  ℕ, zero, suc, ◌+◌, ◌*◌, ◌%◌, Bool, true, false, not, ◌||◌, ◌&&◌, Option, none, some, List, [],
  ◌∷◌, ◌++◌, Bytes, length, get_elem?, drop, codes, ltb, leb, ◌==◌, if◌then◌else◌, ◌>>=◌,
}
use Prim.Native.String.{String}
use r_oss_fuzz.Host.{
  Op, x_str, fmt_str, native, set_string, set_element, eval_toplevel, eval_try, set_locale, Host, M,
  Trace, return, perform_, finish, checked, perform, has_byte, c_string, fill, slot,
}
use r_oss_fuzz.Host.Fields.{cut_at_newline}
use r_oss_fuzz.Host.Call.{Term, vec, text, flag, lang, named, closure, nil, ◌&◌, with_tags}

abbrev pub max_input : ℕ
max_input = 1024 * 64

abbrev pub strptime_formats : List String
strptime_formats =
    "%Y-%m-%d %H:%M:%S" ∷ "%d/%b/%Y" ∷ "%Y-%m-%dT%H:%M:%S%z" ∷ "%c" ∷ "%x %X" ∷ "%a %d %b %Y" ∷ []

-- N_FORMATS + 3
abbrev pub n_fixed_calls : ℕ
n_fixed_calls = 9

abbrev pub n_calls : ℕ
n_calls = 17

-- N_CALLS - 2
abbrev pub first_utf8_call : ℕ
first_utf8_call = 15

abbrev pub default_format : Bytes
default_format = codes "%Y-%m-%d %H:%M:%OS"

abbrev pub fields_source : String
fields_source =
    "function(x, fmt, tz) {\n    lt <- unclass(strptime(x, fmt, tz = tz))\n    attr(lt, \"balanced\") <- NULL\n    b <- as.integer(charToRaw(x))\n    fields <- c(\"sec\", \"min\", \"hour\", \"mday\", \"mon\", \"year\")\n    for (i in seq_len(min(length(b), length(fields))))\n        lt[[fields[i]]] <- lt[[fields[i]]] + (b[i] - 128L) * 7L\n    class(lt) <- c(\"POSIXlt\", \"POSIXt\")\n    bal <- balancePOSIXlt(lt)\n    ct <- as.POSIXct(lt)\n    invisible(list(as.POSIXlt(ct, tz = tz), as.Date(lt),\n                   format(bal, fmt, usetz = TRUE), format(ct)))\n}"

abbrev pub value_arg : Term
value_arg = vec x_str

abbrev pub format_arg : Term
format_arg = vec fmt_str

abbrev pub zone : Term
zone = text "UTC"

-- The slots with a format of their own, `Rf_lang4(sym_strptime, x_str, fmt, tz_utc)`.
unfoldable pub by_format : List String → Option (List Term)
unfolding with_tags
by_format [] = some []
by_format (s ∷ l) =
    elim (with_tags ((2, "format") ∷ (3, "tz") ∷ [])
      (lang (named "strptime") (value_arg & text s & zone & nil))) [
        | none ↦ none
        | some c ↦ elim (by_format l) [ none ↦ none | some r ↦ some (c ∷ r) ]
      ]

unfoldable pub calls : Option (List Term)
unfolding by_format with_tags
calls = do
  formats ← by_format strptime_formats
  date ← with_tags ((2, "format") ∷ []) (lang (named "as.Date") (value_arg & text "%Y-%m-%d" & nil))
  ct ← with_tags ((2, "tz") ∷ []) (lang (named "as.POSIXct") (value_arg & zone & nil))
  lt ← with_tags ((2, "tz") ∷ []) (lang (named "as.POSIXlt") (value_arg & zone & nil))
  strptime_fmt ←
      with_tags ((2, "format") ∷ (3, "tz") ∷ [])
        (lang (named "strptime") (value_arg & format_arg & zone & nil))
  formatted ←
      with_tags ((2, "format") ∷ (3, "usetz") ∷ [])
        (lang (named "format") (strptime_fmt & format_arg & flag true & nil))
  as_date ← with_tags ((2, "format") ∷ []) (lang (named "as.Date") (value_arg & format_arg & nil))
  as_ct ←
      with_tags ((2, "format") ∷ (3, "tz") ∷ [])
        (lang (named "as.POSIXct") (value_arg & format_arg & zone & nil))
  ct_formatted ← with_tags ((2, "format") ∷ []) (lang (named "format") (as_ct & format_arg & nil))
  some (
      formats
      ++ (date
          ∷ ct
          ∷ lt
          ∷ strptime_fmt
          ∷ formatted
          ∷ lang (named "as.POSIXlt") (as_date & nil)
          ∷ ct_formatted
          ∷ lang (closure fields_source) (value_arg & format_arg & zone & nil)
          ∷ lang (closure fields_source) (value_arg & format_arg & text "Europe/London" & nil)
          ∷ strptime_fmt
          ∷ formatted
          ∷ []))

-- `want_utf8 == ctype_is_utf8`, where `none` is the -1 that the variable starts with.
abbrev pub is_current : Bool → Option Bool → Bool
is_current want none = false
is_current true (some u) = u
is_current false (some u) = not u

-- `available` is whether `find_utf8_locale` found one. The state is `ctype_is_utf8`.
unfoldable pub set_ctype : Bool → Option Bool → Bool → M (Option Bool)
set_ctype available ctype want_utf8 t =
    let want = available && want_utf8 in
    if is_current want ctype then some (ctype, t) else some (some want, t ++ set_locale want ∷ [])

-- The warm-up loop, each slot in its own locale.
unfoldable pub warm_up : Bool → ℕ → Option Bool → M (Option Bool)
unfolding set_ctype
warm_up available zero ctype t = some (ctype, t)
warm_up available (suc n) ctype t = elim (warm_up available n ctype t) [
  | none ↦ none
  | some (before, t₂) ↦ elim (set_ctype available before (leb first_utf8_call n) t₂) [
    | none ↦ none
    | some (after, t₃) ↦ some (after, t₃ ++ eval_try n ∷ [])
  ]
]

-- `if (k != N_CALLS) abort();` is the test of the length.
unfoldable pub init : Bool → M (Option Bool)
unfolding calls warm_up
init available t = elim calls [
  | none ↦ none
  | some l ↦
      if length l == n_calls
      then warm_up available n_calls none (
          t
          ++ set_element x_str native (codes "2024-01-15 12:30:00")
            ∷ set_element fmt_str native default_format
            ∷ [])
      else none
]

-- `value` and `fmt`.
unfoldable pub fields : ℕ → Bytes → Bytes → Bytes × Bytes
unfolding cut_at_newline
fields selected payload buf =
    if ltb selected n_fixed_calls
    then (c_string buf, default_format)
    else cut_at_newline default_format payload buf

-- What follows the staging: the locale, and the call under `R_ToplevelExec`.
unfoldable pub eval_in_locale : Bool → Option Bool → ℕ → M (Option Bool)
unfolding set_ctype
eval_in_locale available ctype selected t =
    elim (set_ctype available ctype (leb first_utf8_call selected) t) [
      | none ↦ none
      | some (after, t₂) ↦ some (after, t₂ ++ eval_toplevel selected ∷ [])
    ]

-- What follows the buffer: `if (!fuzz_set_string(...)) return 0;` twice, and the evaluation.
unfoldable pub stage_and_eval : Bool → Host → Option Bool → ℕ → Bytes → Bytes → M (Option Bool)
unfolding eval_in_locale
stage_and_eval available h ctype selected value fmt t =
    let t₂ = t ++ set_string x_str native value ∷ [] in
    let t₃ = t₂ ++ set_string fmt_str native fmt ∷ [] in
    if h t (set_string x_str native value)
    then (if h t₂ (set_string fmt_str native fmt)
        then eval_in_locale available ctype selected t₃
        else some (ctype, t₃))
    else some (ctype, t₂)

-- `none` from `fill` is an overrun of `buf`.
unfoldable pub run : Bool → Host → Option Bool → Bytes → M (Option Bool)
unfolding fields stage_and_eval
run available h ctype [] t = some (ctype, t)
run available h ctype (b ∷ payload) t =
    if ltb (suc (length payload)) 2 || ltb max_input (suc (length payload)) || has_byte 0 payload
    then some (ctype, t)
    else elim (fill (max_input + 1) payload) [
      | none ↦ none
      | some buf ↦
          let strings = fields (b % n_calls) payload buf in
          stage_and_eval available h ctype (b % n_calls) strings.0 strings.1 t
    ]

-- The process: start-up, then an input after the other.
unfoldable pub run_all : Bool → Host → Option Bool → List Bytes → M (Option Bool)
unfolding run
run_all available h ctype [] t = some (ctype, t)
run_all available h ctype (input ∷ inputs) t = elim (run available h ctype input t) [
  | none ↦ none
  | some (after, t₂) ↦ run_all available h after inputs t₂
]

unfoldable pub process : Bool → Host → List Bytes → M (Option Bool)
unfolding init run_all
process available h inputs t = elim (init available t) [
  | none ↦ none
  | some (ctype, t₂) ↦ run_all available h ctype inputs t₂
]
