-- ===== src/Targets/Io.antt =====
-- harnesses/io.c: typed binary input and output.
pub mod Calls
use r_oss_fuzz.Base.{
  ℕ, ◌+◌, ◌-◌, ◌*◌, ◌%◌, Bool, not, ◌||◌, Option, none, some, List, [], ◌∷◌, map, Bytes, length,
  get_elem?, drop, ltb, if◌then◌else◌,
}
use Prim.Native.String.{String}
use r_oss_fuzz.Host.{
  set_raw_arg, eval_silent, run_io, Host, M, ◌>>=◌, finish, checked, return, require, perform_,
  slot,
}
use r_oss_fuzz.Host.Boot.{Boot, booted}
use r_oss_fuzz.Host.Call.{
  Term, text, number, raw, nil_value, default_of, lang, named, closure, nil, ◌&◌, tagged,
}

abbrev pub max_input : ℕ
max_input = 1024 * 64

abbrev pub n_bin : ℕ
n_bin = 8

abbrev pub n_wrap : ℕ
n_wrap = 10

abbrev pub n_calls : ℕ
n_calls = n_bin + n_wrap

abbrev pub wrap_sources : List String
wrap_sources =
    "function(x) readChar(x, c(1L, 5L, 16L, 64L), useBytes = TRUE)"
    ∷ "function(x) readChar(x, c(1L, 5L, 16L, 64L))"
    ∷ "function(x) { con <- rawConnection(x); on.exit(close(con)); readChar(con, c(1L, 5L, 16L, 64L)) }"
    ∷ "function(x) { s <- readChar(x, c(4L, 8L, 16L), useBytes = TRUE); r <- writeChar(s, raw(), nchars = c(4L, 8L, 16L), eos = NULL); readChar(r, c(4L, 8L, 16L), useBytes = TRUE) }"
    ∷ "function(x) { con <- rawConnection(x); on.exit(close(con)); readBin(con, \"character\", n = 64L) }"
    ∷ "function(x) { con <- rawConnection(x); on.exit(close(con)); readBin(con, \"integer\", n = 16384L, size = 2L, signed = FALSE) }"
    ∷ "function(x) readBin(x, \"integer\", n = 16384L, size = 1L, signed = TRUE)"
    ∷ "function(x) { con <- rawConnection(x); on.exit(close(con)); seek(con, 3L); readBin(con, \"double\", n = 16384L, size = 4L, endian = \"big\") }"
    ∷ "function(x) { con <- rawConnection(x); on.exit(close(con)); readLines(con, warn = FALSE) }"
    ∷ "function(x) { con <- rawConnection(x); on.exit(close(con)); readBin(con, \"numeric\", n = 16384L, endian = \"swap\") }"
    ∷ []

abbrev pub wrap_calls : List Term
wrap_calls = map (λ s. lang (closure s) (raw & nil)) wrap_sources

abbrev pub what : List String
what =
    "raw" ∷ "integer" ∷ "integer" ∷ "double" ∷ "double" ∷ "complex" ∷ "character" ∷ "logical" ∷ []

abbrev pub size_values : List ℕ
size_values = 1 ∷ 1 ∷ 4 ∷ 4 ∷ 8 ∷ 16 ∷ 1 ∷ 4 ∷ []

abbrev pub endian_values : List String
endian_values = "little" ∷ "big" ∷ "little" ∷ "big" ∷ "little" ∷ "big" ∷ "little" ∷ "little" ∷ []

-- `readBin(raw, what, 16384, size = , endian = )` and `writeBin(value, raw(), size = , endian = )`
unfoldable pub read_call : String → ℕ → String → Option Term
unfolding tagged
read_call w size endian =
    elim (tagged 4 "size" (
      lang (named "readBin")
        (raw & default_of w & number 16384 & number size & text endian & nil))) [
          | none ↦ none
          | some c ↦ tagged 5 "endian" c
        ]

unfoldable pub write_call : ℕ → String → Option Term
unfolding tagged
write_call size endian =
    elim (tagged 3 "size"
      (lang (named "writeBin") (nil_value & raw & number size & text endian & nil))) [
        | none ↦ none
        | some c ↦ tagged 4 "endian" c
      ]

-- `read_calls[i]` and `write_calls[i]`, for each slot of a table.
unfoldable pub bin_calls : List String → List ℕ → List String → Option (List (Term × Term))
unfolding read_call write_call
bin_calls (w ∷ ws) (n ∷ ns) (e ∷ es) = elim (read_call w n e) [
  | none ↦ none
  | some r ↦ elim (write_call n e) [
    | none ↦ none
    | some v ↦ elim (bin_calls ws ns es) [ none ↦ none | some l ↦ some ((r, v) ∷ l) ]
  ]
]
bin_calls ws ns es = some []

-- The pairs and the wrappers do not depend on each other.
unfoldable pub init : Boot → M (List (Term × Term) × List Term)
unfolding bin_calls
init b = booted b wrap_sources λ wrappers. do
  bins ← checked (bin_calls what size_values endian_values)
  return (bins, map (λ w. lang w (raw & nil)) wrappers)

-- What `R_tryEvalSilent` gives for the read and the write call of a slot: `none` is an R error. The
-- values are R's, and so is `R_compute_identical`.
pub record BinHost : Type 1 where
  pub Value : Type 0
  pub read_raw : Bytes → Option Value
  pub write : Value → Option Value
  pub read : Value → Option Value
  pub identical : Value → Value → Bool

pub data Ending : Type 0 where
  returned aborted : Ending

-- The steps of `run_io`, each of them only after the one before it succeeded.
unfoldable pub round_trip : BinHost → Bytes → Ending
round_trip r p = elim (r.read_raw p) [
  | none ↦ returned
  | some value ↦ elim (r.write value) [
    | none ↦ returned
    | some encoded ↦ elim (r.read encoded) [
      | none ↦ returned
      | some again ↦ if not (r.identical value again) then aborted else returned
    ]
  ]
]

unfoldable pub run : Host → Bytes → M (Unit {0})
run h input = if ltb (length input) 2 || ltb max_input (length input) then finish else do
  b ← checked (get_elem? input 0)
  let selected = b % n_calls
  if ltb selected n_bin then perform_ (run_io selected (drop 1 input)) else (do
    i ← checked (slot n_wrap (selected - n_bin))
    require h (set_raw_arg (n_bin + i) (drop 1 input)) (perform_ (eval_silent (n_bin + i))))
