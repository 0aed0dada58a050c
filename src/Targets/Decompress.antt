-- ===== src/Targets/Decompress.antt =====
-- harnesses/decompress.c: `memDecompress`, one type for each slot.
use r_oss_fuzz.Base.{
  ℕ, zero, suc, ◌*◌, ◌%◌, ◌||◌, Option, none, some, List, [], ◌∷◌, Bytes, length, get_elem?, drop,
  ltb, if◌then◌else◌,
}
use Prim.Native.String.{String}
use r_oss_fuzz.Host.{
  set_raw_arg, eval_toplevel, eval_try, Host, M, ◌>>=◌, ◌>>◌, return, finish, checked, require,
  perform_, slot,
}
use r_oss_fuzz.Host.Call.{Term, text, raw, lang, named, nil, ◌&◌, tagged}

abbrev pub max_input : ℕ
max_input = 1024 * 64

abbrev pub n_calls : ℕ
n_calls = 4

abbrev pub types : List String
types = "gzip" ∷ "bzip2" ∷ "xz" ∷ "unknown" ∷ []

abbrev pub type_call : String → Option Term
type_call s = tagged 2 "type" (lang (named "memDecompress") (raw & text s & nil))

unfoldable pub build : List String → Option (List Term)
unfolding tagged
build [] = some []
build (s ∷ l) = elim (type_call s) [
  | none ↦ none
  | some c ↦ elim (build l) [ none ↦ none | some r ↦ some (c ∷ r) ]
]

-- A minimal gzip stream.
abbrev pub gz : Bytes
gz =
    0x1f ∷ 0x8b ∷ 0x08 ∷ 0x00 ∷ 0x00 ∷ 0x00 ∷ 0x00 ∷ 0x00 ∷ 0x00 ∷ 0x03 ∷ 0x03 ∷ 0x00 ∷ 0x00 ∷ 0x00
    ∷ 0x00 ∷ 0x00 ∷ 0x00 ∷ 0x00 ∷ 0x00 ∷ 0x00 ∷ []

unfoldable pub warm_up : ℕ → M (Unit {0})
warm_up zero = finish
warm_up (suc n) = do warm_up n; perform_ (set_raw_arg n gz); perform_ (eval_try n)

unfoldable pub init : M (List Term)
unfolding build warm_up
init = do calls ← checked (build types); warm_up n_calls; return calls

-- `data[0] & 0x03` is the remainder by 4.
unfoldable pub run : Host → Bytes → M (Unit {0})
run h input = if ltb (length input) 2 || ltb max_input (length input) then finish else do
  b ← checked (get_elem? input 0)
  i ← checked (slot n_calls (b % 4))
  require h (set_raw_arg i (drop 1 input)) (perform_ (eval_toplevel i))
