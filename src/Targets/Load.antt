-- ===== src/Targets/Load.antt =====
-- harnesses/load.c: the readers of .RData files, over a scratch file.
use r_oss_fuzz.Base.{
  ℕ, ◌*◌, ◌%◌, ◌||◌, List, [], ◌∷◌, map, Bytes, length, get_elem?, drop, ltb, if◌then◌else◌,
}
use Prim.Native.String.{String}
use r_oss_fuzz.Host.{
  write_scratch, eval_silent, make_scratch_file, demand, Host, M, ◌>>=◌, ◌>>◌, return, finish,
  checked, require, perform_, slot,
}
use r_oss_fuzz.Host.Boot.{Boot, booted}
use r_oss_fuzz.Host.Call.{Term, Function, text, lang, nil, ◌&◌}

abbrev pub max_input : ℕ
max_input = 1024 * 64

abbrev pub n_calls : ℕ
n_calls = 2

abbrev pub sources : List String
sources =
    "function(path) load(path, envir = new.env())"
    ∷ "function(path) .Internal(load(path, new.env()))" ∷ []

abbrev pub calls : List Function → List Term
calls wrappers = map (λ w. lang w (text "path" & nil)) wrappers

unfoldable pub init : Boot → Host → M (List Term)
init b h =
    booted b sources λ wrappers. do demand h (make_scratch_file "load"); return (calls wrappers)

unfoldable pub run : Host → Bytes → M (Unit {0})
run h input =
    if ltb (length input) 2 || ltb max_input (length input)
    then finish
    else require h (write_scratch (drop 1 input)) (do
      b ← checked (get_elem? input 0)
      i ← checked (slot n_calls (b % n_calls))
      perform_ (eval_silent i))
