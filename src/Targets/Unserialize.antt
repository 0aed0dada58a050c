-- ===== src/Targets/Unserialize.antt =====
-- harnesses/unserialize.c: the deserializer. The last byte picks the route and stays in the payload.
use r_oss_fuzz.Base.{
  ℕ, zero, suc, ◌-◌, ◌*◌, ◌%◌, ◌||◌, List, [], ◌∷◌, map, Bytes, length, get_elem?, ltb,
  if◌then◌else◌,
}
use Prim.Native.String.{String}
use r_oss_fuzz.Host.{
  set_raw_arg, eval_silent, serialize_null, set_serialized_arg, perform, Host, M, ◌>>=◌, ◌>>◌,
  return, finish, checked, require, perform_, slot,
}
use r_oss_fuzz.Host.Boot.{Boot, booted}
use r_oss_fuzz.Host.Call.{Term, Function, raw, lang, nil, ◌&◌}

abbrev pub max_input : ℕ
max_input = 1024 * 64

abbrev pub n_calls : ℕ
n_calls = 4

abbrev pub sources : List String
sources =
    "function(x) unserialize(x)"
    ∷ "function(x) { con <- rawConnection(x); on.exit(close(con)); unserialize(con) }"
    ∷ "function(x) { con <- rawConnection(x); on.exit(close(con)); readRDS(con) }"
    ∷ "function(x) { con <- gzcon(rawConnection(x)); on.exit(close(con)); readRDS(con) }" ∷ []

abbrev pub calls : List Function → List Term
calls wrappers = map (λ w. lang w (raw & nil)) wrappers

unfoldable pub warm_up : ℕ → M (Unit {0})
warm_up zero = finish
warm_up (suc n) = do warm_up n; perform_ (set_serialized_arg n); perform_ (eval_silent n)

unfoldable pub init : Boot → Host → M (List Term)
unfolding warm_up
init b h = booted b sources λ wrappers. do
  ok ← perform h serialize_null
  if ok then warm_up n_calls else finish
  return (calls wrappers)

unfoldable pub run : Host → Bytes → M (Unit {0})
run h input = if ltb (length input) 2 || ltb max_input (length input) then finish else do
  b ← checked (get_elem? input (length input - 1))
  i ← checked (slot n_calls (b % n_calls))
  require h (set_raw_arg i input) (perform_ (eval_silent i))
