-- ===== src/Host/Boot.antt =====
-- The start of a target's `fuzz_target_init`: `fuzz_init_r`, which stops the process outside of the R
-- thread, and `fuzz_make_wrapper`, which stops it where a source is not one expression. What R's parser
-- and evaluator make of a source is a parameter. The rest of `fuzz_init_r` is `Common.Startup`, and
-- `fuzz_label_calls` behind the wrappers is `Common.Labels.Table`.
use Prim.Native.String.{String}
use r_oss_fuzz.Base.{
  ℕ, Bool, true, false, ◌&&◌, Option, none, some, List, [], ◌∷◌, map, ◌==◌, ◌>>=◌, if◌then◌else◌,
  ◌≡◌, refl,
}
use r_oss_fuzz.Host.{M, Trace}
use r_oss_fuzz.Host.Call.{Function, closure}

-- `parses` is the number of expressions of a source, or none where the status is not PARSE_OK, and
-- `evaluates` is false where the evaluation of its expression is an error, which has no context.
pub record Boot : Type 0 where
  pub on_r_thread : Bool
  pub parses : String → Option ℕ
  pub evaluates : String → Bool

abbrev pub one_expression : Option ℕ → Bool
one_expression none = false
one_expression (some n) = n == 1

unfoldable pub fuzz_make_wrapper : Boot → String → Option Function
fuzz_make_wrapper b source =
    if one_expression (b.parses source)
    then (if b.evaluates source then some (closure source) else none)
    else none

unfoldable pub make_wrappers : Boot → List String → Option (List Function)
unfolding fuzz_make_wrapper
make_wrappers b [] = some []
make_wrappers b (source ∷ sources) = do
  wrapper ← fuzz_make_wrapper b source
  wrappers ← make_wrappers b sources
  some (wrapper ∷ wrappers)

-- `fuzz_init_r`, a wrapper for each source, and what follows.
unfoldable pub booted : {A : Type 0} → Boot → List String → (List Function → M A) → M A
unfolding make_wrappers
booted b sources next t =
    if b.on_r_thread
    then elim (make_wrappers b sources) [ none ↦ none | some wrappers ↦ next wrappers t ]
    else none

abbrev pub all_made : Boot → List String → Bool
all_made b [] = true
all_made b (source ∷ sources) =
    (one_expression (b.parses source) && b.evaluates source) && all_made b sources

make_wrappers-made :
    (b : Boot) (sources : List String)
    → make_wrappers b sources ≡ (if all_made b sources then some (map closure sources) else none)
unfolding make_wrappers fuzz_make_wrapper
make_wrappers-made b [] = refl
make_wrappers-made b (source ∷ sources) =
    rw (make_wrappers-made b sources)
      (one_more (one_expression (b.parses source)) (b.evaluates source) (all_made b sources))
  where
    one_more :
        (u v w : Bool)
        → ((if u then (if v then some (closure source) else none) else none) >>= λ wrapper.
            (if w then some (map closure sources) else none) >>= λ wrappers.
            some (wrapper ∷ wrappers))
          ≡ (if (u && v) && w then some (closure source ∷ map closure sources) else none)
    one_more true true true = refl
    one_more true true false = refl
    one_more true false w = refl
    one_more false v w = refl

-- Start-up goes on with a closure for each source, or stops the process.
pub booted-made :
    {A : Type 0} (b : Boot) (sources : List String) (next : List Function → M A) (t : Trace)
    → booted b sources next t
      ≡ (if b.on_r_thread && all_made b sources then next (map closure sources) t else none)
unfolding booted
booted-made b sources next t =
    rw (make_wrappers-made b sources) (both b.on_r_thread (all_made b sources))
  where
    both :
        (u v : Bool)
        → (if u
            then elim (if v then some (map closure sources) else none) [
              | none ↦ none
              | some wrappers ↦ next wrappers t
            ]
            else none)
          ≡ (if u && v then next (map closure sources) t else none)
    both true true = refl
    both true false = refl
    both false v = refl
