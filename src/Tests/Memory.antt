-- ===== src/Tests/Memory.antt =====
-- R's objects and the files at concrete heaps, with a memory manager that frees nothing and with one
-- that frees all where there is no root.
use r_oss_fuzz.Base.{
  ℕ, ◌<◌, Bool, true, false, none, List, [], ◌∷◌, ◌++◌, codes, ◌==◌, if◌then◌else◌, ◌≡◌, refl,
  arith,
}
use r_oss_fuzz.Host.{native}
use r_oss_fuzz.Common.Objects.{
  Object, chars, raws, strings, vector, call, freed, symbol, object, untagged, Heap, contains,
  holds, points, Reached, root, held, Collector, Keeps, returned, collect,
}
use r_oss_fuzz.Common.Objects.Reach.{IsValid}
use r_oss_fuzz.Common.Objects.Grows.{Grants, Reached-within}
use r_oss_fuzz.Targets.Datetime.Switch.{
  make_category, make_setlocale_call, between, category, sys_setlocale, make_setlocale_call_dangles,
}
use r_oss_fuzz.Targets.Encoding.Calls.Lives.{Lives, make_iconv_call-Lives}

abbrev pub lazy : Collector
lazy = record { grants = λ more h. true; frees = λ more h a. false }

pub lazy-Keeps : Keeps lazy
lazy-Keeps = record { keeps = λ more h a r. refl }

lazy-Grants : Grants lazy
lazy-Grants more h = refl

abbrev is_empty : List ℕ → Bool
is_empty [] = true
is_empty (a ∷ l) = false

-- Frees everything where nothing is kept.
abbrev eager : Collector
eager = record { grants = λ more h. true; frees = λ more h a. is_empty (more ++ h.roots) }

nothing_reached : (cells : ℕ → Object) (a : ℕ) (P : Type 0) → Reached [] cells a → P
unfolding contains
nothing_reached cells a P (root _ e) = absurd (ground (arith, e))
nothing_reached cells a P (held c _ r e) = nothing_reached cells c P r

eager_lem : (l : List ℕ) (cells : ℕ → Object) (a : ℕ) → Reached l cells a → is_empty l ≡ false
eager_lem [] cells a r = nothing_reached cells a _ r
eager_lem (b ∷ l) cells a r = refl

eager-Keeps : Keeps eager
eager-Keeps = record { keeps = λ more h a r. eager_lem (more ++ h.roots) h.cells a r }

eager-Grants : Grants eager
eager-Grants more h = refl

abbrev empty_heap : Heap
empty_heap = record { cells = λ a. freed; next = 0; roots = [] }

empty_heap-IsValid : IsValid empty_heap
empty_heap-IsValid a r = nothing_reached (λ b. freed) a _ r

make_setlocale_call_dangles_example :
    (make_category eager empty_heap
      ≡ (returned (category eager empty_heap), between eager empty_heap))
    × (¬ Reached
        (between eager empty_heap).roots
        (between eager empty_heap).cells
        (category eager empty_heap))
    × (c : ℕ) × (h' : Heap) × (locale : ℕ) × (make_setlocale_call eager (codes "C") empty_heap
        ≡ (returned c, h'))
    × (h'.cells c
        ≡ call (
            untagged sys_setlocale
            ∷ untagged (object (category eager empty_heap))
            ∷ untagged (object locale)
            ∷ []))
    × (h'.cells (category eager empty_heap) ≡ freed)
unfolding collect
make_setlocale_call_dangles_example =
    make_setlocale_call_dangles eager eager-Keeps eager-Grants (codes "C") empty_heap
      empty_heap-IsValid refl

-- A text, a list and a call, each protected, with what they hold.
abbrev pub cells : ℕ → Object
cells a =
    if a == 0
    then strings 3
    else if a == 1
    then vector 4
    else if a == 2
    then call (untagged (symbol (codes "f")) ∷ untagged (object 4) ∷ [])
    else if a == 3
    then chars native (codes "old")
    else raws 0 []

abbrev pub small_heap : Heap
small_heap = record { cells = cells; next = 5; roots = 0 ∷ 1 ∷ 2 ∷ [] }

small_base : (a : ℕ) → contains a (0 ∷ 1 ∷ 2 ∷ []) ≡ true → a < 5
unfolding contains
small_base a e = ground (arith, e)

small_step : (a b : ℕ) → a < 5 → holds (cells a) b ≡ true → b < 5
unfolding holds points
small_step a b lt e = ground (arith, e)

pub small_heap-IsValid : IsValid small_heap
small_heap-IsValid a r =
    Reached-within (λ b. b < 5) (0 ∷ 1 ∷ 2 ∷ []) cells small_base small_step a r

make_iconv_call-Lives_example :
    Lives lazy lazy-Keeps lazy-Grants 1 (codes "UTF-8") (codes "latin1") 0 none small_heap
unfolding contains
make_iconv_call-Lives_example =
    make_iconv_call-Lives lazy lazy-Keeps lazy-Grants 1 (codes "UTF-8") (codes "latin1") 0 none
      small_heap small_heap-IsValid (root 1 refl, (root 0 refl, tt))
