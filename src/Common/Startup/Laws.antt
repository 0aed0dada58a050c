-- ===== src/Common/Startup/Laws.antt =====
-- What R finds at its start in a target.
use r_oss_fuzz.Base.{
  ◌&&◌, arith, refl, sym, ap, ◌∙◌, ◌≡◌, ℕ, ◌-◌, ◌^◌, Bool, true, false, Option, none, some, List,
  [], ◌∷◌, Bytes, codes, if◌then◌else◌, inl, inr, Bool-cases,
}
use r_oss_fuzz.Host.Call.{same_text, same_text-eq}
use r_oss_fuzz.Common.Startup.{
  Environ, setenv, setenv_if_unset, home_of, fuzz_set_r_home, fuzz_set_vsize_limit, Machine, Rstart,
  Call, initializes, loops, suppresses, fuzz_init_r,
}

-- A value of the environment stands; a name without one has a value by default, or none.
abbrev pub defaulted : Option Bytes → Option Bytes → Option Bytes
defaulted none default = default
defaulted (some v) default = some v

abbrev pub only_at : Bytes → Option Bytes → Bytes → Option Bytes
only_at name v n = if same_text n name then v else none

defaulted-none : (o : Option Bytes) → o ≡ defaulted o none
defaulted-none none = refl
defaulted-none (some v) = refl

-- A name gets a value where it has none; `old` is the value of the name that is set.
put-defaulted :
    (b : Bool) (own old v : Option Bytes)
    → (b ≡ true → own ≡ old)
    → elim old as (λ o. Option Bytes) [
      | none ↦ elim v as (λ o. Option Bytes) [ none ↦ own | some x ↦ if b then some x else own ]
      | some w ↦ own
    ]
      ≡ defaulted own (if b then v else none)
put-defaulted true own none none h = defaulted-none own
put-defaulted true own none (some x) h = rw (h refl) refl
put-defaulted true own (some w) v h = rw (h refl) refl
put-defaulted false own none none h = defaulted-none own
put-defaulted false own none (some x) h = defaulted-none own
put-defaulted false own (some w) v h = defaulted-none own

-- The setting of a name that has no value yet, where there is one to set.
abbrev pub put : Bytes → Option Bytes → Option Bytes → Environ → Environ
put name v old e = elim old as (λ o. Environ) [
  | none ↦ elim v as (λ o. Environ) [ none ↦ e | some x ↦ setenv name x e ]
  | some w ↦ e
]

put_at :
    (e : Environ) (name : Bytes) (old v : Option Bytes) (n : Bytes)
    → put name v old e n ≡ elim old as (λ o. Option Bytes) [
      | none ↦ elim v as (λ o. Option Bytes) [
        | none ↦ e n
        | some x ↦ if same_text n name then some x else e n
      ]
      | some w ↦ e n
    ]
put_at e name none none n = refl
put_at e name none (some x) n = refl
put_at e name (some w) v n = refl

pub put_lem :
    (name : Bytes) (v : Option Bytes) (e : Environ) (n : Bytes)
    → put name v (e name) e n ≡ defaulted (e n) (only_at name v n)
put_lem name v e n =
    put_at e name (e name) v n
    ∙ put-defaulted (same_text n name) (e n) (e name) v (λ t. ap e (same_text-eq n name t))

fuzz_set_r_home_lem :
    (exe : Option Bytes) (e : Environ) (n : Bytes)
    → fuzz_set_r_home exe e n ≡ defaulted (e n) (only_at (codes "R_HOME") (home_of exe) n)
unfolding fuzz_set_r_home
fuzz_set_r_home_lem exe = put_lem (codes "R_HOME") (home_of exe)

-- The names that the start gives a value, where the environment has none.
unfoldable pub startup_default : Bytes → Option Bytes → Bytes → Option Bytes
startup_default vsize exe n =
    if same_text n (codes "R_HOME")
    then home_of exe
    else if same_text n (codes "R_MAX_VSIZE")
    then some vsize
    else if same_text n (codes "_R_GC_FAIL_ON_ERROR_")
    then some (codes "yes")
    else none

apart_names : (a b n : Bytes) → same_text a b ≡ false → (same_text n a && same_text n b) ≡ false
apart_names a b n h = elim (Bool-cases (same_text n a)) [
  | inr e ↦ ground arith
  | inl e ↦ elim (Bool-cases (same_text n b)) [
    | inr f ↦ ground arith
    | inl f ↦ let k = ap (λ x. same_text x b) (sym (same_text-eq n a e)) ∙ f in ground arith
  ]
]

first_of_three :
    (a b c : Bool) (own u v w : Option Bytes)
    → (a && b) ≡ false
    → (a && c) ≡ false
    → (b && c) ≡ false
    → defaulted
        (defaulted (defaulted own (if a then u else none)) (if b then v else none))
        (if c then w else none)
      ≡ defaulted own (if a then u else if b then v else if c then w else none)
first_of_three true true c own u v w h k l = ground arith
first_of_three true false true own u v w h k l = ground arith
first_of_three true false false none none v w h k l = refl
first_of_three true false false none (some x) v w h k l = refl
first_of_three true false false (some y) u v w h k l = refl
first_of_three false true true own u v w h k l = ground arith
first_of_three false true false none u none w h k l = refl
first_of_three false true false none u (some x) w h k l = refl
first_of_three false true false (some y) u v w h k l = refl
first_of_three false false true none u v w h k l = refl
first_of_three false false true (some y) u v w h k l = refl
first_of_three false false false none u v w h k l = refl
first_of_three false false false (some y) u v w h k l = refl

startup-defaults :
    (vsize : Bytes) (exe : Option Bytes) (own : Option Bytes) (n : Bytes)
    → defaulted
        (defaulted
          (defaulted own (only_at (codes "R_HOME") (home_of exe) n))
          (only_at (codes "R_MAX_VSIZE") (some vsize) n))
        (only_at (codes "_R_GC_FAIL_ON_ERROR_") (some (codes "yes")) n)
      ≡ defaulted own (startup_default vsize exe n)
unfolding startup_default same_text
startup-defaults vsize exe own n =
    first_of_three _ _ _ own (home_of exe) (some vsize) (some (codes "yes"))
      (apart_names (codes "R_HOME") (codes "R_MAX_VSIZE") n refl)
      (apart_names (codes "R_HOME") (codes "_R_GC_FAIL_ON_ERROR_") n refl)
      (apart_names (codes "R_MAX_VSIZE") (codes "_R_GC_FAIL_ON_ERROR_") n refl)

abbrev startup : Bytes → Option Bytes → Environ → Environ
startup vsize exe e =
    setenv_if_unset (codes "_R_GC_FAIL_ON_ERROR_") (codes "yes")
      (fuzz_set_vsize_limit vsize (fuzz_set_r_home exe e))

startup_lem :
    (vsize : Bytes) (exe : Option Bytes) (e : Environ) (n : Bytes)
    → startup vsize exe e n ≡ defaulted (e n) (startup_default vsize exe n)
unfolding fuzz_set_vsize_limit
startup_lem vsize exe e n =
    put_lem (codes "_R_GC_FAIL_ON_ERROR_") (some (codes "yes"))
      (fuzz_set_vsize_limit vsize (fuzz_set_r_home exe e)) n
    ∙ ap (λ o. defaulted o (only_at (codes "_R_GC_FAIL_ON_ERROR_") (some (codes "yes")) n))
        (put_lem (codes "R_MAX_VSIZE") (some vsize) (fuzz_set_r_home exe e) n
          ∙ ap (λ o. defaulted o (only_at (codes "R_MAX_VSIZE") (some vsize) n))
              (fuzz_set_r_home_lem exe e n))
    ∙ startup-defaults vsize exe (e n) n

-- The environment when R is initialized, then the globals of R when it is, when its main loop is set
-- up, and behind that.
unfoldable pub Started : Bytes → Option Bytes → ℕ → Machine → List Call → Type 0
unfolding startup_default
Started vsize exe top m (initializes a ∷ loops b ∷ suppresses c ∷ []) =
    ((n : Bytes) → a.environ n ≡ defaulted (m.environ n) (startup_default vsize exe n))
    × (a.signal_handlers ≡ false)
    × (b.stack_start ≡ top)
    × (b.stack_limit ≡ 2 ^ 64 - 1)
    × (b.interactive ≡ true)
    × (c.stack_limit ≡ 1020054732)
Started vsize exe top m calls = ⊥

-- Behind the last call of R, the machine is as that call left it.
unfoldable pub Left : Rstart → List Call → Machine → Type 0
Left r (initializes a ∷ loops b ∷ suppresses c ∷ []) d = d ≡ r.suppress_warnings c
Left r calls d = ⊥

-- `fuzz_init_r` stops the process outside of the R thread. On it, for all that R does to its own globals:
-- R is initialized in an environment where every value stands that was there, and `R_HOME`,
-- `R_MAX_VSIZE` and `_R_GC_FAIL_ON_ERROR_` have their defaults where they had none, and without its
-- signal handlers; it loads its base with the stack of the R thread and the check of it off; the limit
-- is 95 per cent of 2^30 bytes when it suppresses its warnings; and it is then left as that call leaves it.
pub fuzz_init_r-Started :
    (r : Rstart) (vsize : Bytes) (exe : Option Bytes) (top : ℕ) (m : Machine)
    → (fuzz_init_r r vsize false exe top m ≡ none)
      × ((calls : List Call) × (d : Machine) × (fuzz_init_r r vsize true exe top m
            ≡ some (calls, d))
          × Started vsize exe top m calls
          × Left r calls d)
unfolding fuzz_init_r Started Left
fuzz_init_r-Started r vsize exe top m =
    (refl, (_, _, refl, (startup_lem vsize exe m.environ, refl, refl, refl, refl, refl), refl))
