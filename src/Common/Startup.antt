-- ===== src/Common/Startup.antt =====
-- The start of R in harnesses/common.h: `fuzz_set_r_home`, `fuzz_set_vsize_limit` and `fuzz_init_r`. R's
-- own start is a parameter, in its two halves; so is what `readlink` gives for /proc/self/exe.
pub mod Laws
use r_oss_fuzz.Base.{
  ℕ, ◌-◌, ◌*◌, ◌/◌, ◌^◌, Bool, true, false, Option, none, some, List, [], ◌∷◌, ◌++◌, Bytes, codes,
  length, take, ◌==◌, if◌then◌else◌,
}
use r_oss_fuzz.Host.Call.{same_text}

-- What `getenv` gives under each name.
abbrev pub Environ : Type 0
Environ = Bytes → Option Bytes

abbrev pub setenv : Bytes → Bytes → Environ → Environ
setenv name v e = λ n. if same_text n name then some v else e n

-- `if (getenv(name) == NULL) setenv(name, v, 1);`
abbrev pub setenv_if_unset : Bytes → Bytes → Environ → Environ
setenv_if_unset name v e = elim (e name) [ none ↦ setenv name v e | some w ↦ e ]

abbrev pub path_max : ℕ
path_max = 4096

-- `FUZZ_R_MAX_VSIZE`, where a target does not define its own.
abbrev pub r_max_vsize : Bytes
r_max_vsize = codes "1Gb"

abbrev pub r_stack_size : ℕ
r_stack_size = 2 ^ 30

-- The text in front of the last slash, as `strrchr` and the store of a NUL leave it.
unfoldable pub before_last_slash : Bytes → Option Bytes
before_last_slash [] = none
before_last_slash (c ∷ l) = elim (before_last_slash l) [
  | some d ↦ some (c ∷ d)
  | none ↦ if c == b'/' then some [] else none
]

-- The home that the path of the binary gives: `readlink` and `snprintf` cut at the size of their buffer.
unfoldable pub home_of : Option Bytes → Option Bytes
unfolding before_last_slash
home_of none = none
home_of (some exe) =
    let path = take (path_max - 1) exe in
    if length path == 0 then none else elim (before_last_slash path) [
      | none ↦ none
      | some dir ↦ some (take (path_max - 1) (dir ++ codes "/r-install/lib/R"))
    ]

unfoldable pub fuzz_set_r_home : Option Bytes → Environ → Environ
unfolding home_of
fuzz_set_r_home exe e = elim (e (codes "R_HOME")) [
  | some v ↦ e
  | none ↦ elim (home_of exe) [ none ↦ e | some home ↦ setenv (codes "R_HOME") home e ]
]

unfoldable pub fuzz_set_vsize_limit : Bytes → Environ → Environ
fuzz_set_vsize_limit vsize e = setenv_if_unset (codes "R_MAX_VSIZE") vsize e

-- The environment and the globals of R that `fuzz_init_r` sets.
pub record Machine : Type 0 where
  pub environ : Environ
  pub stack_start : ℕ
  pub stack_limit : ℕ
  pub signal_handlers : Bool
  pub interactive : Bool

pub record Rstart : Type 0 where
  pub initialize_r : Machine → Machine
  pub setup_main_loop : Machine → Machine
  pub suppress_warnings : Machine → Machine

-- The calls of R, each with what it finds.
pub data Call : Type 0 where
  initializes loops suppresses : Machine → Call

-- `none` is `abort()`: the caller is not the R thread.
unfoldable pub fuzz_init_r :
    Rstart → Bytes → Bool → Option Bytes → ℕ → Machine → Option (List Call × Machine)
unfolding fuzz_set_r_home fuzz_set_vsize_limit
fuzz_init_r r vsize false exe stack_top m = none
fuzz_init_r r vsize true exe stack_top m =
    let e =
      setenv_if_unset (codes "_R_GC_FAIL_ON_ERROR_") (codes "yes")
        (fuzz_set_vsize_limit vsize (fuzz_set_r_home exe m.environ)) in
    let ready = record m { environ = e; signal_handlers = false } in
    let half = record (r.initialize_r ready) {
      stack_start = stack_top;
      stack_limit = 2 ^ 64 - 1;
      interactive = true;
    } in
    let whole = record (r.setup_main_loop half) { stack_limit = 95 * r_stack_size / 100 } in
    some (initializes ready ∷ loops half ∷ suppresses whole ∷ [], r.suppress_warnings whole)
