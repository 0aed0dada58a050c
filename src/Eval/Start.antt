-- ===== src/Eval/Start.antt =====
-- The start of the eval target, `fuzz_target_init` of harnesses/eval.c: the variables that it sets, the
-- start of R, the environments of the inputs, and the warm-up. The parts are those of Common.Startup,
-- Eval.Sandbox and Eval.Budget, each with its own view of R.
pub mod Composed
use Prim.Native.String.{String}
use r_oss_fuzz.Base.{ℕ, true, Option, none, some, List, Bytes, codes, ◌>>=◌}
use r_oss_fuzz.Common.Startup.{Environ, setenv, setenv_if_unset, Machine, Rstart, Call, fuzz_init_r}
use r_oss_fuzz.Eval.Sandbox.{Rbase, Setup, build}
use r_oss_fuzz.Eval.Budget.{Rhost, Event, eval_run}

-- `FUZZ_R_MAX_VSIZE` of the target.
abbrev pub r_max_vsize : Bytes
r_max_vsize = codes "8Mb"

abbrev pub eval_environ : Environ → Environ
eval_environ e = setenv_if_unset (codes "R_VSIZE") r_max_vsize (
    setenv (codes "R_DEFAULT_PACKAGES") (codes "NULL")
      (setenv (codes "R_ENABLE_JIT") (codes "0") e))

abbrev pub eval_warmup_source : String
eval_warmup_source =
    "f <- function(n) {\n    s <- 0\n    for (i in 1:n) if (i %% 2 == 0) s <- s + i else next\n    s\n}\nx <- c(f(10), 1)\nx[[2]] <- x[1]\ng <- function(...) list(...)\ng(x, repeat break)\n"

-- What the start leaves: what R found in its own, the environments, and what the warm-up evaluated, with
-- `eval_budget` behind it.
pub record Ready (b : Rbase) (h : Rhost) : Type 0 where
  pub calls : List Call
  pub setup : Setup b
  pub warmup : List (Event h)
  pub budget : ℕ

-- On the R thread. `none` is `abort()`.
unfoldable pub fuzz_target_init :
    (r : Rstart) (b : Rbase) (h : Rhost) → Option Bytes → ℕ → Machine → Option (Ready b h)
fuzz_target_init r b h exe top m =
    fuzz_init_r r r_max_vsize true exe top (record m { environ = eval_environ m.environ })
    >>= λ started. build b >>= λ s.
        let w = eval_run h (codes eval_warmup_source) 0 in
        some (record { calls = started.0; setup = s; warmup = w.0; budget = w.1 })
