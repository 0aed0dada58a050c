-- ===== src/Eval/Start/Composed.antt =====
-- What holds of the eval target when its first input comes.
use r_oss_fuzz.Base.{◌≡◌, some, codes}
use r_oss_fuzz.Common.Startup.{Environ}
use r_oss_fuzz.Common.Startup.Laws.{defaulted}
use r_oss_fuzz.Eval.Start.{r_max_vsize, eval_environ}

-- The byte-code compiler of R does not run by itself, no package is attached, and the vector heap has a
-- size.
abbrev pub IsPlain : Environ → Type 0
IsPlain e =
    (eval_environ e (codes "R_ENABLE_JIT") ≡ some (codes "0"))
    × (eval_environ e (codes "R_DEFAULT_PACKAGES") ≡ some (codes "NULL"))
    × (eval_environ e (codes "R_VSIZE") ≡ defaulted (e (codes "R_VSIZE")) (some r_max_vsize))
