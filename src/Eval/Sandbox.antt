-- ===== src/Eval/Sandbox.antt =====
-- The environments of harnesses/eval.c that an input is evaluated in, as `fuzz_target_init` builds
-- them: the frame of the allowlist, a frame below it for the wrapper of `:`, and the enclosure of
-- that wrapper. R is a parameter: what it finds under a name, and what its evaluator makes of a source.
pub mod Laws
pub mod Starts
use Prim.Native.String.{String}
use r_oss_fuzz.Base.{
  ℕ, Bool, true, false, Option, none, some, List, [], ◌∷◌, ◌++◌, map, Bytes, codes, ◌>>=◌,
  if◌then◌else◌,
}
use r_oss_fuzz.Host.Call.{same_text}

abbrev pub eval_primitives : List String
eval_primitives =
    "{" ∷ "(" ∷ "if" ∷ "for" ∷ "while" ∷ "repeat" ∷ "break" ∷ "next" ∷ "function" ∷ "return" ∷ "<-"
    ∷ "=" ∷ "+" ∷ "-" ∷ "*" ∷ "/" ∷ "^" ∷ "%%" ∷ "%/%" ∷ "==" ∷ "!=" ∷ "<" ∷ "<=" ∷ ">" ∷ ">=" ∷ "!"
    ∷ "&" ∷ "|" ∷ "&&" ∷ "||" ∷ "c" ∷ "list" ∷ "[" ∷ "[[" ∷ "$" ∷ "[<-" ∷ "[[<-" ∷ "$<-" ∷ "length"
    ∷ "is.null" ∷ "is.logical" ∷ "is.integer" ∷ "is.double" ∷ "is.complex" ∷ "is.character"
    ∷ "is.list" ∷ "is.na" ∷ "is.nan" ∷ "is.finite" ∷ "is.infinite" ∷ "as.integer" ∷ "as.double"
    ∷ "as.logical" ∷ "as.character" ∷ "as.complex" ∷ "as.raw" ∷ "abs" ∷ "sqrt" ∷ "floor" ∷ "ceiling"
    ∷ "trunc" ∷ "sum" ∷ "prod" ∷ "min" ∷ "max" ∷ "any" ∷ "all" ∷ "invisible" ∷ []

abbrev pub eval_wrapper_primitives : List String
eval_wrapper_primitives =
    "function" ∷ "{" ∷ "if" ∷ "&&" ∷ ">=" ∷ "-" ∷ "<-" ∷ "length" ∷ "[[" ∷ "as.double" ∷ "is.finite"
    ∷ "abs" ∷ ".Internal" ∷ []

abbrev pub eval_colon_source : String
eval_colon_source =
    "function(from, to) {\n    if (length(from) >= 1L && length(to) >= 1L) {\n        f <- as.double(from[[1L]])\n        t <- as.double(to[[1L]])\n        if (is.finite(f) && is.finite(t) && abs(t - f) >= 1e6)\n            .Internal(stop(TRUE, \"sequence too long for the eval target\"))\n    }\n    .colon(from, to)\n}"

abbrev pub eval_compiler_setup : String
eval_compiler_setup =
    "local({\n    ns <- asNamespace(\"compiler\")\n    isBaseVar <- function(var, cntxt) {\n        info <- getInlineInfo(var, cntxt)\n        !is.null(info) &&\n            (identical(info$frame, .BaseNamespaceEnv) ||\n             identical(info$frame, baseenv()) ||\n             packFrameName(info$frame) == \"base\")\n    }\n    environment(isBaseVar) <- ns\n    unlockBinding(\"isBaseVar\", ns)\n    assign(\"isBaseVar\", isBaseVar, envir = ns)\n    lockBinding(\"isBaseVar\", ns)\n    compiler::compile\n})"

-- One frame, with the last definition first, and its attribute "name".
pub record Frame {ℓ} (V : Type ℓ) : Type ℓ where
  pub vars : List (Bytes × V)
  pub label : Option String
  pub locked : Bool

-- What R finds under the name of a function in its base environment, whether that is a primitive, how
-- many expressions a source has (`none` where it does not parse), and what their evaluation in an
-- environment gives (`none` for an error). An environment is its frames, the innermost first;
-- `none` in its place is R's base environment.
pub record Rbase : Type 1 where
  pub Value : Type 0
  pub find_fun : Bytes → Option Value
  pub is_primitive : Value → Bool
  pub Expr : Type 0
  pub parse : String → Option (List Expr)
  pub try_eval : Expr → Option (List (Frame Value)) → Option Value

abbrev pub find_var {ℓ} : {V : Type ℓ} → Bytes → List (Bytes × V) → Option V
find_var name [] = none
find_var name ((key, v) ∷ l) =
    let rest = find_var name l in if same_text name key then some v else rest

-- The lookup of a name, through the enclosing frames.
abbrev pub lookup {ℓ} : {V : Type ℓ} → Bytes → List (Frame V) → Option V
lookup name [] = none
lookup name (f ∷ l) =
    let rest = lookup name l in elim (find_var name f.vars) [ none ↦ rest | some v ↦ some v ]

abbrev pub new_env {ℓ} : {V : Type ℓ} → Frame V
new_env = record { vars = []; label = none; locked = false }

abbrev pub lock_environment {ℓ} : {V : Type ℓ} → Frame V → Frame V
lock_environment f = record f { locked = true }

-- `Rf_defineVar`, an error in a locked frame.
abbrev pub define_var {ℓ} : {V : Type ℓ} → Bytes → V → Frame V → Option (Frame V)
define_var name v f = if f.locked then none else some (record f { vars = (name, v) ∷ f.vars })

module _ (r : Rbase) where
  -- `none` is `abort()`, or an error of R without a context to return to.
  unfoldable pub eval_primitive : Bytes → Option r.Value
  eval_primitive name = do v ← r.find_fun name; if r.is_primitive v then some v else none

  unfoldable pub eval_import_primitives : List Bytes → Frame r.Value → Option (Frame r.Value)
  unfolding eval_primitive
  eval_import_primitives [] env = some env
  eval_import_primitives (name ∷ names) env = do
    v ← eval_primitive name
    next ← define_var name v env
    eval_import_primitives names next

  -- `PARSE_OK` and one expression.
  abbrev only_one : List r.Expr → Option r.Expr
  only_one (e ∷ []) = some e
  only_one l = none

  unfoldable pub eval_run_init : String → Option (List (Frame r.Value)) → Option r.Value
  eval_run_init source env = do parsed ← r.parse source; e ← only_one parsed; r.try_eval e env

  -- `eval_builtins`, `eval_wrappers` and `eval_compile_fn`.
  pub record Setup : Type 0 where
    pub builtins : Frame r.Value
    pub wrappers : Frame r.Value
    pub compile_fn : r.Value

  -- `fuzz_target_init` from the first `R_NewEnv` to `R_PreserveObject`.
  unfoldable pub build : Option Setup
  unfolding eval_import_primitives eval_run_init
  build = do
    filled ←
        eval_import_primitives (map codes eval_primitives)
          (record new_env { label = some "package:base" })
    private_env ← eval_import_primitives (map codes eval_wrapper_primitives) new_env
    raw_colon ← eval_primitive (codes ":")
    private_full ← define_var (codes ".colon") raw_colon private_env
    colon ← eval_run_init eval_colon_source (some (lock_environment private_full ∷ []))
    wrappers ← define_var (codes ":") colon new_env
    compile_fn ← eval_run_init eval_compiler_setup none
    some (record {
      builtins = lock_environment filled;
      wrappers = lock_environment wrappers;
      compile_fn = compile_fn;
    })

  -- `R_NewEnv(eval_wrappers, TRUE, 29)`: the environment of one input, from the innermost frame on.
  abbrev pub input_env : Setup → List (Frame r.Value)
  input_env s = new_env ∷ s.wrappers ∷ s.builtins ∷ []
