-- ===== src/Tests/Sandboxes.antt =====
-- The environments of the eval target, built over a small R.
use Prim.Native.String.{String}
use r_oss_fuzz.Base.{false, ℕ, true, Option, none, some, [], ◌∷◌, codes, ◌≡◌, refl, if◌then◌else◌}
use r_oss_fuzz.Eval.Sandbox.{Rbase, build, input_env, lookup}
use r_oss_fuzz.Eval.Tree.{Tree}
use r_oss_fuzz.Eval.Budget.{Rhost, refused, declined, finished}
use r_oss_fuzz.Common.Startup.{Rstart, Machine}
use r_oss_fuzz.Host.Call.{same_text}

-- Every name has a primitive, but for `ls`, and the two sources make the values 1.
abbrev small_base : Rbase
small_base = record {
  Value = ℕ;
  find_fun = λ name. if same_text name (codes "ls") then none else some 0;
  is_primitive = λ v. true;
  Expr = ℕ;
  parse = λ s. some (0 ∷ []);
  try_eval = λ e env. some 1;
}

-- An R that starts without a change to its globals, and parses nothing.
abbrev still_start : Rstart
still_start = record { initialize_r = λ m. m; setup_main_loop = λ m. m; suppress_warnings = λ m. m }

abbrev no_parser : Rhost
no_parser = record {
  Code = Tree;
  parse = λ s. refused;
  new_env = λ s. true;
  source = λ x. x;
  compile = λ b x. (b, declined);
  evaluate = λ b c. (b, finished);
}

abbrev empty_machine : Machine
empty_machine = record {
  environ = λ n. none;
  stack_start = 0;
  stack_limit = 0;
  signal_handlers = true;
  interactive = false;
}

-- The environment of an input, and what it finds under a name.
abbrev find_in : String → Option (Option ℕ)
find_in name = elim (build small_base) [
  | none ↦ none
  | some s ↦ some (lookup (codes name) (input_env small_base s))
]

find_colon_test : find_in ":" ≡ some (some 1)
unfolding build same_text
find_colon_test = refl

find_system_test : find_in "system" ≡ some none
unfolding build same_text
find_system_test = refl
