-- ===== src/Tests/Starts.antt =====
-- The start of R and the table of labels at concrete inputs.
use r_oss_fuzz.Base.{
  suc, Bytes, ℕ, true, false, Option, none, some, List, [], ◌∷◌, codes, length, ◌≡◌, ◌≤◌, ◌⊎◌, refl,
  arith,
}
use r_oss_fuzz.Common.Startup.{Machine, Rstart, Call, fuzz_init_r, home_of}
use r_oss_fuzz.Common.Startup.Laws.{Started, Left, fuzz_init_r-Started}
use r_oss_fuzz.Common.Driver.{Results, with_info, read_timeout}
use r_oss_fuzz.Common.Driver.Wraps.{IsWrapped, before_wrap}
use r_oss_fuzz.Common.Driver.Inputs.{Target, Process, Tested, test_all, test_all-Sound}
use r_oss_fuzz.Common.Labels.Table.{Printer, Label, max_labels, fuzz_label_calls, fuzz_label_enter}
use r_oss_fuzz.Common.Labels.Table.Registers.{has, asks, IsDistinct}
use r_oss_fuzz.Common.Labels.Table.Prints.{IsPrinter}
use r_oss_fuzz.Common.Labels.Table.Finds.{ids, IsEntered, fuzz_label_calls-Finds}

-- R overwrites the start of the stack and its limit when it starts.
abbrev quiet_start : Rstart
quiet_start = record {
  initialize_r = λ m. record m { stack_start = 7; stack_limit = 8 };
  setup_main_loop = λ m. record m { stack_limit = 9 };
  suppress_warnings = λ m. m;
}

abbrev bare_machine : Machine
bare_machine = record {
  environ = λ n. none;
  stack_start = 0;
  stack_limit = 0;
  signal_handlers = true;
  interactive = false;
}

home_of_test : home_of (some (codes "/out/fuzz_eval")) ≡ some (codes "/out/r-install/lib/R")
unfolding home_of
home_of_test = refl

fuzz_init_r-Started_example :
    (fuzz_init_r quiet_start (codes "1Gb") false (some (codes "/out/f")) 5 bare_machine ≡ none)
    × ((calls : List Call) × (d : Machine) × (fuzz_init_r quiet_start
            (codes "1Gb")
            true
            (some (codes "/out/f"))
            5
            bare_machine
          ≡ some (calls, d))
        × Started (codes "1Gb") (some (codes "/out/f")) 5 bare_machine calls
        × Left quiet_start calls d)
fuzz_init_r-Started_example =
    fuzz_init_r-Started quiet_start (codes "1Gb") (some (codes "/out/f")) 5 bare_machine

-- One line for each call, and one digit for each number.
abbrev one_line : Printer
one_line = record {
  deparse = λ c. some (codes "f(x)" ∷ []);
  decimal = λ k. codes "1";
  memory = λ k. true;
}

one_line-IsPrinter : IsPrinter one_line
one_line-IsPrinter = record {
  remembers = λ k. refl;
  digits = λ k. omega arith;
  lines = λ c. (omega arith, tt);
}

-- The second slot has no call, and the third one that of the first.
abbrev three_slots : List (Option ℕ)
three_slots = some 40 ∷ none ∷ some 40 ∷ []

fuzz_label_calls-Finds_example :
    (t : List Label) × (fuzz_label_calls one_line 0 3 three_slots [] ≡ some t)
    × (length (ids t) ≤ max_labels)
    × IsDistinct (ids t)
    × ((length (ids t) ≡ max_labels) ⊎ (has 40 (ids t) ≡ asks 40 three_slots))
    × IsEntered 40 (ids t) (fuzz_label_enter 40 t)
fuzz_label_calls-Finds_example = fuzz_label_calls-Finds one_line three_slots 40 one_line-IsPrinter

abbrev shared_label : Label
shared_label = record { call = 40; text = codes "==fuzz== slot 1, 1 of 1:\n    f(x)\n" }

fuzz_label_calls_test : fuzz_label_calls one_line 0 3 three_slots [] ≡ some (shared_label ∷ [])
unfolding fuzz_label_calls
fuzz_label_calls_test = refl

-- The dump signal is refused at the first input, and nothing is installed.
abbrev dump_refused : Results
dump_refused = record { reads = true; dumps = false; wraps = true; restores = true }

-- A target that evaluates the call 5 for each input, and counts them.
abbrev counting : Target
counting = record {
  State = ℕ;
  on_start = λ args n. (([], 5) ∷ [], (0, n));
  on_input = λ input n. (5 ∷ [], (0, suc n));
}

abbrev five : Label
five = record { call = 5; text = codes "f(x)" }

abbrev fresh_process : Process counting (five ∷ [])
fresh_process = record {
  timeout = 1200;
  label = some 3;
  signals = before_wrap (with_info 1);
  state = 0;
  log = [];
}

abbrev two_inputs : List (Results × Bytes)
two_inputs = (dump_refused, []) ∷ (dump_refused, 7 ∷ []) ∷ []

test_all-Sound_example :
    Tested counting
      (five ∷ [])
      two_inputs
      fresh_process
      (test_all counting (five ∷ []) two_inputs fresh_process)
    × ((test_all counting (five ∷ []) two_inputs fresh_process).1.label ≡ none)
    × IsWrapped dump_refused
        (with_info 1)
        (test_all counting (five ∷ []) two_inputs fresh_process).1.signals
test_all-Sound_example =
    test_all-Sound counting (five ∷ []) (with_info 1) dump_refused [] ((dump_refused, 7 ∷ []) ∷ [])
      fresh_process refl

read_timeout_test : read_timeout length (codes "-timeout=25" ∷ codes "-runs=1" ∷ []) 1200 ≡ 2
unfolding read_timeout
read_timeout_test = refl
