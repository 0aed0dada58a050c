-- ===== src/Tests/Threads/Schedule.antt =====
-- States of the process of harnesses/common.h that a list of choices leads to.
use r_oss_fuzz.Base.{refl, ℕ, zero, suc, List, [], ◌∷◌, Bool, true, false, Option, none, some, ◌≡◌}
use r_oss_fuzz.Common.Thread.{Shared, Main, start, main_move, Worker, inside, r_move}
use r_oss_fuzz.Common.Thread.Handlers.{Alarm, quiet, kill, alarm_move, Dump, off}
use r_oss_fuzz.Common.Thread.System.{
  System, Reach, begin, later, Step, main_runs, spawns, r_runs, labels, ticks, rings, alarm_runs,
  kills, first_system,
}

pub data Choice : Type 0 where
  main_next r_next ring handler answer : Choice
  time name : ℕ → Choice

pub record Scene (timeout : ℕ) : Type 0 where
  pub last : System
  pub reached : Reach timeout last

is_quiet : (a : Alarm) → Option (a ≡ quiet)
is_quiet quiet = some refl
is_quiet a = none

is_off : (d : Dump) → Option (d ≡ off)
is_off off = some refl
is_off d = none

is_start : (p : Main) → Option (p ≡ start)
is_start start = some refl
is_start p = none

is_inside : (w : Worker) → Option (w ≡ inside)
is_inside inside = some refl
is_inside w = none

is_kill : (a : Alarm) → Option ((i : ℕ) × (a ≡ kill i))
is_kill (kill i) = some (i, refl)
is_kill a = none

is_not : (b : Bool) → Option (b ≡ false)
is_not false = some refl
is_not true = none

do_step : {timeout : ℕ} (c : Scene timeout) {t : System} → Step timeout c.last t → Scene timeout
do_step c h = record { last = _; reached = later c.reached h }

by_main :
    {timeout : ℕ} (c : Scene timeout)
    → c.last.alarm ≡ quiet
    → (o : Option (Main × Shared)) → main_move c.last.main c.last.mem ≡ o
    → Scene timeout
by_main c q (some (p, m)) e = do_step c (main_runs p m q e)
by_main c q none e = elim (is_start c.last.main) [
  | none ↦ c
  | some f ↦ elim (is_not c.last.mem.started) [ none ↦ c | some g ↦ do_step c (spawns q f g) ]
]

by_r :
    {timeout : ℕ} (c : Scene timeout)
    → c.last.dump ≡ off
    → (o : Option (Worker × Shared)) → r_move c.last.worker c.last.mem ≡ o
    → Scene timeout
by_r c q (some (w, m)) e = do_step c (r_runs w m q e)
by_r c q none e = c

by_alarm :
    {timeout : ℕ} (c : Scene timeout)
    → (o : Option (Alarm × Shared)) → alarm_move timeout c.last.alarm c.last.mem ≡ o
    → Scene timeout
by_alarm c (some (a, m)) e = do_step c (alarm_runs a m e)
by_alarm c none e = c

choose : {timeout : ℕ} (c : Scene timeout) → Choice → Scene timeout
unfolding is_quiet is_off is_start is_not is_inside is_kill by_main by_r by_alarm do_step
choose c main_next = elim (is_quiet c.last.alarm) [ none ↦ c | some q ↦ by_main c q _ refl ]
choose c r_next = elim (is_off c.last.dump) [ none ↦ c | some q ↦ by_r c q _ refl ]
choose c ring = elim (is_quiet c.last.alarm) [ none ↦ c | some q ↦ do_step c (rings q) ]
choose c handler = by_alarm c _ refl
choose c answer = elim (is_kill c.last.alarm) [ none ↦ c | some (i, e) ↦ do_step c (kills i e) ]
choose c (time d) = do_step c (ticks d)
choose c (name k) = elim (is_off c.last.dump) [
  | none ↦ c
  | some q ↦ elim (is_inside c.last.worker) [ none ↦ c | some e ↦ do_step c (labels (some k) q e) ]
]

choose_all : {timeout : ℕ} (c : Scene timeout) → List Choice → Scene timeout
unfolding choose
choose_all c [] = c
choose_all c (x ∷ xs) = choose_all (choose c x) xs

unfoldable pub scene : (timeout now : ℕ) → List Choice → Scene timeout
unfolding choose_all
scene timeout now = choose_all (record { last = first_system now; reached = begin now })

abbrev pub times {ℓ} : {A : Type ℓ} → ℕ → A → List A
times zero a = []
times (suc n) a = a ∷ times n a
