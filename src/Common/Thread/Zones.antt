-- ===== src/Common/Thread/Zones.antt =====
-- What the positions in `fuzz_run_on_r_thread` and `fuzz_r_thread_main` (harnesses/common.h) mean for
-- the job that one thread hands to the other.
use mathlib.Core.Path.{subst}
use r_oss_fuzz.Base.{◌||◌, ◌&&◌, if◌then◌else◌, ℕ, suc, Bool, true, false, Option, none, some, ◌≡◌}
use r_oss_fuzz.Common.Thread.{
  Shared, Main, offer, check, waiting, release, settle, arm, Worker, look, unlock, stamp, mark,
  enter, inside, leave, unmark, relock, clear,
}

-- Before the job is offered, while the main thread waits for it, and behind the wait.
pub data Zone : Type 0 where
  outside calling returning : Zone

-- Without a job, with a job that has not been run, and with one that has been.
pub data Phase : Type 0 where
  resting carrying finished : Phase

unfoldable pub zone : Main → Zone
zone check = calling
zone waiting = calling
zone release = returning
zone settle = returning
zone arm = returning
zone p = outside

unfoldable pub phase : Worker → Phase
phase unlock = carrying
phase stamp = carrying
phase mark = carrying
phase enter = carrying
phase inside = carrying
phase leave = finished
phase unmark = finished
phase relock = finished
phase clear = finished
phase w = resting

-- The main thread, or the R thread, owns the mutex.
unfoldable pub main_owns : Main → Bool
main_owns offer = true
main_owns check = true
main_owns release = true
main_owns p = false

unfoldable pub r_owns : Worker → Bool
r_owns look = true
r_owns unlock = true
r_owns clear = true
r_owns w = false

-- The R thread is between the two stores of `running`.
unfoldable pub is_running : Worker → Bool
is_running enter = true
is_running inside = true
is_running leave = true
is_running unmark = true
is_running w = false

-- The six ways in which the two threads stand to the job of a call: in `held` is the pointer that the
-- R thread has read, `calls` is the number of the call, and `ran` the number of jobs that have been run.
pub data Handoff (job : Option ℕ) (held ran calls : ℕ) : Zone → Phase → Type 0 where
  apart : job ≡ none → ran ≡ calls → Handoff job held ran calls outside resting
  offered : job ≡ some calls → ran ≡ calls → Handoff job held ran calls calling resting
  carried :
      job ≡ some calls → held ≡ calls → ran ≡ calls → Handoff job held ran calls calling carrying
  performed :
      job ≡ some calls
      → held ≡ calls
      → ran ≡ suc calls
      → Handoff job held ran calls calling finished
  cleared : job ≡ none → ran ≡ suc calls → Handoff job held ran calls calling resting
  back : job ≡ none → ran ≡ suc calls → Handoff job held ran calls returning resting

abbrev pub IsHanded : Shared → Zone → Phase → Type 0
IsHanded m = Handoff m.job m.held m.ran m.calls

-- A property of the result, where there is one.
abbrev pub After {ℓ κ} : {A : Type ℓ} → (A → Type κ) → Option A → Type κ
After P none = Unit
After P (some a) = P a

pub After-some {ℓ κ} :
    {A : Type ℓ} (P : A → Type κ) (o : Option A) (a : A) → o ≡ some a → After P o → P a
After-some P o a e h = subst (After P) e h

pub After-if {ℓ κ} :
    {A : Type ℓ} (P : A → Type κ) (b : Bool) (o q : Option A)
    → After P o
    → After P q
    → After P (if b then o else q)
After-if P true o q h k = h
After-if P false o q h k = k

-- A thread that waits for the mutex has nothing to show.
pub After-wait {ℓ κ} :
    {A : Type ℓ} (P : A → Type κ) (b : Bool) (a : A) → P a → After P (if b then none else some a)
After-wait P b a h = After-if P b none (some a) tt h

pub After-wait_two {ℓ κ} :
    {A : Type ℓ} (P : A → Type κ) (b c : Bool) (a : A)
    → P a
    → After P (if b then none else if c then none else some a)
After-wait_two P b c a h = After-if P b none _ tt (After-wait P c a h)

-- The mutex is locked by exactly the thread that owns it.
abbrev pub IsExclusive : Bool → Bool → Bool → Type 0
IsExclusive locked a b = (locked ≡ (a || b)) × ((a && b) ≡ false)
