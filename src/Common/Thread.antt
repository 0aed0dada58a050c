-- ===== src/Common/Thread.antt =====
-- The two threads of harnesses/common.h, as moves on the memory that they share: the main thread in
-- `fuzz_run_on_r_thread`, and the R thread in `fuzz_r_thread_main`. Each move is one access of shared
-- memory, or one call of the pthread library. The mutex and the condition variable are those of
-- POSIX: a lock waits for the owner, and a broadcast wakes every waiter. A job is named by the number of the call that made it.
pub mod Handlers
pub mod System
pub mod Zones
pub mod Keeps
pub mod Facts
pub mod Forks
pub mod Ends
pub mod Safety
pub mod Returns
pub mod Rank
pub mod Progress
pub mod Sound
pub mod Invariant
pub mod Alarms
pub mod Signals
pub mod Late
pub mod Moves
pub mod Flags
use r_oss_fuzz.Base.{
  ℕ, suc, ◌+◌, ◌%◌, ◌^◌, Bool, true, false, Option, none, some, ◌==◌, if◌then◌else◌,
}

-- `fuzz_r_thread`, `fuzz_alarm` and `fuzz_label_current`. Times are nanoseconds of CLOCK_REALTIME, and
-- `now` is what the clock shows. `main_waits` and `r_waits` are the waiters on `cond`. `calls` counts
-- the calls of `fuzz_run_on_r_thread` that have returned, and `ran` the jobs that have been run.
pub record Shared : Type 0 where
  pub started : Bool
  pub job : Option ℕ
  pub locked : Bool
  pub main_waits : Bool
  pub r_waits : Bool
  pub now : ℕ
  pub since : ℕ  -- fuzz_alarm.started
  pub armed : ℕ
  pub running : Bool
  pub finishing : Bool
  pub input : ℕ
  pub requested : ℕ
  pub done : ℕ
  pub label : Option ℕ
  pub held : ℕ  -- the pointer that the R thread has read from `job`
  pub calls : ℕ
  pub ran : ℕ

-- Where the main thread is: outside, at the test of `started`, at the two numberings, at the lock, at
-- the store of `job`, at the test of the loop, inside of `pthread_cond_wait`, at the unlock, and at the
-- two stores that follow. `created` is behind `pthread_create`, at the store of `started`.
pub data Main : Type 0 where
  idle start created number renumber acquire offer check waiting release settle arm : Main

-- Where the R thread is. `absent` is before it is created, or behind a fork. `asleep` is inside of
-- `pthread_cond_wait`.
pub data Worker : Type 0 where
  absent lock look asleep unlock stamp mark enter inside leave unmark relock clear : Worker

-- `none` is a thread that waits, for the mutex or for a broadcast, or one that has a thread to create.
unfoldable pub main_move : Main → Shared → Option (Main × Shared)
main_move idle m = some (start, m)
main_move start m = if m.started then some (number, m) else none
main_move created m = some (number, record m { started = true })
main_move number m =
    let n = (m.input + 1) % 2 ^ 32 in
    some (if n == 0 then renumber else acquire, record m { input = n })
main_move renumber m = some (acquire, record m { input = (m.input + 1) % 2 ^ 32 })
main_move acquire m = if m.locked then none else some (offer, record m { locked = true })
main_move offer m =
    some (check, record m { job = some m.calls; main_waits = false; r_waits = false })
main_move check m = elim m.job [
  | none ↦ some (release, m)
  | some k ↦ some (waiting, record m { locked = false; main_waits = true })
]
main_move waiting m =
    if m.main_waits
    then none
    else if m.locked
    then none
    else some (check, record m { locked = true })
main_move release m = some (settle, record m { locked = false })
main_move settle m = some (arm, record m { finishing = false })
main_move arm m = some (idle, record m { armed = m.now; calls = suc m.calls })

-- Job 0 is that of `LLVMFuzzerInitialize`, which comes first: `fuzz_do_target_init` has no store to the
-- label. `fuzz_do_target_run` has one on either side of the target.
abbrev pub unlabel : Shared → Option ℕ
unlabel m = if m.held == 0 then m.label else none

-- `enter` and `leave` are on either side of the target, which is `inside`.
unfoldable pub r_move : Worker → Shared → Option (Worker × Shared)
r_move absent m = none
r_move lock m = if m.locked then none else some (look, record m { locked = true })
r_move look m = elim m.job [
  | none ↦ some (asleep, record m { locked = false; r_waits = true })
  | some k ↦ some (unlock, record m { held = k })
]
r_move asleep m =
    if m.r_waits then none else if m.locked then none else some (look, record m { locked = true })
r_move unlock m = some (stamp, record m { locked = false })
r_move stamp m = some (mark, record m { since = m.now })
r_move mark m = some (enter, record m { running = true })
r_move enter m = some (inside, record m { label = unlabel m })
r_move inside m = some (leave, record m { ran = suc m.ran })
r_move leave m = some (unmark, record m { label = unlabel m })
r_move unmark m = some (relock, record m { running = false })
r_move relock m = if m.locked then none else some (clear, record m { locked = true })
r_move clear m = some (look, record m { job = none; main_waits = false; r_waits = false })
