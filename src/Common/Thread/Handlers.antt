-- ===== src/Common/Thread/Handlers.antt =====
-- The two signal handlers of harnesses/common.h, `fuzz_alarm_handler` on the main thread and
-- `fuzz_dump_handler` on the R thread, as moves on the memory of `Common.Thread`; and
-- `fuzz_seconds_since`, their clock.
use r_oss_fuzz.Base.{
  ℕ, suc, ◌+◌, ◌-◌, ◌/◌, ◌%◌, true, Option, none, some, ◌==◌, ltb, leb, if◌then◌else◌,
}
use r_oss_fuzz.Common.Thread.{Shared}

abbrev pub second : ℕ
second = 1000000000

-- `tv_sec` is the quotient and `tv_nsec` the remainder. A moment after the clock's counts as 0 here.
unfoldable pub fuzz_seconds_since : ℕ → ℕ → ℕ
fuzz_seconds_since past now =
    let seconds = now / second - past / second in
    if ltb (now % second) (past % second) then seconds - 1 else seconds

-- Where the handler of SIGALRM is: not running, at the test of `finishing`, of `running` and of the
-- age, at the reading of the clock in the hold, at the test behind it, at the store of `finishing`, at
-- the load of `input`, at the test of `requested`, at `pthread_kill`, in round i of the wait, at its
-- second test, and at the call of libFuzzer's handler.
pub data Alarm : Type 0 where
  quiet entry gate aging hold finish fetch chain : Alarm
  weigh : ℕ → Alarm
  ask kill refuse : ℕ → Alarm
  wait wait_running : ℕ → ℕ → Alarm

abbrev pub rounds : ℕ
rounds = 5000

-- `quiet` moves by the signal, and `kill` by the kernel.
unfoldable pub alarm_move : ℕ → Alarm → Shared → Option (Alarm × Shared)
unfolding fuzz_seconds_since
alarm_move timeout quiet m = none
alarm_move timeout entry m = some (if m.finishing then quiet else gate, m)
alarm_move timeout gate m = some (if m.running then aging else chain, m)
alarm_move timeout aging m =
    some (if leb timeout (fuzz_seconds_since m.armed m.now + 1) then hold else chain, m)
alarm_move timeout hold m = some (weigh (fuzz_seconds_since m.since m.now), m)
alarm_move timeout (weigh age) m =
    some (if m.running then if leb timeout age then fetch else hold else finish, m)
alarm_move timeout finish m = some (quiet, record m { finishing = true })
alarm_move timeout fetch m = some (ask m.input, m)
alarm_move timeout (ask input) m = some (
    if m.requested == input
    then (wait input 0, m)
    else (kill input, record m { requested = input }))
alarm_move timeout (kill input) m = none
alarm_move timeout (refuse input) m = some (wait input 0, record m { done = input })
alarm_move timeout (wait input i) m =
    some
      (if ltb i rounds then if m.done == input then chain else wait_running input i else chain, m)
alarm_move timeout (wait_running input i) m =
    some (if m.running then wait input (suc i) else chain, m)
alarm_move timeout chain m = some (quiet, m)

-- Where the handler of the dump signal is: not running, at the load of `requested`, at the load of the
-- label, at the print of its text and of the stack, and at the store of `done`.
pub data Dump : Type 0 where
  off ready : Dump
  found : ℕ → Dump
  print : ℕ → Option ℕ → Dump
  report : ℕ → Dump

unfoldable pub dump_move : Dump → Shared → Option (Dump × Shared)
dump_move off m = none
dump_move ready m = some (found m.requested, m)
dump_move (found input) m = some (print input m.label, m)
dump_move (print input label) m = some (report input, m)
dump_move (report input) m = some (off, record m { done = input })
