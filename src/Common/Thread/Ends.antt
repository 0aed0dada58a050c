-- ===== src/Common/Thread/Ends.antt =====
-- How far `fuzz_alarm_handler` (harnesses/common.h) is from its return, once the input is out of time.
use r_oss_fuzz.Base.{
  arith, max, ℕ, zero, suc, ◌+◌, ◌-◌, ◌*◌, ◌≤◌, ◌<◌, leb, if◌then◌else◌, some, ◌≡◌,
}
use r_oss_fuzz.Common.Thread.{Shared}
use r_oss_fuzz.Common.Thread.Zones.{After, After-some}
use r_oss_fuzz.Common.Thread.Handlers.{
  Alarm, quiet, entry, gate, aging, hold, finish, fetch, chain, weigh, ask, kill, refuse, wait,
  wait_running, alarm_move, rounds, second, fuzz_seconds_since,
}
use r_oss_fuzz.Common.Thread.Signals.{fuzz_seconds_since_lem}

-- The accesses of the handler, with what the R thread and the clock leave in the memory between them;
-- `pthread_kill` succeeds or fails.
pub data Accesses (timeout : ℕ) : ℕ → Alarm → Alarm → Type 0 where
  no_more : {a : Alarm} → Accesses timeout 0 a a
  access :
      {n : ℕ} {a b c : Alarm} (m t : Shared)
      → m.since + timeout * second ≤ m.now
      → alarm_move timeout a m ≡ some (b, t)
      → Accesses timeout n b c
      → Accesses timeout (suc n) a c
  killed :
      {n i : ℕ} {c : Alarm} → Accesses timeout n (wait i 0) c → Accesses timeout (suc n) (kill i) c
  refused :
      {n i : ℕ} {c : Alarm} → Accesses timeout n (refuse i) c → Accesses timeout (suc n) (kill i) c

unfoldable alarm_rank : ℕ → Alarm → ℕ
alarm_rank timeout quiet = 0
alarm_rank timeout chain = 1
alarm_rank timeout finish = 1
alarm_rank timeout (wait i n) = 2 * (rounds - n) + 2
alarm_rank timeout (wait_running i n) = max 3 (2 * (rounds - n) + 1)
alarm_rank timeout (refuse i) = 10003
alarm_rank timeout (kill i) = 10004
alarm_rank timeout (ask i) = 10005
alarm_rank timeout fetch = 10006
alarm_rank timeout (weigh age) = if leb timeout age then 10007 else 10009
alarm_rank timeout hold = 10008
alarm_rank timeout aging = 10010
alarm_rank timeout gate = 10011
alarm_rank timeout entry = 10012

hold-age :
    (timeout : ℕ) (m : Shared)
    → m.since + timeout * second ≤ m.now
    → timeout ≤ fuzz_seconds_since m.since m.now
hold-age timeout m h = let e = fuzz_seconds_since_lem m.since m.now (omega arith) in omega arith

alarm-rank :
    (timeout : ℕ) (a : Alarm) (m : Shared)
    → m.since + timeout * second ≤ m.now
    → After (λ r. alarm_rank timeout r.0 < alarm_rank timeout a) (alarm_move timeout a m)
unfolding alarm_move alarm_rank
alarm-rank timeout quiet m h = tt
alarm-rank timeout entry m h = ground arith
alarm-rank timeout gate m h = ground arith
alarm-rank timeout aging m h = ground arith
alarm-rank timeout hold m h = let k = hold-age timeout m h in ground arith
alarm-rank timeout (weigh age) m h = ground arith
alarm-rank timeout finish m h = ground arith
alarm-rank timeout fetch m h = ground arith
alarm-rank timeout (ask i) m h = ground arith
alarm-rank timeout (kill i) m h = tt
alarm-rank timeout (refuse i) m h = ground arith
alarm-rank timeout (wait i n) m h = ground arith
alarm-rank timeout (wait_running i n) m h = ground arith
alarm-rank timeout chain m h = ground arith

Accesses-rank : (timeout n : ℕ) (a b : Alarm) → Accesses timeout n a b → n ≤ alarm_rank timeout a
unfolding alarm_rank
Accesses-rank timeout zero a b r = omega arith
Accesses-rank timeout (suc n) a c (access {b = b} m t h e r) =
    let k =
      After-some (λ r. alarm_rank timeout r.0 < alarm_rank timeout a) _ _ e
        (alarm-rank timeout a m h) in
    let l = Accesses-rank timeout n b c r in omega arith
Accesses-rank timeout (suc n) (kill i) c (killed r) =
    let l = Accesses-rank timeout n (wait i 0) c r in omega arith
Accesses-rank timeout (suc n) (kill i) c (refused r) =
    let l = Accesses-rank timeout n (refuse i) c r in omega arith

alarm_rank-le : (timeout : ℕ) (a : Alarm) → alarm_rank timeout a ≤ 10012
unfolding alarm_rank
alarm_rank-le timeout quiet = ground arith
alarm_rank-le timeout entry = ground arith
alarm_rank-le timeout gate = ground arith
alarm_rank-le timeout aging = ground arith
alarm_rank-le timeout hold = ground arith
alarm_rank-le timeout finish = ground arith
alarm_rank-le timeout fetch = ground arith
alarm_rank-le timeout chain = ground arith
alarm_rank-le timeout (weigh age) = ground arith
alarm_rank-le timeout (ask i) = ground arith
alarm_rank-le timeout (kill i) = ground arith
alarm_rank-le timeout (refuse i) = ground arith
alarm_rank-le timeout (wait i n) = ground arith
alarm_rank-le timeout (wait_running i n) = ground arith

-- From any of its positions on, the handler of SIGALRM makes at most 10012 accesses, if at each of them
-- the timeout has passed since the input was started, whatever else the R thread leaves in the memory.
pub Accesses-le : (timeout n : ℕ) (a b : Alarm) → Accesses timeout n a b → n ≤ 10012
Accesses-le timeout n a b r =
    let k = Accesses-rank timeout n a b r in let l = alarm_rank-le timeout a in omega arith
