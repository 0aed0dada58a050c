-- ===== src/Common/Thread/Signals.antt =====
-- The moves of the two signal handlers of harnesses/common.h: what they change, and what they keep of
-- `Common.Thread.Facts` and `Common.Thread.Late`.
use r_oss_fuzz.Base.{arith, refl, ℕ, ◌+◌, ◌-◌, ◌*◌, ◌/◌, ◌≤◌, true, ◌≡◌}
use r_oss_fuzz.Common.Thread.{
  Shared, Main, idle, start, created, number, renumber, acquire, offer, check, waiting, release,
  settle, arm, Worker,
}
use r_oss_fuzz.Common.Thread.Zones.{zone, calling, After}
use r_oss_fuzz.Common.Thread.Facts.{may_finish, IsFinishing}
use r_oss_fuzz.Common.Thread.Handlers.{
  Alarm, quiet, entry, gate, aging, hold, finish, fetch, chain, weigh, ask, kill, refuse, wait,
  wait_running, alarm_move, second, fuzz_seconds_since, Dump, off, ready, found, print, report,
  dump_move,
}
use r_oss_fuzz.Common.Thread.Late.{IsLate}

-- `fuzz_seconds_since` counts the whole seconds of the difference.
pub fuzz_seconds_since_lem :
    (past now : ℕ) → past ≤ now → fuzz_seconds_since past now ≡ (now - past) / second
unfolding fuzz_seconds_since
fuzz_seconds_since_lem past now h = ground arith

pub fuzz_seconds_since-le :
    (past now : ℕ) → past ≤ now → past + fuzz_seconds_since past now * second ≤ now
fuzz_seconds_since-le past now h = let e = fuzz_seconds_since_lem past now h in omega arith

-- A handler of SIGALRM stores to `finishing`, `requested` and `done`.
pub alarm_stores :
    (timeout : ℕ) (a : Alarm) (m : Shared)
    → After
        (λ r.
          r.1 ≡ record m { finishing = r.1.finishing; requested = r.1.requested; done = r.1.done })
        (alarm_move timeout a m)
unfolding alarm_move
alarm_stores timeout quiet m = tt
alarm_stores timeout entry m = refl
alarm_stores timeout gate m = refl
alarm_stores timeout aging m = refl
alarm_stores timeout hold m = refl
alarm_stores timeout (weigh age) m = refl
alarm_stores timeout finish m = refl
alarm_stores timeout fetch m = refl
alarm_stores timeout (ask i) m = ground arith
alarm_stores timeout (kill i) m = tt
alarm_stores timeout (refuse i) m = refl
alarm_stores timeout (wait i n) m = refl
alarm_stores timeout (wait_running i n) m = refl
alarm_stores timeout chain m = refl

pub dump_stores :
    (d : Dump) (m : Shared) → After (λ r. r.1 ≡ record m { done = r.1.done }) (dump_move d m)
unfolding dump_move
dump_stores off m = tt
dump_stores ready m = refl
dump_stores (found i) m = refl
dump_stores (print i l) m = refl
dump_stores (report i) m = refl

zone-may_finish : (p : Main) → zone p ≡ calling → may_finish p ≡ true
unfolding zone may_finish
zone-may_finish idle e = ground arith
zone-may_finish start e = ground arith
zone-may_finish created e = ground arith
zone-may_finish number e = ground arith
zone-may_finish renumber e = ground arith
zone-may_finish acquire e = ground arith
zone-may_finish offer e = ground arith
zone-may_finish check e = ground arith
zone-may_finish waiting e = ground arith
zone-may_finish release e = ground arith
zone-may_finish settle e = ground arith
zone-may_finish arm e = ground arith

pub alarm-IsFinishing :
    (timeout : ℕ) (a : Alarm) (p : Main) (w : Worker) (m : Shared)
    → IsLate timeout a (zone p) w m
    → IsFinishing p m
    → After (λ r. IsFinishing p r.1) (alarm_move timeout a m)
unfolding alarm_move IsLate
alarm-IsFinishing timeout quiet p w m l f = tt
alarm-IsFinishing timeout entry p w m l f = f
alarm-IsFinishing timeout gate p w m l f = f
alarm-IsFinishing timeout aging p w m l f = f
alarm-IsFinishing timeout hold p w m l f = f
alarm-IsFinishing timeout (weigh age) p w m l f = f
alarm-IsFinishing timeout finish p w m l f = let e = zone-may_finish p l.0 in ground arith
alarm-IsFinishing timeout fetch p w m l f = f
alarm-IsFinishing timeout (ask i) p w m l f = ground arith
alarm-IsFinishing timeout (kill i) p w m l f = tt
alarm-IsFinishing timeout (refuse i) p w m l f = f
alarm-IsFinishing timeout (wait i n) p w m l f = f
alarm-IsFinishing timeout (wait_running i n) p w m l f = f
alarm-IsFinishing timeout chain p w m l f = f
