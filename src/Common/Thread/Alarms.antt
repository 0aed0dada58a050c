-- ===== src/Common/Thread/Alarms.antt =====
-- `fuzz_alarm_handler` of harnesses/common.h keeps what it knows of the input, as
-- `Common.Thread.Late` says it.
use r_oss_fuzz.Base.{
  arith, ◌∙◌, refl, sym, ℕ, suc, ◌==◌, inl, ltb, leb, if◌then◌else◌, Bool, true, false, some, ◌≡◌,
}
use r_oss_fuzz.Common.Thread.{
  Shared, Worker, absent, lock, look, asleep, unlock, stamp, mark, enter, inside, leave, unmark,
  relock, clear,
}
use r_oss_fuzz.Common.Thread.Zones.{
  Zone, calling, phase, is_running, IsHanded, After, carried, performed,
}
use r_oss_fuzz.Common.Thread.Facts.{IsClocked}
use r_oss_fuzz.Common.Thread.Handlers.{
  Alarm, quiet, entry, gate, aging, hold, finish, fetch, chain, weigh, ask, kill, refuse, wait,
  wait_running, alarm_move, rounds,
}
use r_oss_fuzz.Common.Thread.Late.{IsStamped, IsLate}
use r_oss_fuzz.Common.Thread.Signals.{fuzz_seconds_since-le}

-- While the target runs, the main thread waits for it.
running-calling :
    (z : Zone) (w : Worker) (m : Shared)
    → IsHanded m z (phase w)
    → is_running w ≡ true
    → z ≡ calling
unfolding phase is_running
running-calling z enter m (carried e g f) h = refl
running-calling z inside m (carried e g f) h = refl
running-calling z leave m (performed e g f) h = refl
running-calling z unmark m (performed e g f) h = refl
running-calling z absent m j h = ground arith
running-calling z lock m j h = ground arith
running-calling z look m j h = ground arith
running-calling z asleep m j h = ground arith
running-calling z unlock m j h = ground arith
running-calling z stamp m j h = ground arith
running-calling z mark m j h = ground arith
running-calling z relock m j h = ground arith
running-calling z clear m j h = ground arith

IsLate-if :
    (timeout : ℕ) (b : Bool) (a c : Alarm) (z : Zone) (w : Worker) (m : Shared)
    → (b ≡ true → IsLate timeout a z w m)
    → (b ≡ false → IsLate timeout c z w m)
    → IsLate timeout (if b then a else c) z w m
IsLate-if timeout true a c z w m f g = f refl
IsLate-if timeout false a c z w m f g = g refl

IsLate-ask :
    (timeout i : ℕ) (z : Zone) (w : Worker) (m : Shared)
    → (b : Bool) → IsLate timeout (ask i) z w m
    → After {A = Alarm × Shared}
        (λ r. IsLate timeout r.0 z w r.1)
        (some (if b then (wait i 0, m) else (kill i, record m { requested = i })))
unfolding IsLate IsStamped
IsLate-ask timeout i z w m true l = l
IsLate-ask timeout i z w m false l = l

pub alarm-IsLate :
    (timeout : ℕ) (a : Alarm) (z : Zone) (w : Worker) (m : Shared)
    → IsHanded m z (phase w)
    → m.running ≡ is_running w
    → IsClocked m
    → IsLate timeout a z w m
    → After (λ r. IsLate timeout r.0 z w r.1) (alarm_move timeout a m)
unfolding alarm_move IsLate IsStamped
alarm-IsLate timeout quiet z w m j r c l = tt
alarm-IsLate timeout entry z w m j r c l =
    IsLate-if timeout m.finishing quiet gate z w m (λ e. tt) (λ e. tt)
alarm-IsLate timeout gate z w m j r c l =
    IsLate-if timeout m.running aging chain z w m
      (λ e. let h = sym r ∙ e in (running-calling z w m j h, inl h)) (λ e. tt)
alarm-IsLate timeout aging z w m j r c l = IsLate-if timeout _ hold chain z w m (λ e. l) (λ e. tt)
alarm-IsLate timeout hold z w m j r c l = (l, fuzz_seconds_since-le m.since m.now c.1)
alarm-IsLate timeout (weigh age) z w m j r c l =
    IsLate-if timeout m.running _ finish z w m
      (λ e.
        IsLate-if timeout (leb timeout age) fetch hold z w m
          (λ h. (l.0, let k = l.1 in ground arith)) (λ h. l.0))
      (λ e. (l.0.0, let k = l.0.1 in ground arith))
alarm-IsLate timeout finish z w m j r c l = tt
alarm-IsLate timeout fetch z w m j r c l = (l.0, l.1, refl)
alarm-IsLate timeout (ask i) z w m j r c l = IsLate-ask timeout i z w m (m.requested == i) l
alarm-IsLate timeout (kill i) z w m j r c l = tt
alarm-IsLate timeout (refuse i) z w m j r c l = l
alarm-IsLate timeout (wait i n) z w m j r c l =
    IsLate-if timeout (ltb n rounds) _ chain z w m
      (λ e. IsLate-if timeout (m.done == i) chain (wait_running i n) z w m (λ h. tt) (λ h. l))
      (λ e. tt)
alarm-IsLate timeout (wait_running i n) z w m j r c l =
    IsLate-if timeout m.running (wait i (suc n)) chain z w m (λ e. l) (λ e. tt)
alarm-IsLate timeout chain z w m j r c l = tt
