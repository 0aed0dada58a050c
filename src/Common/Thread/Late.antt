-- ===== src/Common/Thread/Late.antt =====
-- What the handler of SIGALRM in harnesses/common.h knows of the input that it finds out of time.
use r_oss_fuzz.Base.{arith, refl, ℕ, suc, ◌+◌, ◌*◌, ◌≤◌, ◌⊎◌, true, some, ◌≡◌}
use r_oss_fuzz.Common.Thread.{
  Shared, Worker, absent, lock, look, asleep, unlock, stamp, mark, enter, inside, leave, unmark,
  relock, clear, r_move,
}
use r_oss_fuzz.Common.Thread.Zones.{
  Zone, calling, phase, finished, is_running, IsHanded, After, After-some, performed,
}
use r_oss_fuzz.Common.Thread.Handlers.{
  Alarm, quiet, entry, gate, aging, hold, finish, fetch, chain, weigh, ask, kill, refuse, wait,
  wait_running, second,
}
use r_oss_fuzz.Common.Thread.Flags.{carried-ran}

-- The clock of this call has been started: the target runs, or has been run.
unfoldable pub IsStamped : Zone → Worker → Shared → Type 0
IsStamped z w m = (z ≡ calling) × ((is_running w ≡ true) ⊎ (m.ran ≡ suc m.calls))

-- By its own clock, the input has run for the timeout.
abbrev pub IsOld : ℕ → Shared → Type 0
IsOld timeout m = m.since + timeout * second ≤ m.now

abbrev IsOver : ℕ → ℕ → Zone → Worker → Shared → Type 0
IsOver timeout i z w m = IsStamped z w m × IsOld timeout m × (i ≡ m.input)

unfoldable pub IsLate : ℕ → Alarm → Zone → Worker → Shared → Type 0
unfolding IsStamped
IsLate timeout quiet z w m = Unit
IsLate timeout entry z w m = Unit
IsLate timeout gate z w m = Unit
IsLate timeout chain z w m = Unit
IsLate timeout aging z w m = IsStamped z w m
IsLate timeout hold z w m = IsStamped z w m
IsLate timeout (weigh age) z w m = IsStamped z w m × IsOld age m
IsLate timeout finish z w m = (z ≡ calling) × (m.ran ≡ suc m.calls)
IsLate timeout fetch z w m = IsStamped z w m × IsOld timeout m
IsLate timeout (ask i) z w m = IsOver timeout i z w m
IsLate timeout (kill i) z w m = IsOver timeout i z w m
IsLate timeout (refuse i) z w m = IsOver timeout i z w m
IsLate timeout (wait i n) z w m = IsOver timeout i z w m
IsLate timeout (wait_running i n) z w m = IsOver timeout i z w m

-- What a change of the R thread or of the clock leaves to the handler.
abbrev pub IsKept : Zone → Worker → Shared → Shared → Type 0
IsKept z v m n = IsStamped z v n × (n.since ≡ m.since) × (m.now ≤ n.now) × (n.input ≡ m.input)

finished-ran : (m : Shared) {z : Zone} → IsHanded m z finished → m.ran ≡ suc m.calls
finished-ran m (performed e g f) = f

r-IsStamped :
    (z : Zone) (w : Worker) (m : Shared)
    → IsHanded m z (phase w)
    → IsStamped z w m
    → After (λ r. IsKept z r.0 m r.1) (r_move w m)
unfolding r_move phase is_running IsStamped
r-IsStamped z absent m j s = ground arith
r-IsStamped z lock m j s = ground arith
r-IsStamped z look m j s = ground arith
r-IsStamped z asleep m j s = ground arith
r-IsStamped z unlock m j s = let e = carried-ran m j in ground arith
r-IsStamped z stamp m j s = let e = carried-ran m j in ground arith
r-IsStamped z mark m j s = let e = carried-ran m j in ground arith
r-IsStamped z enter m j s = let e = carried-ran m j in ground arith
r-IsStamped z inside m j s = let e = carried-ran m j in ground arith
r-IsStamped z leave m j s = let e = finished-ran m j in ground arith
r-IsStamped z unmark m j s = let e = finished-ran m j in ground arith
r-IsStamped z relock m j s = let e = finished-ran m j in ground arith
r-IsStamped z clear m j s = let e = finished-ran m j in ground arith

r-ran :
    (z : Zone) (w : Worker) (m : Shared)
    → IsHanded m z (phase w)
    → m.ran ≡ suc m.calls
    → After (λ r. r.1.ran ≡ suc r.1.calls) (r_move w m)
unfolding r_move phase
r-ran z absent m j s = ground arith
r-ran z lock m j s = ground arith
r-ran z look m j s = ground arith
r-ran z asleep m j s = ground arith
r-ran z unlock m j s = let e = carried-ran m j in ground arith
r-ran z stamp m j s = let e = carried-ran m j in ground arith
r-ran z mark m j s = let e = carried-ran m j in ground arith
r-ran z enter m j s = let e = carried-ran m j in ground arith
r-ran z inside m j s = let e = carried-ran m j in ground arith
r-ran z leave m j s = let e = finished-ran m j in ground arith
r-ran z unmark m j s = let e = finished-ran m j in ground arith
r-ran z relock m j s = let e = finished-ran m j in ground arith
r-ran z clear m j s = let e = finished-ran m j in ground arith

pub IsLate-after :
    (timeout : ℕ) (a : Alarm) (z : Zone) (w v : Worker) (m n : Shared)
    → (IsStamped z w m → IsKept z v m n)
    → (m.ran ≡ suc m.calls → n.ran ≡ suc n.calls)
    → IsLate timeout a z w m
    → IsLate timeout a z v n
unfolding IsLate
IsLate-after timeout quiet z w v m n f g l = tt
IsLate-after timeout entry z w v m n f g l = tt
IsLate-after timeout gate z w v m n f g l = tt
IsLate-after timeout aging z w v m n f g l = (f l).0
IsLate-after timeout hold z w v m n f g l = (f l).0
IsLate-after timeout finish z w v m n f g l = (l.0, g l.1)
IsLate-after timeout fetch z w v m n f g l = let q = f l.0 in (q.0, omega arith)
IsLate-after timeout chain z w v m n f g l = tt
IsLate-after timeout (weigh age) z w v m n f g l = let q = f l.0 in (q.0, omega arith)
IsLate-after timeout (ask i) z w v m n f g l = let q = f l.0 in (q.0, omega arith, omega arith)
IsLate-after timeout (kill i) z w v m n f g l = let q = f l.0 in (q.0, omega arith, omega arith)
IsLate-after timeout (refuse i) z w v m n f g l = let q = f l.0 in (q.0, omega arith, omega arith)
IsLate-after timeout (wait i k) z w v m n f g l = let q = f l.0 in (q.0, omega arith, omega arith)
IsLate-after timeout (wait_running i k) z w v m n f g l =
    let q = f l.0 in (q.0, omega arith, omega arith)

pub r-IsLate :
    (timeout : ℕ) (a : Alarm) (z : Zone) (w v : Worker) (m n : Shared)
    → r_move w m ≡ some (v, n)
    → IsHanded m z (phase w)
    → IsLate timeout a z w m
    → IsLate timeout a z v n
r-IsLate timeout a z w v m n e j =
    IsLate-after timeout a z w v m n
      (λ s. After-some (λ r. IsKept z r.0 m r.1) _ _ e (r-IsStamped z w m j s))
      (λ s. After-some (λ r. r.1.ran ≡ suc r.1.calls) _ _ e (r-ran z w m j s))

pub tick-IsLate :
    (timeout : ℕ) (a : Alarm) (z : Zone) (w : Worker) (m : Shared) (d : ℕ)
    → IsLate timeout a z w m
    → IsLate timeout a z w (record m { now = m.now + d })
unfolding IsStamped
tick-IsLate timeout a z w m d =
    IsLate-after timeout a z w w m _ (λ s. (s, refl, omega arith, refl)) (λ s. s)
