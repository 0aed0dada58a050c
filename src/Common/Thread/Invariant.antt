-- ===== src/Common/Thread/Invariant.antt =====
-- What holds in every state that the process of harnesses/common.h can reach.
use mathlib.Core.Path.{subst}
use r_oss_fuzz.Base.{arith, refl, sym, ℕ, Bool, some, ◌≡◌}
use r_oss_fuzz.Common.Thread.{Shared, Main, main_move, Worker, r_move}
use r_oss_fuzz.Common.Thread.Zones.{
  zone, Zone, phase, main_owns, r_owns, is_running, IsHanded, After-some, IsExclusive,
}
use r_oss_fuzz.Common.Thread.Facts.{
  IsAwake, has_thread, IsSpawned, IsLabelled, IsClocked, IsNumbered, IsFinishing,
}
use r_oss_fuzz.Common.Thread.Handlers.{Alarm, quiet, alarm_move, Dump, dump_move}
use r_oss_fuzz.Common.Thread.Late.{IsStamped, IsLate, r-IsLate, IsLate-after}
use r_oss_fuzz.Common.Thread.Keeps.{
  main-IsHanded, r-IsHanded, main-IsExclusive, r-IsExclusive, main-running, r-running,
}
use r_oss_fuzz.Common.Thread.Moves.{
  main-IsAwake, r-IsAwake, main-IsSpawned, r-IsSpawned, main-IsLabelled, r-IsLabelled,
}
use r_oss_fuzz.Common.Thread.Flags.{
  main-IsClocked, r-IsClocked, main-IsNumbered, r-IsNumbered, main-IsFinishing, r-IsFinishing,
}
use r_oss_fuzz.Common.Thread.Signals.{alarm_stores, dump_stores, alarm-IsFinishing}
use r_oss_fuzz.Common.Thread.Alarms.{alarm-IsLate}
use r_oss_fuzz.Common.Thread.System.{System}

pub record IsSound (timeout : ℕ) (s : System) : Type 0 where
  pub handed : IsHanded s.mem (zone s.main) (phase s.worker)
  pub exclusive : IsExclusive s.mem.locked (main_owns s.main) (r_owns s.worker)
  pub is_run : s.mem.running ≡ is_running s.worker
  pub awake : IsAwake s.main s.worker s.mem
  pub spawned : IsSpawned s.main s.mem.started (has_thread s.worker)
  pub labelled : IsLabelled s.worker s.mem
  pub clocked : IsClocked s.mem
  pub numbered : IsNumbered s.main s.mem.input
  pub ends : IsFinishing s.main s.mem
  pub late : IsLate timeout s.alarm (zone s.main) s.worker s.mem

pub quiet-IsLate :
    (timeout : ℕ) (a : Alarm) (z : Zone) (w : Worker) (m : Shared)
    → a ≡ quiet
    → IsLate timeout a z w m
unfolding IsLate
quiet-IsLate timeout a z w m e = subst (λ b. IsLate timeout b z w m) (sym e) tt

pub main_runs-IsSound :
    (timeout : ℕ) (s : System) (p : Main) (m : Shared)
    → s.alarm ≡ quiet
    → main_move s.main s.mem ≡ some (p, m)
    → IsSound timeout s
    → IsSound timeout (record s { mem = m; main = p })
main_runs-IsSound timeout s p m q e i = record {
  handed = After-some _ _ _ e (main-IsHanded s.main (phase s.worker) s.mem i.handed);
  exclusive = After-some _ _ _ e (main-IsExclusive s.main (r_owns s.worker) s.mem i.exclusive);
  is_run = After-some _ _ _ e (main-running s.main (is_running s.worker) s.mem i.is_run);
  awake = After-some _ _ _ e (main-IsAwake s.main s.worker s.mem i.awake);
  spawned = After-some _ _ _ e (main-IsSpawned s.main (has_thread s.worker) s.mem i.spawned);
  labelled = After-some _ _ _ e (main-IsLabelled s.main s.worker s.mem i.labelled);
  clocked = After-some _ _ _ e (main-IsClocked s.main s.mem i.clocked);
  numbered = After-some _ _ _ e (main-IsNumbered s.main s.mem i.numbered);
  ends = After-some _ _ _ e (main-IsFinishing s.main s.mem i.ends);
  late = quiet-IsLate timeout s.alarm _ _ _ q;
}

pub r_runs-IsSound :
    (timeout : ℕ) (s : System) (w : Worker) (m : Shared)
    → r_move s.worker s.mem ≡ some (w, m)
    → IsSound timeout s
    → IsSound timeout (record s { mem = m; worker = w })
r_runs-IsSound timeout s w m e i = record {
  handed = After-some _ _ _ e (r-IsHanded (zone s.main) s.worker s.mem i.handed);
  exclusive = After-some _ _ _ e (r-IsExclusive (main_owns s.main) s.worker s.mem i.exclusive);
  is_run = After-some _ _ _ e (r-running s.worker s.mem i.is_run);
  awake = After-some _ _ _ e (r-IsAwake s.main s.worker s.mem i.awake);
  spawned = After-some _ _ _ e (r-IsSpawned s.main s.worker s.mem i.spawned);
  labelled = After-some _ _ _ e (r-IsLabelled (zone s.main) s.worker s.mem i.handed i.labelled);
  clocked = After-some _ _ _ e (r-IsClocked s.worker s.mem i.clocked);
  numbered = After-some _ _ _ e (r-IsNumbered s.main s.worker s.mem i.numbered);
  ends = After-some _ _ _ e (r-IsFinishing s.main s.worker s.mem i.handed i.ends);
  late = r-IsLate timeout s.alarm (zone s.main) s.worker w s.mem m e i.handed i.late;
}

-- A handler stores to its own flags.
stores-IsSound :
    (timeout : ℕ) (s : System) (a : Alarm) (f : Bool) (q d : ℕ)
    → IsSound timeout s
    → (let n = record s.mem { finishing = f; requested = q; done = d } in
        IsFinishing s.main n
        → IsLate timeout a (zone s.main) s.worker n
        → IsSound timeout (record s { mem = n; alarm = a }))
unfolding IsAwake
stores-IsSound timeout s a f q d i h l = record {
  handed = i.handed;
  exclusive = i.exclusive;
  is_run = i.is_run;
  awake = i.awake;
  spawned = i.spawned;
  labelled = i.labelled;
  clocked = i.clocked;
  numbered = i.numbered;
  ends = h;
  late = l;
}

pub alarm_runs-IsSound :
    (timeout : ℕ) (s : System) (a : Alarm) (m : Shared)
    → alarm_move timeout s.alarm s.mem ≡ some (a, m)
    → IsSound timeout s
    → IsSound timeout (record s { mem = m; alarm = a })
alarm_runs-IsSound timeout s a m e i =
    let q = After-some _ _ _ e (alarm_stores timeout s.alarm s.mem) in
    let f =
      After-some _ _ _ e (alarm-IsFinishing timeout s.alarm s.main s.worker s.mem i.late i.ends) in
    let l =
      After-some (λ r. IsLate timeout r.0 (zone s.main) s.worker r.1) _ _ e
        (alarm-IsLate timeout s.alarm (zone s.main) s.worker s.mem i.handed i.is_run i.clocked
          i.late) in
    subst (λ n. IsSound timeout (record s { mem = n; alarm = a })) (sym q)
      (stores-IsSound timeout s a m.finishing m.requested m.done i (subst (IsFinishing s.main) q f)
        (subst (IsLate timeout a (zone s.main) s.worker) q l))

-- What neither thread reads may change, with the state of the dump handler.
pub aside-IsSound :
    (timeout : ℕ) (s : System) (a : Alarm) (d : Dump) (n : ℕ) (b : Bool)
    → IsSound timeout s
    → IsLate timeout a (zone s.main) s.worker s.mem
    → IsSound timeout
        (record s { mem = record s.mem { done = n }; alarm = a; dump = d; pending = b })
unfolding IsAwake IsStamped
aside-IsSound timeout s a d n b i l = record {
  handed = i.handed;
  exclusive = i.exclusive;
  is_run = i.is_run;
  awake = i.awake;
  spawned = i.spawned;
  labelled = i.labelled;
  clocked = i.clocked;
  numbered = i.numbered;
  ends = i.ends;
  late =
      IsLate-after timeout a (zone s.main) s.worker s.worker s.mem _
        (λ t. (t, refl, omega arith, refl)) (λ t. t) l;
}

pub dump_runs-IsSound :
    (timeout : ℕ) (s : System) (d : Dump) (m : Shared)
    → dump_move s.dump s.mem ≡ some (d, m)
    → IsSound timeout s
    → IsSound timeout (record s { mem = m; dump = d })
dump_runs-IsSound timeout s d m e i =
    let q = After-some _ _ _ e (dump_stores s.dump s.mem) in
    subst (λ n. IsSound timeout (record s { mem = n; dump = d })) (sym q)
      (aside-IsSound timeout s s.alarm d m.done s.pending i i.late)
