-- ===== src/Common/Thread/Sound.antt =====
-- Every step of the process of harnesses/common.h keeps `Common.Thread.Invariant.IsSound`.
use mathlib.Core.Path.{subst}
use r_oss_fuzz.Base.{arith, refl, sym, ℕ, ◌+◌, Bool, true, false, ◌||◌, ◌==◌, Option, ◌≡◌}
use r_oss_fuzz.Common.Thread.{Shared, Worker, inside}
use r_oss_fuzz.Common.Thread.Zones.{zone, Zone}
use r_oss_fuzz.Common.Thread.Facts.{implies, has_job, IsAwake, is_labelled, implies-true}
use r_oss_fuzz.Common.Thread.Handlers.{Alarm, entry, kill, refuse, wait, ready}
use r_oss_fuzz.Common.Thread.Late.{IsStamped, IsLate, IsLate-after, tick-IsLate}
use r_oss_fuzz.Common.Thread.Invariant.{
  IsSound, main_runs-IsSound, r_runs-IsSound, alarm_runs-IsSound, dump_runs-IsSound, aside-IsSound,
}
use r_oss_fuzz.Common.Thread.System.{
  System, Step, main_runs, spawns, r_runs, labels, ticks, main_wakes, r_wakes, rings, alarm_runs,
  kills, kill_fails, takes, dump_runs, forks, Reach, begin, later,
}
use r_oss_fuzz.Common.Thread.Forks.{first-IsSound, spawns-IsSound, forks-IsSound}

labels-IsSound :
    (timeout : ℕ) (s : System) (l : Option ℕ)
    → s.worker ≡ inside
    → IsSound timeout s
    → IsSound timeout (record s { mem = record s.mem { label = l } })
unfolding IsAwake is_labelled IsStamped
labels-IsSound timeout s l e i = record {
  handed = i.handed;
  exclusive = i.exclusive;
  is_run = i.is_run;
  awake = i.awake;
  spawned = i.spawned;
  labelled =
      subst (λ w. implies (has_job l) (is_labelled w || (s.mem.ran == 1)) ≡ true) (sym e)
        (implies-true (has_job l));
  clocked = i.clocked;
  numbered = i.numbered;
  ends = i.ends;
  late =
      IsLate-after timeout s.alarm (zone s.main) s.worker s.worker s.mem _
        (λ t. (t, refl, omega arith, refl)) (λ t. t) i.late;
}

ticks-IsSound :
    (timeout : ℕ) (s : System) (d : ℕ)
    → IsSound timeout s
    → IsSound timeout (record s { mem = record s.mem { now = s.mem.now + d } })
unfolding IsAwake
ticks-IsSound timeout s d i = record {
  handed = i.handed;
  exclusive = i.exclusive;
  is_run = i.is_run;
  awake = i.awake;
  spawned = i.spawned;
  labelled = i.labelled;
  clocked = (let c = i.clocked.0 in omega arith, let c = i.clocked.1 in omega arith);
  numbered = i.numbered;
  ends = i.ends;
  late = tick-IsLate timeout s.alarm (zone s.main) s.worker s.mem d i.late;
}

wakes-IsSound :
    (timeout : ℕ) (s : System) (a b : Bool)
    → (let n = record s.mem { main_waits = a; r_waits = b } in
        IsSound timeout s → IsAwake s.main s.worker n → IsSound timeout (record s { mem = n }))
unfolding IsStamped
wakes-IsSound timeout s a b i h = record {
  handed = i.handed;
  exclusive = i.exclusive;
  is_run = i.is_run;
  awake = h;
  spawned = i.spawned;
  labelled = i.labelled;
  clocked = i.clocked;
  numbered = i.numbered;
  ends = i.ends;
  late =
      IsLate-after timeout s.alarm (zone s.main) s.worker s.worker s.mem _
        (λ t. (t, refl, omega arith, refl)) (λ t. t) i.late;
}

moved-IsLate :
    (timeout : ℕ) (a b : Alarm) (z : Zone) (w : Worker) (m : Shared)
    → a ≡ b
    → IsLate timeout a z w m
    → IsLate timeout b z w m
moved-IsLate timeout a b z w m e = subst (λ c. IsLate timeout c z w m) e

-- Every step keeps the invariant.
pub Step-IsSound :
    (timeout : ℕ) (s t : System) → Step timeout s t → IsSound timeout s → IsSound timeout t
unfolding IsLate IsAwake
Step-IsSound timeout s t (main_runs p m q e) i = main_runs-IsSound timeout s p m q e i
Step-IsSound timeout s t (spawns q e f) i = spawns-IsSound timeout s q e f i
Step-IsSound timeout s t (r_runs w m q e) i = r_runs-IsSound timeout s w m e i
Step-IsSound timeout s t (labels l q e) i = labels-IsSound timeout s l e i
Step-IsSound timeout s t (ticks d) i = ticks-IsSound timeout s d i
Step-IsSound timeout s t main_wakes i =
    wakes-IsSound timeout s false s.mem.r_waits i (refl, i.awake.1)
Step-IsSound timeout s t r_wakes i =
    wakes-IsSound timeout s s.mem.main_waits false i (i.awake.0, refl)
Step-IsSound timeout s t (rings q) i =
    aside-IsSound timeout s entry s.dump s.mem.done s.pending i tt
Step-IsSound timeout s t (alarm_runs a m e) i = alarm_runs-IsSound timeout s a m e i
Step-IsSound timeout s t (kills n e) i =
    aside-IsSound timeout s (wait n 0) s.dump s.mem.done true i
      (moved-IsLate timeout s.alarm (kill n) _ _ _ e i.late)
Step-IsSound timeout s t (kill_fails n e) i =
    aside-IsSound timeout s (refuse n) s.dump s.mem.done s.pending i
      (moved-IsLate timeout s.alarm (kill n) _ _ _ e i.late)
Step-IsSound timeout s t (takes e q) i =
    aside-IsSound timeout s s.alarm ready s.mem.done false i i.late
Step-IsSound timeout s t (dump_runs d m e) i = dump_runs-IsSound timeout s d m e i
Step-IsSound timeout s t (forks e q) i = forks-IsSound timeout s e q i

pub Reach-IsSound : (timeout : ℕ) (s : System) → Reach timeout s → IsSound timeout s
Reach-IsSound timeout s (begin now) = first-IsSound timeout now
Reach-IsSound timeout s (later {s = r} h k) = Step-IsSound timeout r s k (Reach-IsSound timeout r h)
