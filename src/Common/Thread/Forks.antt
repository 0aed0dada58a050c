-- ===== src/Common/Thread/Forks.antt =====
-- The start of the process of harnesses/common.h, the creation of the R thread and the fork of a child
-- have `Common.Thread.Invariant.IsSound`.
use mathlib.Core.Path.{subst}
use r_oss_fuzz.Base.{arith, ◌∙◌, refl, sym, ℕ, true, false, ◌||◌, ◌==◌, ◌≡◌}
use r_oss_fuzz.Common.Thread.{
  Shared, idle, start, created, Worker, absent, lock, look, asleep, unlock, stamp, mark, enter,
  inside, leave, unmark, relock, clear,
}
use r_oss_fuzz.Common.Thread.Zones.{
  zone, outside, phase, Phase, resting, main_owns, r_owns, is_running, IsHanded, apart,
}
use r_oss_fuzz.Common.Thread.Facts.{
  implies, has_job, IsAwake, has_thread, is_waiting, is_asleep, may_finish, IsSpawned, is_labelled,
  IsNumbered,
}
use r_oss_fuzz.Common.Thread.Handlers.{quiet, off}
use r_oss_fuzz.Common.Thread.Late.{IsLate}
use r_oss_fuzz.Common.Thread.Invariant.{IsSound, quiet-IsLate}
use r_oss_fuzz.Common.Thread.System.{System, fuzz_r_thread_forget, first_system}

pub first-IsSound : (timeout now : ℕ) → IsSound timeout (first_system now)
unfolding IsAwake IsLate IsSpawned IsNumbered main_owns r_owns is_running has_thread zone phase
first-IsSound timeout now = record {
  handed = apart refl refl;
  exclusive = (refl, refl);
  is_run = refl;
  awake = (refl, refl);
  spawned = refl;
  labelled = refl;
  clocked = (omega arith, omega arith);
  numbered = tt;
  ends = refl;
  late = tt;
}

no-thread : (w : Worker) → has_thread w ≡ false → w ≡ absent
unfolding has_thread
no-thread absent e = refl
no-thread lock e = ground arith
no-thread look e = ground arith
no-thread asleep e = ground arith
no-thread unlock e = ground arith
no-thread stamp e = ground arith
no-thread mark e = ground arith
no-thread enter e = ground arith
no-thread inside e = ground arith
no-thread leave e = ground arith
no-thread unmark e = ground arith
no-thread relock e = ground arith
no-thread clear e = ground arith

-- The new thread is at its first lock.
created-IsSound :
    (timeout : ℕ) (s : System)
    → s.alarm ≡ quiet
    → s.mem.started ≡ false
    → IsSound timeout (record s { main = start; worker = absent })
    → IsSound timeout (record s { main = created; worker = lock })
unfolding IsAwake IsSpawned IsNumbered main_owns r_owns is_running has_thread zone phase is_waiting
    is_asleep may_finish is_labelled
created-IsSound timeout s q e i = record {
  handed = i.handed;
  exclusive = i.exclusive;
  is_run = i.is_run;
  awake = i.awake;
  spawned = (e, refl);
  labelled = i.labelled;
  clocked = i.clocked;
  numbered = tt;
  ends = i.ends;
  late = quiet-IsLate timeout s.alarm _ _ _ q;
}

pub spawns-IsSound :
    (timeout : ℕ) (s : System)
    → s.alarm ≡ quiet
    → s.main ≡ start
    → s.mem.started ≡ false
    → IsSound timeout s
    → IsSound timeout (record s { main = created; worker = lock })
unfolding IsSpawned
spawns-IsSound timeout s q e f i =
    let j = subst (λ p. IsSound timeout (record s { main = p })) e i in
    created-IsSound timeout s q f (
      subst (λ w. IsSound timeout (record s { main = start; worker = w }))
        (no-thread s.worker (sym j.spawned ∙ f)) j)

-- Between the calls, the R thread rests.
forget-IsHanded :
    (m : Shared) (h : Phase)
    → IsHanded m outside h
    → IsHanded (fuzz_r_thread_forget m) outside resting
unfolding fuzz_r_thread_forget
forget-IsHanded m h (apart e f) = apart refl f

outside-rests :
    (m : Shared) (w : Worker)
    → IsHanded m outside (phase w)
    → (is_running w ≡ false) × (is_labelled w ≡ false)
unfolding phase is_running is_labelled
outside-rests m absent j = (refl, refl)
outside-rests m lock j = (refl, refl)
outside-rests m look j = (refl, refl)
outside-rests m asleep j = (refl, refl)
outside-rests m unlock j = elim j [ ]
outside-rests m stamp j = elim j [ ]
outside-rests m mark j = elim j [ ]
outside-rests m enter j = elim j [ ]
outside-rests m inside j = elim j [ ]
outside-rests m leave j = elim j [ ]
outside-rests m unmark j = elim j [ ]
outside-rests m relock j = elim j [ ]
outside-rests m clear j = elim j [ ]

idle-forks :
    (timeout : ℕ) (s : System)
    → s.alarm ≡ quiet
    → IsSound timeout (record s { main = idle })
    → IsSound timeout (record s {
      mem = fuzz_r_thread_forget s.mem;
      main = idle;
      worker = absent;
      dump = off;
      pending = false;
    })
unfolding IsAwake IsSpawned IsNumbered main_owns r_owns is_running has_thread zone phase may_finish
    is_labelled fuzz_r_thread_forget
idle-forks timeout s q i =
    let r = outside-rests s.mem s.worker i.handed in
    record {
      handed = forget-IsHanded s.mem (phase s.worker) i.handed;
      exclusive = (refl, refl);
      is_run = i.is_run ∙ r.0;
      awake = (refl, refl);
      spawned = refl;
      labelled =
          subst (λ b. implies (has_job s.mem.label) (b || (s.mem.ran == 1)) ≡ true) r.1 i.labelled;
      clocked = i.clocked;
      numbered = tt;
      ends = i.ends;
      late = quiet-IsLate timeout s.alarm _ _ _ q;
    }

pub forks-IsSound :
    (timeout : ℕ) (s : System)
    → s.main ≡ idle
    → s.alarm ≡ quiet
    → IsSound timeout s
    → IsSound timeout (record s {
      mem = fuzz_r_thread_forget s.mem;
      worker = absent;
      dump = off;
      pending = false;
    })
forks-IsSound timeout s e q i =
    subst
      (λ p. IsSound timeout (record s {
        mem = fuzz_r_thread_forget s.mem;
        main = p;
        worker = absent;
        dump = off;
        pending = false;
      }))
      (sym e) (idle-forks timeout s q (subst (λ p. IsSound timeout (record s { main = p })) e i))
