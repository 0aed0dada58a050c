-- ===== src/Tests/Threads.antt =====
-- The two threads of harnesses/common.h at states that a schedule reaches.
mod Schedule
use r_oss_fuzz.Base.{
  arith, max, ◌∙◌, refl, sym, ap, ℕ, zero, suc, ◌+◌, ◌-◌, ◌*◌, ◌/◌, ◌%◌, ◌^◌, ◌≤◌, ◌<◌, ◌==◌, ◌≢◌,
  ◌⊎◌, inl, inr, List, [], ◌∷◌, ◌++◌, ltb, leb, if◌then◌else◌, Bool, true, false, not, ◌&&◌, ◌||◌,
  Option, none, some, ◌≡◌, Bool-cases,
}
use r_oss_fuzz.Common.Thread.{
  Shared, Main, idle, start, created, number, renumber, acquire, offer, check, waiting, release,
  settle, arm, main_move, Worker, absent, lock, look, asleep, unlock, stamp, mark, enter, inside,
  leave, unmark, relock, clear, r_move,
}
use r_oss_fuzz.Common.Thread.Zones.{
  zone, Zone, outside, calling, returning, phase, Phase, resting, carrying, finished, main_owns,
  r_owns, is_running, Handoff, IsHanded, After, After-if, After-wait, After-wait_two, After-some,
  apart, offered, carried, performed, cleared, back, IsExclusive,
}
use r_oss_fuzz.Common.Thread.Handlers.{
  Alarm, quiet, entry, gate, aging, hold, finish, fetch, chain, weigh, ask, kill, refuse, wait,
  wait_running, alarm_move, rounds, second, fuzz_seconds_since, Dump, off, ready, found, print,
  report, dump_move,
}
use r_oss_fuzz.Common.Thread.System.{System, Reach, first_system, first_memory}
use r_oss_fuzz.Common.Thread.Facts.{is_labelled, may_finish}
use r_oss_fuzz.Common.Thread.Signals.{fuzz_seconds_since_lem}
use r_oss_fuzz.Common.Thread.Safety.{
  Reach-job_lives, Reach-idle, Reach-dump_late, Reach-hold_ends, Reach-label,
}
use r_oss_fuzz.Common.Thread.Returns.{
  Turns, Turns-le, turn, main_turn, none_left, IsBack, Reach-returns,
}
use r_oss_fuzz.Common.Thread.Ends.{Accesses-le, access, no_more}
use r_oss_fuzz.Tests.Threads.Schedule.{
  Choice, main_next, r_next, time, ring, handler, answer, Scene, scene, times, name,
}

-- A first call, up to the wait of the main thread.
abbrev offered_call : List Choice
offered_call = times 7 main_next

-- The R thread is inside of the target.
abbrev entered_call : List Choice
entered_call = offered_call ++ times 6 r_next

abbrev waiting_scene : Scene 2
waiting_scene = scene 2 100 offered_call

abbrev inside_scene : Scene 2
inside_scene = scene 2 100 (entered_call ++ (name 3 ∷ []))

-- SIGALRM comes 5 seconds later, and the handler is behind its reading of the clock.
abbrev weighing_scene : Scene 2
weighing_scene = scene 2 100 (entered_call ++ (time 5000000000 ∷ ring ∷ times 4 handler))

abbrev kill_scene : Scene 2
kill_scene = scene 2 100 (entered_call ++ (time 5000000000 ∷ ring ∷ times 7 handler))

-- The call has returned.
abbrev returned_scene : Scene 2
returned_scene = scene 2 100 (entered_call ++ (times 6 r_next ++ times 5 main_next))

carrying-busy : carrying ≢ resting
carrying-busy = ground arith

waiting-busy : waiting ≢ idle
waiting-busy = ground arith

Reach-job_lives_example :
    (zone inside_scene.last.main ≡ calling)
    × (inside_scene.last.mem.job ≡ some 0)
    × (inside_scene.last.mem.held ≡ 0)
unfolding scene main_move r_move phase
Reach-job_lives_example = Reach-job_lives 2 inside_scene.last inside_scene.reached carrying-busy

Reach-idle_example :
    (returned_scene.last.mem.ran ≡ 1)
    × (returned_scene.last.mem.job ≡ none)
    × (returned_scene.last.mem.running ≡ false)
    × (returned_scene.last.mem.finishing ≡ false)
    × (returned_scene.last.mem.calls ≢ 1 → returned_scene.last.mem.label ≡ none)
unfolding scene main_move r_move
Reach-idle_example = Reach-idle 2 returned_scene.last returned_scene.reached refl

Reach-dump_late_example :
    (1 ≡ kill_scene.last.mem.input)
    × (kill_scene.last.mem.since + 2 * second ≤ kill_scene.last.mem.now)
    × (zone kill_scene.last.main ≡ calling)
    × ((is_running kill_scene.last.worker ≡ true)
        ⊎ (kill_scene.last.mem.ran ≡ suc kill_scene.last.mem.calls))
unfolding scene main_move r_move alarm_move
Reach-dump_late_example = Reach-dump_late 2 kill_scene.last 1 kill_scene.reached refl

Reach-hold_ends_example :
    (is_running weighing_scene.last.worker ≡ true)
    × (weighing_scene.last.mem.since + 2 * second ≤ weighing_scene.last.mem.now)
unfolding scene main_move r_move alarm_move
Reach-hold_ends_example =
    Reach-hold_ends 2 5 weighing_scene.last weighing_scene.last.mem weighing_scene.reached refl refl

Reach-returns_example :
    (n : ℕ) × (t : System) × Turns n waiting_scene.last t × IsBack 2 waiting_scene.last t
unfolding scene main_move
Reach-returns_example =
    Reach-returns 2 waiting_scene.last waiting_scene.reached waiting-busy refl refl

Turns-le_example : 1 ≤ 90
unfolding main_move
Turns-le_example =
    Turns-le 1 (record (first_system 7) { main = release }) _
      (turn (main_turn settle _ (ground arith) refl) none_left)

abbrev late_memory : Shared
late_memory = first_memory 5000000000

Accesses-le_example : 1 ≤ 10012
unfolding alarm_move
Accesses-le_example =
    Accesses-le 2 1 hold (weigh 5) (access late_memory late_memory (omega arith) refl no_more)
