-- ===== src/Common/Thread/Safety.antt =====
-- What the handoff between the two threads of harnesses/common.h promises.
use mathlib.Core.Path.{subst}
use r_oss_fuzz.Base.{
  arith, ◌∙◌, refl, sym, ap, ℕ, suc, ◌+◌, ◌*◌, ◌≤◌, ◌≢◌, ◌⊎◌, ◌||◌, ◌==◌, Bool, true, false, Option,
  none, some, ◌≡◌,
}
use r_oss_fuzz.Common.Thread.{
  Shared, idle, Worker, absent, lock, look, asleep, unlock, stamp, mark, enter, inside, leave,
  unmark, relock, clear,
}
use r_oss_fuzz.Common.Thread.Zones.{
  zone, Zone, outside, calling, phase, Phase, resting, is_running, IsHanded, apart, offered,
  carried, performed, cleared, back,
}
use r_oss_fuzz.Common.Thread.Facts.{implies, has_job, may_finish, is_labelled}
use r_oss_fuzz.Common.Thread.Handlers.{Alarm, fetch, weigh, kill, alarm_move, second}
use r_oss_fuzz.Common.Thread.Late.{IsLate, IsStamped}
use r_oss_fuzz.Common.Thread.Invariant.{IsSound}
use r_oss_fuzz.Common.Thread.Sound.{Reach-IsSound}
use r_oss_fuzz.Common.Thread.System.{System, Reach}

lives :
    (m : Shared) (z : Zone) (h : Phase)
    → IsHanded m z h
    → h ≢ resting
    → (z ≡ calling) × (m.job ≡ some m.calls) × (m.held ≡ m.calls)
lives m z h (carried e g f) n = (refl, e, g)
lives m z h (performed e g f) n = (refl, e, g)
lives m z h (apart e f) n = absurd (n refl)
lives m z h (offered e f) n = absurd (n refl)
lives m z h (cleared e f) n = absurd (n refl)
lives m z h (back e f) n = absurd (n refl)

-- In every state that the process can reach, when the R thread has a job in its hands, the main thread
-- is in the call that offered it, at the wait: the pointer that the R thread has read is the job of that
-- call, which is on the stack of the main thread.
pub Reach-job_lives :
    (timeout : ℕ) (s : System)
    → Reach timeout s
    → phase s.worker ≢ resting
    → (zone s.main ≡ calling) × (s.mem.job ≡ some s.mem.calls) × (s.mem.held ≡ s.mem.calls)
Reach-job_lives timeout s r =
    lives s.mem (zone s.main) (phase s.worker) (Reach-IsSound timeout s r).handed

outside-ran :
    (m : Shared) (h : Phase)
    → IsHanded m outside h
    → (m.job ≡ none) × (m.ran ≡ m.calls) × (h ≡ resting)
outside-ran m h (apart e f) = (e, f, refl)

resting-runs : (w : Worker) → phase w ≡ resting → is_running w ≡ false
unfolding phase is_running
resting-runs absent e = ground arith
resting-runs lock e = ground arith
resting-runs look e = ground arith
resting-runs asleep e = ground arith
resting-runs unlock e = ground arith
resting-runs stamp e = ground arith
resting-runs mark e = ground arith
resting-runs enter e = ground arith
resting-runs inside e = ground arith
resting-runs leave e = ground arith
resting-runs unmark e = ground arith
resting-runs relock e = ground arith
resting-runs clear e = ground arith

resting-label : (w : Worker) → phase w ≡ resting → is_labelled w ≡ false
unfolding phase is_labelled
resting-label absent e = ground arith
resting-label lock e = ground arith
resting-label look e = ground arith
resting-label asleep e = ground arith
resting-label unlock e = ground arith
resting-label stamp e = ground arith
resting-label mark e = ground arith
resting-label enter e = ground arith
resting-label inside e = ground arith
resting-label leave e = ground arith
resting-label unmark e = ground arith
resting-label relock e = ground arith
resting-label clear e = ground arith

no_label :
    (o : Option ℕ) (b : Bool) (n : ℕ)
    → implies (has_job o) (b || (n == 1)) ≡ true
    → b ≡ false
    → n ≢ 1
    → o ≡ none
no_label none b n e f g = refl
no_label (some k) b n e f g = ground (arith, e, f, g)

idle-facts :
    (timeout : ℕ) (s : System)
    → IsSound timeout (record s { main = idle })
    → (s.mem.ran ≡ s.mem.calls)
      × (s.mem.job ≡ none)
      × (s.mem.running ≡ false)
      × (s.mem.finishing ≡ false)
      × (s.mem.calls ≢ 1 → s.mem.label ≡ none)
unfolding zone may_finish
idle-facts timeout s i =
    let j = outside-ran s.mem (phase s.worker) i.handed in
    let f : s.mem.finishing ≡ false = let e = i.ends in ground arith in
    let l = resting-label s.worker j.2 in
    (
      j.1,
      j.0,
      i.is_run ∙ resting-runs s.worker j.2,
      f,
      λ n.
          no_label s.mem.label (is_labelled s.worker) s.mem.ran i.labelled l (λ e. n (sym j.1 ∙ e)),
    )

-- In every state that the process can reach, when the main thread is outside of a call, as many jobs
-- have been run as calls have returned, no job is left, `running` and `finishing` are off; and no
-- label is set, but for the time behind start-up and in front of the first input.
pub Reach-idle :
    (timeout : ℕ) (s : System)
    → Reach timeout s
    → s.main ≡ idle
    → (s.mem.ran ≡ s.mem.calls)
      × (s.mem.job ≡ none)
      × (s.mem.running ≡ false)
      × (s.mem.finishing ≡ false)
      × (s.mem.calls ≢ 1 → s.mem.label ≡ none)
Reach-idle timeout s r e =
    idle-facts timeout s
      (subst (λ p. IsSound timeout (record s { main = p })) e (Reach-IsSound timeout s r))

-- In every state that the process can reach, when the handler of SIGALRM is about to send the dump
-- signal for input i, i is the input of the call that the main thread waits in, its target runs or has
-- been run, and since it was started the timeout has passed.
pub Reach-dump_late :
    (timeout : ℕ) (s : System) (i : ℕ)
    → Reach timeout s
    → s.alarm ≡ kill i
    → (i ≡ s.mem.input)
      × (s.mem.since + timeout * second ≤ s.mem.now)
      × (zone s.main ≡ calling)
      × ((is_running s.worker ≡ true) ⊎ (s.mem.ran ≡ suc s.mem.calls))
unfolding IsLate IsStamped
Reach-dump_late timeout s i r e =
    let l =
      subst (λ a. IsLate timeout a (zone s.main) s.worker s.mem) e
        (Reach-IsSound timeout s r).late in
    (l.2, l.1, l.0.0, l.0.1)

abbrev fetches : Option (Alarm × Shared) → Bool
fetches none = false
fetches (some (fetch, m)) = true
fetches (some (a, m)) = false

weigh-late :
    (timeout age : ℕ) (s : System) (m : Shared)
    → s.mem.running ≡ is_running s.worker
    → IsLate timeout (weigh age) (zone s.main) s.worker s.mem
    → alarm_move timeout (weigh age) s.mem ≡ some (fetch, m)
    → (is_running s.worker ≡ true) × (s.mem.since + timeout * second ≤ s.mem.now)
unfolding IsLate IsStamped alarm_move
weigh-late timeout age s m r l e =
    let x : fetches (alarm_move timeout (weigh age) s.mem) ≡ true = ap fetches e in
    let k = l.1 in (ground arith, ground arith)

-- In every state that the process can reach, when the handler of SIGALRM goes on from its hold to the
-- report of the input, the target runs, and since it was started the timeout has passed.
pub Reach-hold_ends :
    (timeout age : ℕ) (s : System) (m : Shared)
    → Reach timeout s
    → s.alarm ≡ weigh age
    → alarm_move timeout s.alarm s.mem ≡ some (fetch, m)
    → (is_running s.worker ≡ true) × (s.mem.since + timeout * second ≤ s.mem.now)
Reach-hold_ends timeout age s m r e f =
    let i = Reach-IsSound timeout s r in
    weigh-late timeout age s m i.is_run
      (subst (λ a. IsLate timeout a (zone s.main) s.worker s.mem) e i.late)
      (ap (λ a. alarm_move timeout a s.mem) (sym e) ∙ f)

-- In every state that the process can reach, a label is set only while the R thread is inside of the
-- target, or at the store that clears the label behind it, or if start-up is the one job that has been run.
pub Reach-label :
    (timeout : ℕ) (s : System) (k : ℕ)
    → Reach timeout s
    → s.mem.label ≡ some k
    → (is_labelled s.worker || (s.mem.ran == 1)) ≡ true
Reach-label timeout s k r e =
    subst (λ l. implies (has_job l) (is_labelled s.worker || (s.mem.ran == 1)) ≡ true) e
      (Reach-IsSound timeout s r).labelled
