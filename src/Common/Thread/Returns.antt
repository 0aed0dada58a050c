-- ===== src/Common/Thread/Returns.antt =====
-- The runs of the two threads of harnesses/common.h inside of one call of `fuzz_run_on_r_thread`, while
-- no handler runs: they are short, and end with the return of the call.
use mathlib.Core.Path.{subst}
use r_oss_fuzz.Base.{Option-cases}
use r_oss_fuzz.Base.{
  arith, ◌∙◌, refl, sym, ap, ℕ, zero, suc, ◌≤◌, ◌<◌, ◌≢◌, ◌⊎◌, inl, inr, true, false, some, ◌≡◌,
}
use r_oss_fuzz.Common.Thread.{
  Shared, Main, idle, start, created, number, renumber, acquire, offer, check, waiting, release,
  settle, arm, main_move, Worker, absent, lock, look, asleep, unlock, stamp, mark, enter, inside,
  leave, unmark, relock, clear, r_move,
}
use r_oss_fuzz.Common.Thread.Zones.{After, After-some}
use r_oss_fuzz.Common.Thread.Handlers.{quiet, off}
use r_oss_fuzz.Common.Thread.Rank.{rank, main-rank, r-rank, spawn-rank, rank-le}
use r_oss_fuzz.Common.Thread.Progress.{moves, spawning, Progress}
use r_oss_fuzz.Common.Thread.Invariant.{IsSound}
use r_oss_fuzz.Common.Thread.Sound.{Reach-IsSound}
use r_oss_fuzz.Common.Thread.System.{System, Step, main_runs, spawns, r_runs, Reach, later}

-- A move of one of the threads, before the call has returned.
pub data Turn (s : System) : System → Type 0 where
  main_turn :
      (p : Main) (m : Shared)
      → s.main ≢ idle
      → main_move s.main s.mem ≡ some (p, m)
      → Turn s (record s { mem = m; main = p })
  spawn_turn :
      s.main ≡ start → s.mem.started ≡ false → Turn s (record s { main = created; worker = lock })
  r_turn :
      (w : Worker) (m : Shared)
      → s.main ≢ idle
      → r_move s.worker s.mem ≡ some (w, m)
      → Turn s (record s { mem = m; worker = w })

pub data Turns : ℕ → System → System → Type 0 where
  none_left : {s : System} → Turns 0 s s
  turn : {n : ℕ} {s t u : System} → Turn s t → Turns n t u → Turns (suc n) s u

abbrev rank_of : System → ℕ
rank_of s = rank s.main s.worker s.mem

Turn-rank : (s t : System) → Turn s t → rank_of t < rank_of s
Turn-rank s t (main_turn p m h e) = After-some _ _ _ e (main-rank s.main s.worker s.mem h)
Turn-rank s t (spawn_turn e f) =
    subst (λ p. rank created lock s.mem < rank p s.worker s.mem) (sym e) (spawn-rank s.worker s.mem)
Turn-rank s t (r_turn w m h e) = After-some _ _ _ e (r-rank s.main s.worker s.mem)

Turns-rank : (n : ℕ) (s t : System) → Turns n s t → n ≤ rank_of s
Turns-rank zero s t r = omega arith
Turns-rank (suc n) s t (turn {t = u} h r) =
    let a = Turn-rank s u h in let b = Turns-rank n u t r in omega arith

-- In a call, the two threads make at most 90 moves, in any order, if no handler runs, no thread wakes
-- without a broadcast, and the target is one move.
pub Turns-le : (n : ℕ) (s t : System) → Turns n s t → n ≤ 90
Turns-le n s t r =
    let a = Turns-rank n s t r in let b = rank-le s.main s.worker s.mem in omega arith

idle-or : (p : Main) → (p ≡ idle) ⊎ (p ≢ idle)
idle-or idle = inl refl
idle-or start = inr (ground arith)
idle-or created = inr (ground arith)
idle-or number = inr (ground arith)
idle-or renumber = inr (ground arith)
idle-or acquire = inr (ground arith)
idle-or offer = inr (ground arith)
idle-or check = inr (ground arith)
idle-or waiting = inr (ground arith)
idle-or release = inr (ground arith)
idle-or settle = inr (ground arith)
idle-or arm = inr (ground arith)

-- The number of the calls that have returned, with the main thread at a place.
unfoldable counted : Main → ℕ → ℕ
counted idle n = suc n
counted p n = n

main-calls :
    (p : Main) (m : Shared)
    → p ≢ idle
    → After (λ r. r.1.calls ≡ counted r.0 m.calls) (main_move p m)
unfolding main_move counted
main-calls idle m h = absurd (h refl)
main-calls start m h = ground arith
main-calls created m h = ground arith
main-calls number m h = ground arith
main-calls renumber m h = ground arith
main-calls acquire m h = ground arith
main-calls offer m h = ground arith
main-calls check m h = ground arith
main-calls waiting m h = ground arith
main-calls release m h = ground arith
main-calls settle m h = ground arith
main-calls arm m h = ground arith

r-calls : (w : Worker) (m : Shared) → After (λ r. r.1.calls ≡ m.calls) (r_move w m)
unfolding r_move
r-calls absent m = ground arith
r-calls lock m = ground arith
r-calls look m = ground arith
r-calls asleep m = ground arith
r-calls unlock m = ground arith
r-calls stamp m = ground arith
r-calls mark m = ground arith
r-calls enter m = ground arith
r-calls inside m = ground arith
r-calls leave m = ground arith
r-calls unmark m = ground arith
r-calls relock m = ground arith
r-calls clear m = ground arith

counted-busy : (p : Main) (n : ℕ) → p ≢ idle → counted p n ≡ n
unfolding counted
counted-busy idle n h = absurd (h refl)
counted-busy start n h = refl
counted-busy created n h = refl
counted-busy number n h = refl
counted-busy renumber n h = refl
counted-busy acquire n h = refl
counted-busy offer n h = refl
counted-busy check n h = refl
counted-busy waiting n h = refl
counted-busy release n h = refl
counted-busy settle n h = refl
counted-busy arm n h = refl

Turn-calls : (s t : System) → Turn s t → t.mem.calls ≡ counted t.main s.mem.calls
unfolding counted
Turn-calls s t (main_turn p m h e) = After-some _ _ _ e (main-calls s.main s.mem h)
Turn-calls s t (spawn_turn e f) = refl
Turn-calls s t (r_turn w m h e) =
    After-some (λ r. r.1.calls ≡ s.mem.calls) _ _ e (r-calls s.worker s.mem)
    ∙ sym (counted-busy s.main _ h)

spawning-start : (p : Main) (m : Shared) → spawning p m ≡ true → (p ≡ start) × (m.started ≡ false)
spawning-start start m e = (refl, ground arith)
spawning-start idle m e = ground arith
spawning-start created m e = ground arith
spawning-start number m e = ground arith
spawning-start renumber m e = ground arith
spawning-start acquire m e = ground arith
spawning-start offer m e = ground arith
spawning-start check m e = ground arith
spawning-start waiting m e = ground arith
spawning-start release m e = ground arith
spawning-start settle m e = ground arith
spawning-start arm m e = ground arith

-- There is a turn, and it is a step of the process.
abbrev IsNext : ℕ → System → System → Type 0
IsNext timeout s t = Turn s t × Step timeout s t × (t.alarm ≡ s.alarm) × (t.dump ≡ s.dump)

Turn-exists :
    (timeout : ℕ) (s : System)
    → IsSound timeout s
    → s.main ≢ idle
    → s.alarm ≡ quiet
    → s.dump ≡ off
    → (t : System) × IsNext timeout s t
Turn-exists timeout s i h q d =
    let k = Progress s.main s.worker s.mem i.exclusive i.awake i.spawned in
    elim (Option-cases (main_move s.main s.mem)) [
      | inr (r, e) ↦ (_, (main_turn r.0 r.1 h e, main_runs r.0 r.1 q e, refl, refl))
      | inl e ↦ elim (Option-cases (r_move s.worker s.mem)) [
        | inr (r, f) ↦ (_, (r_turn r.0 r.1 h f, r_runs r.0 r.1 d f, refl, refl))
        | inl f ↦
            let x : moves (main_move s.main s.mem) ≡ false = ap moves e in
            let y : moves (r_move s.worker s.mem) ≡ false = ap moves f in
            let g : spawning s.main s.mem ≡ true = ground arith in
            let b = spawning-start s.main s.mem g in
            (_, (spawn_turn b.0 b.1, spawns q b.0 b.1, refl, refl))
      ]
    ]

-- The call has returned.
abbrev pub IsBack : ℕ → System → System → Type 0
IsBack timeout s t = Reach timeout t × (t.main ≡ idle) × (t.mem.calls ≡ suc s.mem.calls)

returns :
    (fuel timeout : ℕ) (s : System)
    → rank_of s ≤ fuel
    → Reach timeout s
    → s.main ≢ idle
    → s.alarm ≡ quiet
    → s.dump ≡ off
    → (n : ℕ) × (t : System) × Turns n s t × IsBack timeout s t
unfolding counted
returns zero timeout s b r h q d =
    let x = Turn-exists timeout s (Reach-IsSound timeout s r) h q d in
    let k = Turn-rank s x.0 x.1.0 in absurd (omega arith)
returns (suc fuel) timeout s b r h q d =
    let x = Turn-exists timeout s (Reach-IsSound timeout s r) h q d in
    let u = x.0 in
    let k = Turn-rank s u x.1.0 in
    let c = Turn-calls s u x.1.0 in
    elim (idle-or u.main) [
      | inl e ↦
          (1, u, turn x.1.0 none_left, (later r x.1.1, e, c ∙ ap (λ p. counted p s.mem.calls) e))
      | inr g ↦
          let z = returns fuel timeout u (omega arith) (later r x.1.1) g (x.1.2 ∙ q) (x.1.3 ∙ d) in
          (
            suc z.0,
            z.1,
            turn x.1.0 z.2,
            (z.3.0, z.3.1, z.3.2 ∙ ap suc (c ∙ counted-busy u.main s.mem.calls g)),
          )
    ]

-- From every state that the process can reach in a call, with no handler running, moves of the two
-- threads lead to the return of the call, which counts it, and to a state that the process can reach.
pub Reach-returns :
    (timeout : ℕ) (s : System)
    → Reach timeout s
    → s.main ≢ idle
    → s.alarm ≡ quiet
    → s.dump ≡ off
    → (n : ℕ) × (t : System) × Turns n s t × IsBack timeout s t
Reach-returns timeout s r = returns (rank_of s) timeout s (omega arith) r
