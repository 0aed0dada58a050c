-- ===== src/Common/Thread/Progress.antt =====
-- A call of `fuzz_run_on_r_thread` (harnesses/common.h) is never stuck: one of the two threads moves.
use r_oss_fuzz.Base.{
  arith, ◌∙◌, sym, inl, inr, Bool, true, false, not, ◌&&◌, ◌||◌, Option, none, some, ◌≡◌,
  Bool-cases,
}
use r_oss_fuzz.Common.Thread.{
  Shared, Main, idle, start, created, number, renumber, acquire, offer, check, waiting, release,
  settle, arm, main_move, Worker, absent, lock, look, asleep, unlock, stamp, mark, enter, inside,
  leave, unmark, relock, clear, r_move,
}
use r_oss_fuzz.Common.Thread.Zones.{main_owns, r_owns, IsExclusive}
use r_oss_fuzz.Common.Thread.Facts.{
  implies, has_job, IsAwake, has_thread, is_waiting, is_asleep, IsSpawned,
}

abbrev pub moves {ℓ} : {A : Type ℓ} → Option A → Bool
moves none = false
moves (some a) = true

-- The R thread has yet to be created.
abbrev pub spawning : Main → Shared → Bool
spawning start m = not m.started
spawning p m = false

-- With the mutex free, and a job that has been offered.
r-moves :
    (w : Worker) (m : Shared)
    → has_thread w ≡ true
    → m.locked ≡ r_owns w
    → implies m.r_waits (is_asleep w && not (has_job m.job)) ≡ true
    → has_job m.job ≡ true
    → moves (r_move w m) ≡ true
unfolding r_move r_owns has_thread is_asleep
r-moves absent m t l a e = ground arith
r-moves lock m t l a e = ground arith
r-moves look m t l a e = ground arith
r-moves asleep m t l a e = ground arith
r-moves unlock m t l a e = ground arith
r-moves stamp m t l a e = ground arith
r-moves mark m t l a e = ground arith
r-moves enter m t l a e = ground arith
r-moves inside m t l a e = ground arith
r-moves leave m t l a e = ground arith
r-moves unmark m t l a e = ground arith
r-moves relock m t l a e = ground arith
r-moves clear m t l a e = ground arith

r_owner-moves : (w : Worker) (m : Shared) → r_owns w ≡ true → moves (r_move w m) ≡ true
unfolding r_owns r_move
r_owner-moves absent m e = ground arith
r_owner-moves lock m e = ground arith
r_owner-moves look m e = ground arith
r_owner-moves asleep m e = ground arith
r_owner-moves unlock m e = ground arith
r_owner-moves stamp m e = ground arith
r_owner-moves mark m e = ground arith
r_owner-moves enter m e = ground arith
r_owner-moves inside m e = ground arith
r_owner-moves leave m e = ground arith
r_owner-moves unmark m e = ground arith
r_owner-moves relock m e = ground arith
r_owner-moves clear m e = ground arith

pub Progress :
    (p : Main) (w : Worker) (m : Shared)
    → IsExclusive m.locked (main_owns p) (r_owns w)
    → IsAwake p w m
    → IsSpawned p m.started (has_thread w)
    → (moves (main_move p m) || moves (r_move w m) || spawning p m) ≡ true
unfolding main_move main_owns IsAwake IsSpawned is_waiting
Progress idle w m x a t = ground arith
Progress start w m x a t = ground arith
Progress created w m x a t = ground arith
Progress number w m x a t = ground arith
Progress renumber w m x a t = ground arith
Progress offer w m x a t = ground arith
Progress check w m x a t = ground arith
Progress release w m x a t = ground arith
Progress settle w m x a t = ground arith
Progress arm w m x a t = ground arith
Progress acquire w m x a t = elim (Bool-cases m.locked) [
  | inl e ↦ let k = r_owner-moves w m (sym x.0 ∙ e) in ground arith
  | inr e ↦ ground arith
]
Progress waiting w m x a t = elim (Bool-cases m.locked) [
  | inl e ↦ let k = r_owner-moves w m (sym x.0 ∙ e) in ground arith
  | inr e ↦ elim (Bool-cases m.main_waits) [
    | inl f ↦
        let j : has_job m.job ≡ true = let h = a.0 in ground arith in
        let k = r-moves w m t.1 x.0 a.1 j in ground arith
    | inr f ↦ ground arith
  ]
]
