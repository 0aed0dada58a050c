-- ===== src/Common/Thread/Moves.antt =====
-- The moves of the two threads of harnesses/common.h keep the facts of `Common.Thread.Facts`.
use r_oss_fuzz.Base.{
  ℕ, zero, suc, ◌==◌, true, Option, none, if◌then◌else◌, ◌≡◌, refl, sym, ap, ◌∙◌, arith, Bool,
}
use r_oss_fuzz.Common.Thread.{
  Shared, Main, idle, start, created, number, renumber, acquire, offer, check, waiting, release,
  settle, arm, main_move, Worker, absent, lock, look, asleep, unlock, stamp, mark, enter, inside,
  leave, unmark, relock, clear, r_move,
}
use r_oss_fuzz.Common.Thread.Zones.{After, Zone, phase, finished, IsHanded, performed}
use r_oss_fuzz.Common.Thread.Facts.{
  IsAwake, has_thread, is_waiting, is_asleep, IsSpawned, is_labelled, IsLabelled, implies, has_job,
  implies-true,
}

pub main-IsAwake :
    (p : Main) (w : Worker) (m : Shared)
    → IsAwake p w m
    → After (λ r. IsAwake r.0 w r.1) (main_move p m)
unfolding main_move IsAwake is_waiting
main-IsAwake idle w m h = ground arith
main-IsAwake start w m h = ground arith
main-IsAwake created w m h = ground arith
main-IsAwake number w m h = ground arith
main-IsAwake renumber w m h = ground arith
main-IsAwake acquire w m h = ground arith
main-IsAwake offer w m h = ground arith
main-IsAwake check w m h = ground arith
main-IsAwake waiting w m h = ground arith
main-IsAwake release w m h = ground arith
main-IsAwake settle w m h = ground arith
main-IsAwake arm w m h = ground arith

pub r-IsAwake :
    (p : Main) (w : Worker) (m : Shared)
    → IsAwake p w m
    → After (λ r. IsAwake p r.0 r.1) (r_move w m)
unfolding r_move IsAwake is_asleep
r-IsAwake p absent m h = ground arith
r-IsAwake p lock m h = ground arith
r-IsAwake p look m h = ground arith
r-IsAwake p asleep m h = ground arith
r-IsAwake p unlock m h = ground arith
r-IsAwake p stamp m h = ground arith
r-IsAwake p mark m h = ground arith
r-IsAwake p enter m h = ground arith
r-IsAwake p inside m h = ground arith
r-IsAwake p leave m h = ground arith
r-IsAwake p unmark m h = ground arith
r-IsAwake p relock m h = ground arith
r-IsAwake p clear m h = ground arith

pub main-IsSpawned :
    (p : Main) (b : Bool) (m : Shared)
    → IsSpawned p m.started b
    → After (λ r. IsSpawned r.0 r.1.started b) (main_move p m)
unfolding main_move IsSpawned
main-IsSpawned idle b m h = ground arith
main-IsSpawned start b m h = ground arith
main-IsSpawned created b m h = ground arith
main-IsSpawned number b m h = ground arith
main-IsSpawned renumber b m h = ground arith
main-IsSpawned acquire b m h = ground arith
main-IsSpawned offer b m h = ground arith
main-IsSpawned check b m h = ground arith
main-IsSpawned waiting b m h = ground arith
main-IsSpawned release b m h = ground arith
main-IsSpawned settle b m h = ground arith
main-IsSpawned arm b m h = ground arith

pub r-IsSpawned :
    (p : Main) (w : Worker) (m : Shared)
    → IsSpawned p m.started (has_thread w)
    → After (λ r. IsSpawned p r.1.started (has_thread r.0)) (r_move w m)
unfolding r_move has_thread
r-IsSpawned p absent m h = ground arith
r-IsSpawned p lock m h = ground arith
r-IsSpawned p look m h = ground arith
r-IsSpawned p asleep m h = ground arith
r-IsSpawned p unlock m h = ground arith
r-IsSpawned p stamp m h = ground arith
r-IsSpawned p mark m h = ground arith
r-IsSpawned p enter m h = ground arith
r-IsSpawned p inside m h = ground arith
r-IsSpawned p leave m h = ground arith
r-IsSpawned p unmark m h = ground arith
r-IsSpawned p relock m h = ground arith
r-IsSpawned p clear m h = ground arith

pub main-IsLabelled :
    (p : Main) (w : Worker) (m : Shared)
    → IsLabelled w m
    → After (λ r. IsLabelled w r.1) (main_move p m)
unfolding main_move
main-IsLabelled idle w m h = ground arith
main-IsLabelled start w m h = ground arith
main-IsLabelled created w m h = ground arith
main-IsLabelled number w m h = ground arith
main-IsLabelled renumber w m h = ground arith
main-IsLabelled acquire w m h = ground arith
main-IsLabelled offer w m h = ground arith
main-IsLabelled check w m h = ground arith
main-IsLabelled waiting w m h = ground arith
main-IsLabelled release w m h = ground arith
main-IsLabelled settle w m h = ground arith
main-IsLabelled arm w m h = ground arith

-- Only the first job is job 0.
first_ran : (m : Shared) (z : Zone) → IsHanded m z finished → m.held ≡ 0 → m.ran ≡ 1
first_ran m z (performed e g f) q = f ∙ ap suc (sym g ∙ q)

leave_label :
    (label : Option ℕ) (held ran : ℕ)
    → (held ≡ 0 → ran ≡ 1)
    → implies (has_job (if held == 0 then label else none)) (ran == 1) ≡ true
leave_label label zero ran h = rw (h refl) (implies-true (has_job label))
leave_label label (suc n) ran h = ground arith

pub r-IsLabelled :
    (z : Zone) (w : Worker) (m : Shared)
    → IsHanded m z (phase w)
    → IsLabelled w m
    → After (λ r. IsLabelled r.0 r.1) (r_move w m)
unfolding r_move is_labelled phase
r-IsLabelled z absent m j h = ground arith
r-IsLabelled z lock m j h = ground arith
r-IsLabelled z look m j h = ground arith
r-IsLabelled z asleep m j h = ground arith
r-IsLabelled z unlock m j h = ground arith
r-IsLabelled z stamp m j h = ground arith
r-IsLabelled z mark m j h = ground arith
r-IsLabelled z enter m j h = ground arith
r-IsLabelled z inside m j h = ground arith
r-IsLabelled z leave m j h = leave_label m.label m.held m.ran (first_ran m z j)
r-IsLabelled z unmark m j h = ground arith
r-IsLabelled z relock m j h = ground arith
r-IsLabelled z clear m j h = ground arith
