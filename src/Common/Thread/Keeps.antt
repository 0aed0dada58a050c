-- ===== src/Common/Thread/Keeps.antt =====
-- Each move of the two threads of harnesses/common.h keeps the handoff of the job, the mutex and the
-- `running` flag.
use r_oss_fuzz.Base.{
  arith, if◌then◌else◌, ◌+◌, ◌%◌, ◌^◌, ◌==◌, ap, refl, suc, Bool, true, false, none, ◌≡◌,
}
use r_oss_fuzz.Common.Thread.{
  Shared, Main, idle, start, created, number, renumber, acquire, offer, check, waiting, release,
  settle, arm, main_move, Worker, absent, lock, look, asleep, unlock, stamp, mark, enter, inside,
  leave, unmark, relock, clear, r_move,
}
use r_oss_fuzz.Common.Thread.Zones.{
  zone, Zone, phase, Phase, resting, main_owns, r_owns, is_running, IsHanded, After, After-if,
  After-wait, After-wait_two, IsExclusive, apart, offered, carried, performed, cleared, back,
}

pub main-IsHanded :
    (p : Main) (h : Phase) (m : Shared)
    → IsHanded m (zone p) h
    → After (λ r. IsHanded r.1 (zone r.0) h) (main_move p m)
unfolding main_move zone
main-IsHanded idle h m (apart e f) = apart e f
main-IsHanded start h m (apart e f) = After-if _ m.started _ none (apart e f) tt
main-IsHanded created h m (apart e f) = apart e f
main-IsHanded number h m (apart e f) =
    elim ((m.input + 1) % 2 ^ 32 == 0)
      as (λ x.
        IsHanded (record m { input = (m.input + 1) % 2 ^ 32 })
          (zone (if x then renumber else acquire)) resting) [ true ↦ apart e f | false ↦ apart e f ]
main-IsHanded renumber h m (apart e f) = apart e f
main-IsHanded acquire h m (apart e f) = After-wait _ m.locked _ (apart e f)
main-IsHanded offer h m (apart e f) = offered refl f
main-IsHanded check h m (offered e f) = rw e (offered refl f)
main-IsHanded check h m (carried e g f) = rw e (carried refl g f)
main-IsHanded check h m (performed e g f) = rw e (performed refl g f)
main-IsHanded check h m (cleared e f) = rw e (back refl f)
main-IsHanded waiting h m (offered e f) = After-wait_two _ m.main_waits m.locked _ (offered e f)
main-IsHanded waiting h m (carried e g f) = After-wait_two _ m.main_waits m.locked _ (carried e g f)
main-IsHanded waiting h m (performed e g f) =
    After-wait_two _ m.main_waits m.locked _ (performed e g f)
main-IsHanded waiting h m (cleared e f) = After-wait_two _ m.main_waits m.locked _ (cleared e f)
main-IsHanded release h m (back e f) = back e f
main-IsHanded settle h m (back e f) = back e f
main-IsHanded arm h m (back e f) = apart e f

pub r-IsHanded :
    (z : Zone) (w : Worker) (m : Shared)
    → IsHanded m z (phase w)
    → After (λ r. IsHanded r.1 z (phase r.0)) (r_move w m)
unfolding r_move phase
r-IsHanded z absent m j = tt
r-IsHanded z lock m (apart e f) = After-wait _ m.locked _ (apart e f)
r-IsHanded z lock m (offered e f) = After-wait _ m.locked _ (offered e f)
r-IsHanded z lock m (cleared e f) = After-wait _ m.locked _ (cleared e f)
r-IsHanded z lock m (back e f) = After-wait _ m.locked _ (back e f)
r-IsHanded z look m (apart e f) = rw e (apart refl f)
r-IsHanded z look m (offered e f) = rw e (carried refl refl f)
r-IsHanded z look m (cleared e f) = rw e (cleared refl f)
r-IsHanded z look m (back e f) = rw e (back refl f)
r-IsHanded z asleep m (apart e f) = After-wait_two _ m.r_waits m.locked _ (apart e f)
r-IsHanded z asleep m (offered e f) = After-wait_two _ m.r_waits m.locked _ (offered e f)
r-IsHanded z asleep m (cleared e f) = After-wait_two _ m.r_waits m.locked _ (cleared e f)
r-IsHanded z asleep m (back e f) = After-wait_two _ m.r_waits m.locked _ (back e f)
r-IsHanded z unlock m (carried e g f) = carried e g f
r-IsHanded z stamp m (carried e g f) = carried e g f
r-IsHanded z mark m (carried e g f) = carried e g f
r-IsHanded z enter m (carried e g f) = carried e g f
r-IsHanded z inside m (carried e g f) = performed e g (ap suc f)
r-IsHanded z leave m (performed e g f) = performed e g f
r-IsHanded z unmark m (performed e g f) = performed e g f
r-IsHanded z relock m (performed e g f) = After-wait _ m.locked _ (performed e g f)
r-IsHanded z clear m (performed e g f) = cleared refl f

pub main-IsExclusive :
    (p : Main) (b : Bool) (m : Shared)
    → IsExclusive m.locked (main_owns p) b
    → After (λ r. IsExclusive r.1.locked (main_owns r.0) b) (main_move p m)
unfolding main_move main_owns
main-IsExclusive idle b m e = ground arith
main-IsExclusive start b m e = ground arith
main-IsExclusive created b m e = ground arith
main-IsExclusive number b m e = ground arith
main-IsExclusive renumber b m e = ground arith
main-IsExclusive acquire b m e = ground arith
main-IsExclusive offer b m e = ground arith
main-IsExclusive check b m e = ground arith
main-IsExclusive waiting b m e = ground arith
main-IsExclusive release b m e = ground arith
main-IsExclusive settle b m e = ground arith
main-IsExclusive arm b m e = ground arith

pub r-IsExclusive :
    (a : Bool) (w : Worker) (m : Shared)
    → IsExclusive m.locked a (r_owns w)
    → After (λ r. IsExclusive r.1.locked a (r_owns r.0)) (r_move w m)
unfolding r_move r_owns
r-IsExclusive a absent m e = ground arith
r-IsExclusive a lock m e = ground arith
r-IsExclusive a look m e = ground arith
r-IsExclusive a asleep m e = ground arith
r-IsExclusive a unlock m e = ground arith
r-IsExclusive a stamp m e = ground arith
r-IsExclusive a mark m e = ground arith
r-IsExclusive a enter m e = ground arith
r-IsExclusive a inside m e = ground arith
r-IsExclusive a leave m e = ground arith
r-IsExclusive a unmark m e = ground arith
r-IsExclusive a relock m e = ground arith
r-IsExclusive a clear m e = ground arith

pub main-running :
    (p : Main) (b : Bool) (m : Shared)
    → m.running ≡ b
    → After (λ r. r.1.running ≡ b) (main_move p m)
unfolding main_move
main-running idle b m e = ground arith
main-running start b m e = ground arith
main-running created b m e = ground arith
main-running number b m e = ground arith
main-running renumber b m e = ground arith
main-running acquire b m e = ground arith
main-running offer b m e = ground arith
main-running check b m e = ground arith
main-running waiting b m e = ground arith
main-running release b m e = ground arith
main-running settle b m e = ground arith
main-running arm b m e = ground arith

pub r-running :
    (w : Worker) (m : Shared)
    → m.running ≡ is_running w
    → After (λ r. r.1.running ≡ is_running r.0) (r_move w m)
unfolding r_move is_running
r-running absent m e = ground arith
r-running lock m e = ground arith
r-running look m e = ground arith
r-running asleep m e = ground arith
r-running unlock m e = ground arith
r-running stamp m e = ground arith
r-running mark m e = ground arith
r-running enter m e = ground arith
r-running inside m e = ground arith
r-running leave m e = ground arith
r-running unmark m e = ground arith
r-running relock m e = ground arith
r-running clear m e = ground arith
