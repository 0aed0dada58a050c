-- ===== src/Common/Thread/Flags.antt =====
-- The moves of the two threads of harnesses/common.h keep the clock, the number of the input and the
-- `finishing` flag as `Common.Thread.Facts` says.
use r_oss_fuzz.Base.{arith, ◌≡◌}
use r_oss_fuzz.Common.Thread.{
  Shared, Main, idle, start, created, number, renumber, acquire, offer, check, waiting, release,
  settle, arm, main_move, Worker, absent, lock, look, asleep, unlock, stamp, mark, enter, inside,
  leave, unmark, relock, clear, r_move,
}
use r_oss_fuzz.Common.Thread.Zones.{zone, Zone, phase, carrying, IsHanded, After, carried}
use r_oss_fuzz.Common.Thread.Facts.{may_finish, IsClocked, IsNumbered, IsFinishing}

pub main-IsClocked :
    (p : Main) (m : Shared) → IsClocked m → After (λ r. IsClocked r.1) (main_move p m)
unfolding main_move
main-IsClocked idle m h = ground arith
main-IsClocked start m h = ground arith
main-IsClocked created m h = ground arith
main-IsClocked number m h = ground arith
main-IsClocked renumber m h = ground arith
main-IsClocked acquire m h = ground arith
main-IsClocked offer m h = ground arith
main-IsClocked check m h = ground arith
main-IsClocked waiting m h = ground arith
main-IsClocked release m h = ground arith
main-IsClocked settle m h = ground arith
main-IsClocked arm m h = ground arith

pub r-IsClocked : (w : Worker) (m : Shared) → IsClocked m → After (λ r. IsClocked r.1) (r_move w m)
unfolding r_move
r-IsClocked absent m h = ground arith
r-IsClocked lock m h = ground arith
r-IsClocked look m h = ground arith
r-IsClocked asleep m h = ground arith
r-IsClocked unlock m h = ground arith
r-IsClocked stamp m h = ground arith
r-IsClocked mark m h = ground arith
r-IsClocked enter m h = ground arith
r-IsClocked inside m h = ground arith
r-IsClocked leave m h = ground arith
r-IsClocked unmark m h = ground arith
r-IsClocked relock m h = ground arith
r-IsClocked clear m h = ground arith

pub main-IsNumbered :
    (p : Main) (m : Shared)
    → IsNumbered p m.input
    → After (λ r. IsNumbered r.0 r.1.input) (main_move p m)
unfolding main_move IsNumbered
main-IsNumbered idle m h = ground arith
main-IsNumbered start m h = ground arith
main-IsNumbered created m h = ground arith
main-IsNumbered number m h = ground arith
main-IsNumbered renumber m h = ground arith
main-IsNumbered acquire m h = ground arith
main-IsNumbered offer m h = ground arith
main-IsNumbered check m h = ground arith
main-IsNumbered waiting m h = ground arith
main-IsNumbered release m h = ground arith
main-IsNumbered settle m h = ground arith
main-IsNumbered arm m h = ground arith

pub r-IsNumbered :
    (p : Main) (w : Worker) (m : Shared)
    → IsNumbered p m.input
    → After (λ r. IsNumbered p r.1.input) (r_move w m)
unfolding r_move
r-IsNumbered p absent m h = ground arith
r-IsNumbered p lock m h = ground arith
r-IsNumbered p look m h = ground arith
r-IsNumbered p asleep m h = ground arith
r-IsNumbered p unlock m h = ground arith
r-IsNumbered p stamp m h = ground arith
r-IsNumbered p mark m h = ground arith
r-IsNumbered p enter m h = ground arith
r-IsNumbered p inside m h = ground arith
r-IsNumbered p leave m h = ground arith
r-IsNumbered p unmark m h = ground arith
r-IsNumbered p relock m h = ground arith
r-IsNumbered p clear m h = ground arith

pub main-IsFinishing :
    (p : Main) (m : Shared) → IsFinishing p m → After (λ r. IsFinishing r.0 r.1) (main_move p m)
unfolding main_move may_finish
main-IsFinishing idle m f = ground arith
main-IsFinishing start m f = ground arith
main-IsFinishing created m f = ground arith
main-IsFinishing number m f = ground arith
main-IsFinishing renumber m f = ground arith
main-IsFinishing acquire m f = ground arith
main-IsFinishing offer m f = ground arith
main-IsFinishing check m f = ground arith
main-IsFinishing waiting m f = ground arith
main-IsFinishing release m f = ground arith
main-IsFinishing settle m f = ground arith
main-IsFinishing arm m f = ground arith

pub carried-ran : (m : Shared) {z : Zone} → IsHanded m z carrying → m.ran ≡ m.calls
carried-ran m (carried e g f) = f

pub r-IsFinishing :
    (p : Main) (w : Worker) (m : Shared)
    → IsHanded m (zone p) (phase w)
    → IsFinishing p m
    → After (λ r. IsFinishing p r.1) (r_move w m)
unfolding r_move phase
r-IsFinishing p absent m j f = ground arith
r-IsFinishing p lock m j f = ground arith
r-IsFinishing p look m j f = ground arith
r-IsFinishing p asleep m j f = ground arith
r-IsFinishing p unlock m j f = ground arith
r-IsFinishing p stamp m j f = ground arith
r-IsFinishing p mark m j f = ground arith
r-IsFinishing p enter m j f = ground arith
r-IsFinishing p leave m j f = ground arith
r-IsFinishing p unmark m j f = ground arith
r-IsFinishing p relock m j f = ground arith
r-IsFinishing p clear m j f = ground arith
r-IsFinishing p inside m j f = let e = carried-ran m j in ground arith
