-- ===== src/Common/Thread/Rank.antt =====
-- How far `fuzz_run_on_r_thread` (harnesses/common.h) is from its return: each move of a thread, with
-- no wakeup that nothing has caused, comes nearer.
use r_oss_fuzz.Base.{
  arith, refl, ℕ, ◌+◌, ◌≤◌, ◌<◌, ◌≢◌, if◌then◌else◌, Bool, false, Option, none, some,
}
use r_oss_fuzz.Common.Thread.{
  Shared, Main, idle, start, created, number, renumber, acquire, offer, check, waiting, release,
  settle, arm, main_move, Worker, absent, lock, look, asleep, unlock, stamp, mark, enter, inside,
  leave, unmark, relock, clear, r_move,
}
use r_oss_fuzz.Common.Thread.Zones.{After}
use r_oss_fuzz.Common.Thread.Facts.{has_job}

unfoldable pub main_rank : Main → Option ℕ → Bool → ℕ
main_rank idle j b = 0
main_rank start j b = 70
main_rank created j b = 48
main_rank number j b = 47
main_rank renumber j b = 46
main_rank acquire j b = 45
main_rank offer j b = 44
main_rank check j b = if has_job j then 12 else 6
main_rank waiting j b = if has_job j then if b then 11 else 13 else 7
main_rank release j b = 5
main_rank settle j b = 4
main_rank arm j b = 3

unfoldable pub r_rank : Worker → Option ℕ → Bool → ℕ
r_rank absent j r = 0
r_rank lock j r = if has_job j then 20 else 3
r_rank look j r = if has_job j then 19 else 2
r_rank asleep j r = if has_job j then 20 else if r then 1 else 3
r_rank unlock j r = 18
r_rank stamp j r = 17
r_rank mark j r = 16
r_rank enter j r = 15
r_rank inside j r = 14
r_rank leave j r = 13
r_rank unmark j r = 12
r_rank relock j r = 11
r_rank clear j r = 10

unfoldable pub rank : Main → Worker → Shared → ℕ
rank p w m = main_rank p m.job m.main_waits + r_rank w m.job m.r_waits

offer-r_rank :
    (w : Worker) (k : ℕ) (j : Option ℕ) (r : Bool) → r_rank w (some k) false ≤ r_rank w j r + 19
unfolding r_rank
offer-r_rank absent k j r = ground arith
offer-r_rank lock k j r = ground arith
offer-r_rank look k j r = ground arith
offer-r_rank asleep k j r = ground arith
offer-r_rank unlock k j r = ground arith
offer-r_rank stamp k j r = ground arith
offer-r_rank mark k j r = ground arith
offer-r_rank enter k j r = ground arith
offer-r_rank inside k j r = ground arith
offer-r_rank leave k j r = ground arith
offer-r_rank unmark k j r = ground arith
offer-r_rank relock k j r = ground arith
offer-r_rank clear k j r = ground arith

clear-main_rank : (p : Main) (j : Option ℕ) (b : Bool) → main_rank p none false ≤ main_rank p j b
unfolding main_rank
clear-main_rank idle j b = ground arith
clear-main_rank start j b = ground arith
clear-main_rank created j b = ground arith
clear-main_rank number j b = ground arith
clear-main_rank renumber j b = ground arith
clear-main_rank acquire j b = ground arith
clear-main_rank offer j b = ground arith
clear-main_rank check j b = ground arith
clear-main_rank waiting j b = ground arith
clear-main_rank release j b = ground arith
clear-main_rank settle j b = ground arith
clear-main_rank arm j b = ground arith

pub main-rank :
    (p : Main) (w : Worker) (m : Shared)
    → p ≢ idle
    → After (λ r. rank r.0 w r.1 < rank p w m) (main_move p m)
unfolding main_move main_rank rank
main-rank idle w m h = absurd (h refl)
main-rank start w m h = ground arith
main-rank created w m h = ground arith
main-rank number w m h = ground arith
main-rank renumber w m h = ground arith
main-rank acquire w m h = ground arith
main-rank offer w m h = let k = offer-r_rank w m.calls m.job m.r_waits in ground arith
main-rank check w m h = ground arith
main-rank waiting w m h = ground arith
main-rank release w m h = ground arith
main-rank settle w m h = ground arith
main-rank arm w m h = ground arith

pub r-rank :
    (p : Main) (w : Worker) (m : Shared) → After (λ r. rank p r.0 r.1 < rank p w m) (r_move w m)
unfolding r_move r_rank rank
r-rank p absent m = ground arith
r-rank p lock m = ground arith
r-rank p look m = ground arith
r-rank p asleep m = ground arith
r-rank p unlock m = ground arith
r-rank p stamp m = ground arith
r-rank p mark m = ground arith
r-rank p enter m = ground arith
r-rank p inside m = ground arith
r-rank p leave m = ground arith
r-rank p unmark m = ground arith
r-rank p relock m = ground arith
r-rank p clear m = let k = clear-main_rank p m.job m.main_waits in ground arith

main_rank-le : (p : Main) (j : Option ℕ) (b : Bool) → main_rank p j b ≤ 70
unfolding main_rank
main_rank-le idle j b = ground arith
main_rank-le start j b = ground arith
main_rank-le created j b = ground arith
main_rank-le number j b = ground arith
main_rank-le renumber j b = ground arith
main_rank-le acquire j b = ground arith
main_rank-le offer j b = ground arith
main_rank-le check j b = ground arith
main_rank-le waiting j b = ground arith
main_rank-le release j b = ground arith
main_rank-le settle j b = ground arith
main_rank-le arm j b = ground arith

r_rank-le : (w : Worker) (j : Option ℕ) (b : Bool) → r_rank w j b ≤ 20
unfolding r_rank
r_rank-le absent j b = ground arith
r_rank-le lock j b = ground arith
r_rank-le look j b = ground arith
r_rank-le asleep j b = ground arith
r_rank-le unlock j b = ground arith
r_rank-le stamp j b = ground arith
r_rank-le mark j b = ground arith
r_rank-le enter j b = ground arith
r_rank-le inside j b = ground arith
r_rank-le leave j b = ground arith
r_rank-le unmark j b = ground arith
r_rank-le relock j b = ground arith
r_rank-le clear j b = ground arith

pub spawn-rank : (w : Worker) (m : Shared) → rank created lock m < rank start w m
unfolding rank main_rank r_rank
spawn-rank w m = let k = r_rank-le lock m.job m.r_waits in omega arith

pub rank-le : (p : Main) (w : Worker) (m : Shared) → rank p w m ≤ 90
unfolding rank
rank-le p w m =
    let a = main_rank-le p m.job m.main_waits in let b = r_rank-le w m.job m.r_waits in omega arith
