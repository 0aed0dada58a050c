-- ===== src/Common/Thread/System.antt =====
-- The process of harnesses/common.h: the two threads with their signal handlers, and what the kernel,
-- the clock and the fork of a child do between their moves.
use r_oss_fuzz.Base.{ℕ, ◌+◌, Bool, true, false, Option, none, some, ◌≡◌}
use r_oss_fuzz.Common.Thread.{
  Shared, Main, idle, start, created, Worker, absent, lock, inside, main_move, r_move,
}
use r_oss_fuzz.Common.Thread.Handlers.{
  Alarm, quiet, entry, kill, refuse, wait, alarm_move, Dump, off, ready, dump_move,
}

-- `pending` is a dump signal that the R thread has not taken yet.
pub record System : Type 0 where
  pub mem : Shared
  pub main : Main
  pub alarm : Alarm
  pub worker : Worker
  pub dump : Dump
  pub pending : Bool

-- The static storage, at the first reading of the clock.
abbrev pub first_memory : ℕ → Shared
first_memory now = record {
  started = false;
  job = none;
  locked = false;
  main_waits = false;
  r_waits = false;
  now = now;
  since = 0;
  armed = 0;
  running = false;
  finishing = false;
  input = 0;
  requested = 0;
  done = 0;
  label = none;
  held = 0;
  calls = 0;
  ran = 0;
}

abbrev pub first_system : ℕ → System
first_system now = record {
  mem = first_memory now;
  main = idle;
  alarm = quiet;
  worker = absent;
  dump = off;
  pending = false;
}

-- The child keeps the memory, and its `fuzz_r_thread` is as at the start.
unfoldable pub fuzz_r_thread_forget : Shared → Shared
fuzz_r_thread_forget m = record m {
  started = false;
  job = none;
  locked = false;
  main_waits = false;
  r_waits = false;
}

-- A handler keeps its thread from moving until it returns, and a signal does not interrupt its own
-- handler. A fork is made between two inputs, and the model goes on as the child.
pub data Step (timeout : ℕ) (s : System) : System → Type 0 where
  main_runs :
      (p : Main) (m : Shared)
      → s.alarm ≡ quiet
      → main_move s.main s.mem ≡ some (p, m)
      → Step timeout s (record s { mem = m; main = p })
  spawns :
      s.alarm ≡ quiet
      → s.main ≡ start
      → s.mem.started ≡ false
      → Step timeout s (record s { main = created; worker = lock })
  r_runs :
      (w : Worker) (m : Shared)
      → s.dump ≡ off
      → r_move s.worker s.mem ≡ some (w, m)
      → Step timeout s (record s { mem = m; worker = w })
  labels :
      (l : Option ℕ)
      → s.dump ≡ off
      → s.worker ≡ inside
      → Step timeout s (record s { mem = record s.mem { label = l } })
  ticks : (d : ℕ) → Step timeout s (record s { mem = record s.mem { now = s.mem.now + d } })
  main_wakes : Step timeout s (record s { mem = record s.mem { main_waits = false } })
  r_wakes : Step timeout s (record s { mem = record s.mem { r_waits = false } })
  rings : s.alarm ≡ quiet → Step timeout s (record s { alarm = entry })
  alarm_runs :
      (a : Alarm) (m : Shared)
      → alarm_move timeout s.alarm s.mem ≡ some (a, m)
      → Step timeout s (record s { mem = m; alarm = a })
  kills :
      (input : ℕ)
      → s.alarm ≡ kill input
      → Step timeout s (record s { alarm = wait input 0; pending = true })
  kill_fails :
      (input : ℕ) → s.alarm ≡ kill input → Step timeout s (record s { alarm = refuse input })
  takes :
      s.pending ≡ true → s.dump ≡ off → Step timeout s (record s { dump = ready; pending = false })
  dump_runs :
      (d : Dump) (m : Shared)
      → dump_move s.dump s.mem ≡ some (d, m)
      → Step timeout s (record s { mem = m; dump = d })
  forks :
      s.main ≡ idle
      → s.alarm ≡ quiet
      → Step timeout s (record s {
        mem = fuzz_r_thread_forget s.mem;
        worker = absent;
        dump = off;
        pending = false;
      })

-- The states that a process can be in.
pub data Reach (timeout : ℕ) : System → Type 0 where
  begin : (now : ℕ) → Reach timeout (first_system now)
  later : {s t : System} → Reach timeout s → Step timeout s t → Reach timeout t
