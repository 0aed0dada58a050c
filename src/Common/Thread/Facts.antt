-- ===== src/Common/Thread/Facts.antt =====
-- What the positions of the two threads of harnesses/common.h say of the rest of the memory: of the
-- waiters, the thread, the label, the clock, the number of the input, and the `finishing` flag.
use r_oss_fuzz.Base.{
  ℕ, suc, ◌≤◌, ◌<◌, ◌==◌, Bool, true, false, not, ◌&&◌, ◌||◌, Option, none, some, ◌≡◌, refl,
}
use r_oss_fuzz.Common.Thread.{
  Shared, Main, idle, start, created, number, renumber, check, waiting, release, settle, Worker,
  absent, asleep, inside, leave,
}

abbrev pub implies : Bool → Bool → Bool
implies true b = b
implies false b = true

pub implies-true : (b : Bool) → implies b true ≡ true
implies-true true = refl
implies-true false = refl

abbrev pub has_job : Option ℕ → Bool
has_job none = false
has_job (some k) = true

unfoldable pub is_waiting : Main → Bool
is_waiting waiting = true
is_waiting p = false

unfoldable pub is_asleep : Worker → Bool
is_asleep asleep = true
is_asleep w = false

-- Each waiter waits for what has not happened yet.
unfoldable pub IsAwake : Main → Worker → Shared → Type 0
IsAwake p w m =
    (implies m.main_waits (is_waiting p && has_job m.job) ≡ true)
    × (implies m.r_waits (is_asleep w && not (has_job m.job)) ≡ true)

unfoldable pub has_thread : Worker → Bool
has_thread absent = false
has_thread w = true

unfoldable pub IsSpawned : Main → Bool → Bool → Type 0
IsSpawned idle started thread = started ≡ thread
IsSpawned start started thread = started ≡ thread
IsSpawned created started thread = (started ≡ false) × (thread ≡ true)
IsSpawned p started thread = (started ≡ true) × (thread ≡ true)

-- The target has been entered, and its last label may still be set.
unfoldable pub is_labelled : Worker → Bool
is_labelled inside = true
is_labelled leave = true
is_labelled w = false

-- A label is set while a target is entered, or behind start-up and in front of the first input.
abbrev pub IsLabelled : Worker → Shared → Type 0
IsLabelled w m = implies (has_job m.label) (is_labelled w || (m.ran == 1)) ≡ true

abbrev pub IsClocked : Shared → Type 0
IsClocked m = (m.armed ≤ m.now) × (m.since ≤ m.now)

-- From the numbering of a call on, `input` is not 0.
unfoldable pub IsNumbered : Main → ℕ → Type 0
IsNumbered idle n = Unit
IsNumbered start n = Unit
IsNumbered created n = Unit
IsNumbered number n = Unit
IsNumbered renumber n = n ≡ 0
IsNumbered p n = 0 < n

-- `finishing` is set for an input that has been run, and is off between the calls.
unfoldable pub may_finish : Main → Bool
may_finish check = true
may_finish waiting = true
may_finish release = true
may_finish settle = true
may_finish p = false

abbrev pub IsFinishing : Main → Shared → Type 0
IsFinishing p m = implies m.finishing (may_finish p && (m.ran == suc m.calls)) ≡ true
