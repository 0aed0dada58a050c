-- ===== src/Targets/World.antt =====
-- The operations of a target carried out on R's objects and on files, by the helpers of
-- harnesses/common.h. What an evaluation does to the world is a parameter, and so are the memory
-- manager and the C library. A `Host` is read off: an operation succeeds where its helper returns TRUE.
pub mod Laws
pub mod Holds
pub mod Ran
pub mod Runs
use r_oss_fuzz.Base.{ℕ, Bool, true, false, Option, none, some, List, [], ◌∷◌, Bytes, ◌≡◌}
use r_oss_fuzz.Host.{
  Vec, x_str, x_utf8, x_latin1, x_list, fmt_str, aux_string, aux_utf8, Mark, native, utf8, latin1,
  Op, set_string, set_raw_element, set_raw_arg, write_scratch, Trace, Host, c_string,
}
use r_oss_fuzz.Common.Objects.{
  Object, strings, vector, call, Cell, Heap, Reached, contains, Collector, Outcome, returned,
  jumped, fault,
}
use r_oss_fuzz.Common.Objects.Reach.{IsValid}
use r_oss_fuzz.Common.Staging.{
  fuzz_set_string, fuzz_set_string_ce, fuzz_set_raw_arg, stage_encoding_input,
}
use r_oss_fuzz.Common.Scratch.{Files, Clib, fuzz_write_scratch}

pub record World : Type 0 where
  pub heap : Heap
  pub files : Files

-- Where a target has its objects and its calls, and its scratch file.
pub record Layout : Type 0 where
  pub object_of : Vec → Option ℕ
  pub call_of : ℕ → Option ℕ
  pub scratch_path : Bytes

-- What the rest of the program is: R's memory manager, the C library, and what any other operation does,
-- evaluations included, and whether it succeeds.
pub record Machine : Type 0 where
  pub collector : Collector
  pub clib : Clib
  pub other : Op → World → Bool × World

abbrev pub verdict : Files → Outcome Bool × Heap → Bool × World
verdict f (returned b, h) = (b, record { heap = h; files = f })
verdict f (jumped, h) = (false, record { heap = h; files = f })
verdict f (fault, h) = (false, record { heap = h; files = f })

abbrev pub on_object : Option ℕ → (ℕ → Heap → Outcome Bool × Heap) → World → Bool × World
on_object none act w = (false, w)
on_object (some a) act w = verdict w.files (act a w.heap)

-- A text without a mark is set by `fuzz_set_string`, any other by `fuzz_set_string_ce`.
abbrev pub set_text : Collector → Mark → Bytes → ℕ → Heap → Outcome Bool × Heap
set_text k native s a = fuzz_set_string k a s
set_text k utf8 s a = fuzz_set_string_ce k a s utf8
set_text k latin1 s a = fuzz_set_string_ce k a s latin1

module _ (m : Machine) (l : Layout) where
  abbrev pub step : Op → World → Bool × World
  step (set_string v mark s) = on_object (l.object_of v) (set_text m.collector mark s)
  step (set_raw_element v s) = on_object (l.object_of v) (λ a. stage_encoding_input m.collector a s)
  step (set_raw_arg i s) = on_object (l.call_of i) (λ a. fuzz_set_raw_arg m.collector a s)
  step (write_scratch s) = λ w.
      let r = fuzz_write_scratch m.clib l.scratch_path s w.files in (r.0, record w { files = r.1 })
  step op = m.other op

  -- The world behind a trace.
  unfoldable pub replay : Trace → World → World
  replay [] w = w
  replay (op ∷ t) w = replay t (step op w).1

  unfoldable pub host : World → Host
  unfolding replay
  host w t op = (step op (replay t w)).0

-- The objects that hold text, and the one that holds a raw vector.
abbrev pub IsText : Vec → Type 0
IsText x_str = Unit
IsText x_utf8 = Unit
IsText x_latin1 = Unit
IsText fmt_str = Unit
IsText aux_string = Unit
IsText aux_utf8 = Unit
IsText v = ⊥

abbrev pub Fits : Op → Type 0
Fits (set_string v mark s) = IsText v
Fits (set_raw_element v s) = v ≡ x_list
Fits op = Unit

abbrev pub IsStrings : Object → Type 0
IsStrings o = (c : ℕ) × (o ≡ strings c)

abbrev pub IsVector : Object → Type 0
IsVector o = (c : ℕ) × (o ≡ vector c)

abbrev pub IsCall : Object → Type 0
IsCall o = (f : Cell) × (x : Cell) × (r : List Cell) × (o ≡ call (f ∷ x ∷ r))

-- Start-up has protected every object and call, and each is of its type.
pub record Laid (l : Layout) (h : Heap) : Type 0 where
  pub valid : IsValid h
  pub text :
      (v : Vec) (a : ℕ)
      → IsText v
      → l.object_of v ≡ some a
      → (contains a h.roots ≡ true) × IsStrings (h.cells a)
  pub element :
      (a : ℕ) → l.object_of x_list ≡ some a → (contains a h.roots ≡ true) × IsVector (h.cells a)
  pub argument : (i a : ℕ) → l.call_of i ≡ some a → (contains a h.roots ≡ true) × IsCall (h.cells a)

-- An evaluation leaves the objects that the roots reach, and the roots.
pub record Quiet (m : Machine) : Type 0 where
  pub valid : (op : Op) (w : World) → IsValid w.heap → IsValid (m.other op w).1.heap
  pub roots : (op : Op) (w : World) → (m.other op w).1.heap.roots ≡ w.heap.roots
  pub same :
      (op : Op) (w : World) (a : ℕ)
      → Reached w.heap.roots w.heap.cells a
      → (m.other op w).1.heap.cells a ≡ w.heap.cells a
