-- ===== src/Tests/Worlds.antt =====
-- The targets at a concrete world, and the scratch files of a small C library.
use r_oss_fuzz.Base.{
  ◌*◌, ℕ, suc, Bool, true, false, Option, none, some, [], ◌∷◌, Bytes, codes, length, get_elem?, ltb,
  lt→ltb, take, if◌then◌else◌, ◌≡◌, refl, sym, ap, ◌∙◌, arith,
}
use r_oss_fuzz.Host.{
  c_string, Vec, x_str, x_utf8, x_latin1, x_list, fmt_str, aux_string, aux_utf8, native, Trace,
  set_string, eval_silent,
}
use r_oss_fuzz.Host.Call.{same_text, same_text-eq}
use r_oss_fuzz.Host.Buffers.{accepts}
use r_oss_fuzz.Common.Objects.{contains}
use r_oss_fuzz.Common.Startup.{Environ}
use r_oss_fuzz.Common.Scratch.{
  Entry, file, directory, Files, Clib, fuzz_scratch_file, make_scratch_dir, fuzz_write_scratch,
  file_template, dir_template,
}
use r_oss_fuzz.Common.Scratch.Laws.{
  IsClib, IsUnique, Creates, Templates, Replaces, take-all, fuzz_scratch_file-Creates,
  fuzz_write_scratch-Replaces,
}
use r_oss_fuzz.Targets.Datetime.Probe.{
  find_utf8_locale, candidates, FirstOf, find_utf8_locale-FirstOf,
}
use r_oss_fuzz.Targets.Text
use r_oss_fuzz.Targets.Raw
use r_oss_fuzz.Targets.Encoding
use r_oss_fuzz.Targets.Encoding.{Input, inputs, is_raw}
use r_oss_fuzz.Targets.Encoding.Runs.{stage_of, admits}
use r_oss_fuzz.Targets.World.{World, Layout, Machine, host, IsText, IsStrings, Laid, Quiet}
use r_oss_fuzz.Targets.World.Ran.{Ran}
use r_oss_fuzz.Targets.World.Runs.{raw_run-Ran, text_run-Ran, encoding_run-Ran}
use r_oss_fuzz.Tests.Memory.{lazy, lazy-Keeps, cells, small_heap, small_heap-IsValid}

-- A C library that gives one path, once, and whose writes go well.
abbrev template : Bytes
template = codes "/tmp/fuzz-zip-XXXXXX"

abbrev path : Bytes
path = codes "/tmp/fuzz-zip-a1b2c3"

abbrev give : Files → Bytes → Bool → Option Entry → Option Bytes
give f t true none = some path
give f t true (some e) = none
give f t false o = none

abbrev small_clib : Clib
small_clib = record {
  malloc = λ n. true;
  mkstemp = λ f t. give f t (same_text t template) (f path);
  mkdtemp = λ f t. none;
  write = λ f p b. record { opens = true; takes = length b; closes = true; contents = b };
}

give_lem :
    (f : Files) (t p : Bytes) (b : Bool) (o : Option Entry)
    → (same_text t template ≡ b)
    → (f path ≡ o)
    → give f t b o ≡ some p
    → IsUnique f t p
give_lem f t p true none same free e =
    let k = same_text-eq t template same in
    let q : path ≡ p = ground (arith, e) in
    (codes "/tmp/fuzz-zip-", codes "a1b2c3", k, sym q, refl, ap f (sym q) ∙ free)
give_lem f t p true (some x) same free e = absurd (ground (arith, e))
give_lem f t p false o same free e = absurd (ground (arith, e))

closed_lem : (b : Bytes) → b ≡ take (if ltb 0 (length b) then length b else 0) b
closed_lem [] = refl
closed_lem (c ∷ b) = rw (lt→ltb 0 (suc (length b)) (omega arith)) (sym (take-all (c ∷ b)))

small_clib-IsClib : IsClib small_clib
small_clib-IsClib = record {
  unique_file = λ f t p e. give_lem f t p (same_text t template) (f path) refl refl e;
  unique_dir = λ f t p e. absurd (ground (arith, e));
  closed = λ f p b e. closed_lem b;
}

abbrev no_environ : Environ
no_environ n = none

abbrev no_files : Files
no_files p = none

fuzz_scratch_file-Creates_example :
    Creates
      (file [])
      (file_template no_environ (codes "zip"))
      no_files
      (fuzz_scratch_file small_clib no_environ (codes "zip") no_files)
    × Creates directory
        (dir_template no_environ)
        no_files
        (make_scratch_dir small_clib no_environ no_files)
    × Templates no_environ (codes "zip")
fuzz_scratch_file-Creates_example =
    fuzz_scratch_file-Creates small_clib no_environ (codes "zip") no_files small_clib-IsClib

fuzz_write_scratch-Replaces_example :
    Replaces small_clib path
      (1 ∷ 0 ∷ [])
      no_files
      (fuzz_write_scratch small_clib path (1 ∷ 0 ∷ []) no_files)
fuzz_write_scratch-Replaces_example =
    fuzz_write_scratch-Replaces small_clib path (1 ∷ 0 ∷ []) no_files small_clib-IsClib

abbrev any_name : Bytes → Bool
any_name n = true

find_utf8_locale-FirstOf_example :
    ((find_utf8_locale any_name (codes "C")).0 ≡ codes "C")
    × FirstOf any_name candidates (find_utf8_locale any_name (codes "C")).1
find_utf8_locale-FirstOf_example = find_utf8_locale-FirstOf any_name (codes "C") refl

-- A target with its text at 0, its list at 1 and one call at 2.
abbrev places : Vec → Option ℕ
places x_str = some 0
places x_list = some 1
places v = none

abbrev small_layout : Layout
small_layout = record { object_of = places; call_of = λ i. some 2; scratch_path = path }

abbrev small_machine : Machine
small_machine = record { collector = lazy; clib = small_clib; other = λ op w. (true, w) }

abbrev small_world : World
small_world = record { heap = small_heap; files = no_files }

at_text :
    (v : Vec) (a : ℕ)
    → IsText v
    → places v ≡ some a
    → (contains a (0 ∷ 1 ∷ 2 ∷ []) ≡ true) × IsStrings (cells a)
unfolding contains
at_text x_str a t e = let q : a ≡ 0 = ground (arith, e) in rw q (refl, (3, refl))
at_text x_utf8 a t e = absurd (ground (arith, e))
at_text x_latin1 a t e = absurd (ground (arith, e))
at_text fmt_str a t e = absurd (ground (arith, e))
at_text aux_string a t e = absurd (ground (arith, e))
at_text aux_utf8 a t e = absurd (ground (arith, e))
at_text x_list a t e = absurd t
at_text Vec.digits a t e = absurd t
at_text Vec.width a t e = absurd t
at_text Vec.nsmall a t e = absurd t
at_text Vec.flag a t e = absurd t

small_Laid : Laid small_layout small_heap
unfolding contains
small_Laid = record {
  valid = small_heap-IsValid;
  text = at_text;
  element = λ a e. let q : a ≡ 1 = ground (arith, e) in rw q (refl, (4, refl));
  argument = λ i a e. let q : a ≡ 2 = ground (arith, e) in rw q (refl, (_, _, _, refl));
}

small_Quiet : Quiet small_machine
small_Quiet = record { valid = λ op w v. v; roots = λ op w. refl; same = λ op w a r. refl }

raw_run-Ran_example :
    (t' : Trace) × (Raw.run Raw.connections
        (host small_machine small_layout small_world)
        (67 ∷ 0 ∷ 255 ∷ [])
        []
      ≡ some (tt, t'))
    × Ran small_machine small_layout small_world []
        (Raw.stages Raw.connections 67 (0 ∷ 255 ∷ []))
        (Raw.evaluation Raw.connections (Raw.selector Raw.connections 67 (0 ∷ 255 ∷ [])))
        t'
    × (Raw.in_size (67 ∷ 0 ∷ 255 ∷ []) ≡ false → t' ≡ [])
raw_run-Ran_example =
    raw_run-Ran small_machine small_layout lazy-Keeps small_Quiet small_clib-IsClib small_world []
      small_Laid tt Raw.connections 67 (0 ∷ 255 ∷ [])

text_run-Ran_example :
    (t' : Trace) × (Text.run Text.colors
        (host small_machine small_layout small_world)
        (1 ∷ 98 ∷ [])
        []
      ≡ some (tt, t'))
    × Ran small_machine small_layout small_world []
        (set_string x_str native (98 ∷ []) ∷ [])
        (eval_silent 1)
        t'
    × (accepts (1024 * 16) (1 ∷ 98 ∷ []) ≡ false → t' ≡ [])
    × (accepts (1024 * 16) (1 ∷ 98 ∷ []) ≡ true → c_string (98 ∷ []) ≡ 98 ∷ [])
text_run-Ran_example =
    text_run-Ran small_machine small_layout lazy-Keeps small_Quiet small_clib-IsClib small_world []
      small_Laid tt Text.colors (1 ∷ 98 ∷ [])

encoding_run-Ran_example :
    (kind : Input) × (t' : Trace) × (get_elem? inputs 0 ≡ some kind)
    × (Encoding.run (host small_machine small_layout small_world) (28 ∷ 0 ∷ 255 ∷ []) []
        ≡ some (tt, t'))
    × Ran small_machine small_layout small_world []
        (stage_of kind (0 ∷ 255 ∷ []) ∷ [])
        (eval_silent 0)
        t'
    × (admits kind (0 ∷ 255 ∷ []) ≡ false → t' ≡ [])
    × (admits kind (0 ∷ 255 ∷ []) ≡ true
        → is_raw kind ≡ false
        → c_string (0 ∷ 255 ∷ []) ≡ 0 ∷ 255 ∷ [])
encoding_run-Ran_example =
    encoding_run-Ran small_machine small_layout lazy-Keeps small_Quiet small_clib-IsClib small_world
      [] small_Laid tt 28 (0 ∷ 255 ∷ [])
