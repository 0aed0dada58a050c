-- ===== src/Targets/Text.antt =====
-- The targets whose input is a selector byte and a text that one call reads.
use Prim.Native.String.{String}
use r_oss_fuzz.Base.{
  ℕ, ◌*◌, ◌%◌, ◌<◌, Bool, true, false, not, ◌&&◌, ◌||◌, some, List, [], ◌∷◌, Bytes, length,
  get_elem?, drop, ltb, if◌then◌else◌, ◌≡◌, refl, arith, Bool-cases, inl, inr,
}
use r_oss_fuzz.Host.{
  Vec, x_str, native, set_string, eval_silent, Host, Trace, M, ◌>>=◌, finish, checked, require,
  perform_, has_byte, c_string, fill, slot,
}
use r_oss_fuzz.Host.Boot.{Boot}
use r_oss_fuzz.Host.Call.{Term, well_applied, reads}
use r_oss_fuzz.Host.Session.{session}
use r_oss_fuzz.Host.Buffers.{accepts, c_string-fill}
use r_oss_fuzz.Common.Repeat.{fuzz_repeat_product_excessive}
use r_oss_fuzz.Targets.Colors
use r_oss_fuzz.Targets.Scan
use r_oss_fuzz.Targets.Readtable
use r_oss_fuzz.Targets.Sprintf
use r_oss_fuzz.Targets.Rd
use r_oss_fuzz.Targets.Dcf
use r_oss_fuzz.Targets.Grep

pub data TextTarget : Type 0 where
  colors scan readtable sprintf rd dcf : TextTarget

abbrev pub run : TextTarget → Host → Bytes → M (Unit {0})
run colors = Colors.run
run scan = Scan.run
run readtable = Readtable.run
run sprintf = Sprintf.run
run rd = Rd.run
run dcf = Dcf.run

abbrev pub max_input : TextTarget → ℕ
max_input colors = 1024 * 16
max_input scan = 1024 * 64
max_input readtable = 1024 * 64
max_input sprintf = 1024 * 16
max_input rd = 1024 * 64
max_input dcf = 1024 * 64

abbrev pub n_calls : TextTarget → ℕ
n_calls colors = 16
n_calls scan = 18
n_calls readtable = 20
n_calls sprintf = 4
n_calls rd = 2
n_calls dcf = 2

abbrev pub selector : Bytes → ℕ
selector [] = 0
selector (b ∷ p) = b

-- What these targets have in common.
pub staged_text : (max_size n : ℕ) → Host → Bytes → M (Unit {0})
staged_text max_size n h input =
    if ltb (length input) 2 || ltb max_size (length input) || has_byte 0 (drop 1 input)
    then finish
    else do
      buffer ← checked (fill max_size (drop 1 input))
      require h (set_string x_str native (c_string buffer)) (do
        b ← checked (get_elem? input 0)
        i ← checked (slot n (b % n))
        perform_ (eval_silent i))

staged_text-session :
    (max_size n : ℕ) (h : Host) (input : Bytes) (t : Trace)
    → 0 < n
    → staged_text max_size n h input t
      ≡ some (
        tt,
        if accepts max_size input
            then session h
                (set_string x_str native (drop 1 input) ∷ [])
                (eval_silent (selector input % n) ∷ [])
                t
            else t,
      )
unfolding staged_text session
staged_text-session max_size n h [] t pos = refl
staged_text-session max_size n h (b ∷ p) t pos = elim (Bool-cases (has_byte 0 p)) [
  | inl nul ↦ ground arith
  | inr text ↦ ground (arith, c_string-fill p text)
]

-- For each of these targets, every input and every behaviour of R: no buffer is overrun and no index
-- is out of range; an input that is not accepted does nothing; an accepted one stages its whole
-- payload as the text and, if that succeeds, evaluates the one call that the first byte selects.
pub text_run-session :
    (k : TextTarget) (h : Host) (input : Bytes) (t : Trace)
    → run k h input t
      ≡ some (
        tt,
        if accepts (max_input k) input
            then session h
                (set_string x_str native (drop 1 input) ∷ [])
                (eval_silent (selector input % n_calls k) ∷ [])
                t
            else t,
      )
unfolding Colors.run Scan.run Readtable.run Sprintf.run Rd.run Dcf.run staged_text
text_run-session colors h input t = staged_text-session (1024 * 16) 16 h input t (omega arith)
text_run-session scan h input t = staged_text-session (1024 * 64) 18 h input t (omega arith)
text_run-session readtable h input t = staged_text-session (1024 * 64) 20 h input t (omega arith)
text_run-session sprintf h input t = staged_text-session (1024 * 16) 4 h input t (omega arith)
text_run-session rd h input t = staged_text-session (1024 * 64) 2 h input t (omega arith)
text_run-session dcf h input t = staged_text-session (1024 * 64) 2 h input t (omega arith)

-- The grep target: the same, but for an accepted input whose pattern the repeat guard refuses, which
-- does nothing.
pub grep_run-session :
    (h : Host) (input : Bytes) (t : Trace) {excessive : Bool}
    → fuzz_repeat_product_excessive (drop 1 input) ≡ some excessive
    → Grep.run h input t
      ≡ some (
        tt,
        if accepts (1024 * 64) input && not excessive
            then session h
                (set_string x_str native (drop 1 input) ∷ [])
                (eval_silent (selector input % 16) ∷ [])
                t
            else t,
      )
unfolding Grep.run session
grep_run-session h [] t e = refl
grep_run-session h (b ∷ p) t e = elim (Bool-cases (has_byte 0 p)) [
  | inl nul ↦ ground arith
  | inr text ↦ ground (arith, c_string-fill p text)
]

abbrev pub init : TextTarget → Boot → M (List Term)
init colors = Colors.init
init scan = Scan.init
init readtable = Readtable.init
init sprintf = Sprintf.init
init rd = Rd.init
init dcf = Dcf.init

abbrev is_x_str : Vec → Bool
is_x_str x_str = true
is_x_str v = false

-- A call that reads the staged text, with as many arguments as its closure declares.
abbrev pub Usable : Term → Type 0
Usable c = (well_applied c ≡ true) × (reads is_x_str c ≡ true)

all_usable : List Term → Bool
all_usable [] = true
all_usable (c ∷ l) = well_applied c && reads is_x_str c && all_usable l

abbrev pub sources : TextTarget → List String
sources colors = Colors.sources
sources scan = Scan.sources
sources readtable = Readtable.sources
sources sprintf = []
sources rd = Rd.source ∷ []
sources dcf = Dcf.source ∷ []
