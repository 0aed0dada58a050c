-- ===== src/Host.antt =====
-- What the targets ask of R and of the file system, as a trace of operations. R is not modelled: a
-- `Host` says for each operation, in view of all that was done before, whether it succeeded
-- (`R_ToplevelExec` returned TRUE, the scratch file was written). Where the C code ignores the
-- result, as it does for an evaluation, so does the model.
pub mod Session
pub mod Call
pub mod Boot
pub mod Buffers
pub mod Fields
use Prim.Native.String.{String}
use r_oss_fuzz.Base.{
  ℕ, zero, suc, ◌+◌, ◌≤◌, Bool, true, false, Option, none, some, List, [], ◌∷◌, ◌++◌, Bytes, length,
  leb, ◌==◌, ◌||◌, if◌then◌else◌, ltb, get_elem?, drop,
}

-- The R objects that a target allocates once and refills, by the role they play:
-- x_str is the subject text (x_str, x_text, x_pat, input_string, format), x_utf8 and x_latin1 the
-- same bytes with a mark, x_list the list that holds a raw vector.
pub data Vec : Type 0 where
  x_str x_utf8 x_latin1 x_list fmt_str aux_string aux_utf8 digits width nsmall flag : Vec

pub data Mark : Type 0 where
  native utf8 latin1 : Mark

pub data Op : Type 0 where
  -- fuzz_set_string, fuzz_set_string_ce: the bytes of the C string
  set_string : Vec → Mark → Bytes → Op
  -- SET_STRING_ELT at start-up, outside R_ToplevelExec
  set_element : Vec → Mark → Bytes → Op
  -- a fresh raw vector as the list's element, or as a call's first argument (fuzz_set_raw_arg)
  set_raw_element : Vec → Bytes → Op
  set_raw_arg : ℕ → Bytes → Op
  -- set_lines of sort.c, for every call
  set_lines : List Bytes → Op
  -- fuzz_write_scratch
  write_scratch : Bytes → Op
  -- INTEGER(v)[0] = n
  set_integer : Vec → ℕ → Op
  -- fuzz_eval_silent(calls[i]), and R_ToplevelExec(fuzz_do_eval) of calls[i]
  eval_silent : ℕ → Op
  eval_toplevel : ℕ → Op
  -- R_tryEval(calls[i]), at start-up
  eval_try : ℕ → Op
  -- at start-up: `serialize(NULL, NULL)`, and its value as a call's first argument
  serialize_null : Op
  set_serialized_arg : ℕ → Op
  -- fuzz_scratch_file and make_scratch_dir, by the name in the template
  make_scratch_file : String → Op
  make_scratch_dir : Op
  -- the flag of format.c, by its index in `flags`
  set_flag : ℕ → Op
  -- sink(nullfile()) and R_gc() at start-up
  sink : Op
  collect : Op
  -- R_ParseVector under R_ToplevelExec, and the round trip of io.c
  parse_vector : Op
  run_io : ℕ → Bytes → Op
  -- Sys.setlocale of LC_CTYPE: to the UTF-8 locale found, or to C
  set_locale : Bool → Op

abbrev pub Trace : Type 0
Trace = List Op

abbrev pub Host : Type 0
Host = Trace → Op → Bool

-- A harness step: `none` is an access outside an array or buffer, or `abort()`.
abbrev pub M : Type 0 → Type 0
M A = Trace → Option (A × Trace)

infixl 5 ◌>>=◌ ◌>>◌
abbrev pub ◌>>=◌ : {A B : Type 0} → M A → (A → M B) → M B
◌>>=◌ step next before = elim (step before) [ none ↦ none | some (value, after) ↦ next value after ]

abbrev pub ◌>>◌ : {B : Type 0} → M (Unit {0}) → M B → M B
m >> k = m >>= λ _. k

abbrev pub return : {A : Type 0} → A → M A
return a t = some (a, t)

-- `return 0;`
abbrev pub finish : M (Unit {0})
finish t = some (tt, t)

abbrev pub fault : {A : Type 0} → M A
fault t = none

-- A read that must not fail.
abbrev pub checked : {A : Type 0} → Option A → M A
checked none t = none
checked (some a) t = some (a, t)

abbrev pub perform : Host → Op → M Bool
perform h op t = some (h t op, t ++ op ∷ [])

-- `if (!op) return 0;` in front of what follows.
abbrev pub require : Host → Op → M (Unit {0}) → M (Unit {0})
require h op k t = if h t op then k (t ++ op ∷ []) else finish (t ++ op ∷ [])

-- `if (!op) abort();` in front of what follows.
abbrev pub demand : Host → Op → M (Unit {0})
demand h op t = if h t op then some (tt, t ++ op ∷ []) else none

-- An operation whose result the code ignores.
abbrev pub perform_ : Op → M (Unit {0})
perform_ op t = some (tt, t ++ op ∷ [])

-- Warm-up loops: one operation for each slot below a bound.
unfoldable pub for_each_slot : (ℕ → Op) → ℕ → M (Unit {0})
for_each_slot op zero = finish
for_each_slot op (suc n) = do for_each_slot op n; perform_ (op n)

-- `memchr(p, c, n) != NULL`
unfoldable pub has_byte : ℕ → Bytes → Bool
has_byte c [] = false
has_byte c (b ∷ l) = b == c || has_byte c l

-- The characters of a C string: up to its NUL.
unfoldable pub c_string : Bytes → Bytes
c_string [] = []
c_string (b ∷ l) = let rest = c_string l in if b == 0 then [] else b ∷ rest

-- `memchr(p, '\n', n)`: the bytes before the newline and behind it, `none` for NULL.
unfoldable pub break_line : Bytes → Option (Bytes × Bytes)
break_line [] = none
break_line (c ∷ l) = elim (c == b'\n') [
  | true ↦ some ([], l)
  | false ↦ elim (break_line l) [ none ↦ none | some (a, b) ↦ some (c ∷ a, b) ]
]

-- `memcpy(buffer, p, n); buffer[n] = '\0';` into a buffer of the given capacity.
abbrev pub fill : ℕ → Bytes → Option Bytes
fill capacity p = if ltb (length p) capacity then some (p ++ 0 ∷ []) else none

-- An access of `calls[i]`.
abbrev pub slot : ℕ → ℕ → Option ℕ
slot n i = if ltb i n then some i else none
