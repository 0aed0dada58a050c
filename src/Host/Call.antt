-- ===== src/Host/Call.antt =====
-- The R calls that a target builds once, at start-up, and evaluates for each input. A call's function
-- is a name or a closure that `fuzz_make_wrapper` makes of its source text; an argument may be an
-- object that is refilled for each input, a constant, or a call. `Rf_lang*` builds the call and
-- `SET_TAG` names an argument.
use r_oss_fuzz.Base.{
  arith, refl, ◌≡◌, ==_iff, ℕ, zero, suc, ◌-◌, Bool, true, false, ◌||◌, ◌&&◌, Option, none, some,
  List, [], ◌∷◌, Bytes, ◌==◌, if◌then◌else◌, codes, ◌>>=◌,
}
use Prim.Native.String.{String}
use r_oss_fuzz.Host.{Vec}

mutual
  pub data Term : Type 0 where
    vec : Vec → Term
    text : String → Term
    number : ℕ → Term
    flag : Bool → Term
    literal : String → Term  -- a number by its source text
    nil_value : Term  -- R_NilValue
    missing_string : Term  -- NA_STRING
    fixed : List String → Term  -- a character vector made at start-up
    raw : Term  -- a raw vector, or the placeholder that `set_raw_arg` replaces
    default_of : String → Term  -- an empty or zero vector of a type, the `what` of readBin
    symbol_value : String → Term  -- the base function of that name
    quoted : Term → Term
    lang : Function → Args → Term

  pub data Function : Type 0 where
    named : String → Function
    closure : String → Function

  pub data Args : Type 0 where
    nil : Args
    arg : Option String → Term → Args → Args

infixr 67 ◌&◌
abbrev pub ◌&◌ : Term → Args → Args
a & l = arg none a l

-- Give the argument at a place its name: 0 is the first argument, the second cell of the call.
-- `none` is `SET_TAG` on `R_NilValue`.
unfoldable pub tag_arg : ℕ → String → Args → Option Args
tag_arg i s nil = none
tag_arg zero s (arg old a l) = some (arg (some s) a l)
tag_arg (suc i) s (arg old a l) = do r ← tag_arg i s l; some (arg old a r)

-- `SET_TAG` on the cell that lies `pos` behind the head of a call: `CDDR` is 2, `CDDDR` is 3.
unfoldable pub tagged : ℕ → String → Term → Option Term
unfolding tag_arg
tagged pos s (lang f l) = do r ← tag_arg (pos - 1) s l; some (lang f r)
tagged pos s t = none

-- A chain of them, the first one innermost.
unfoldable pub with_tags : List (ℕ × String) → Term → Option Term
unfolding tagged
with_tags [] t = some t
with_tags ((pos, s) ∷ l) t = do u ← tagged pos s t; with_tags l u

unfoldable pub same_text : Bytes → Bytes → Bool
same_text [] [] = true
same_text [] (c ∷ l) = false
same_text (b ∷ k) [] = false
same_text (b ∷ k) (c ∷ l) = b == c && same_text k l

pub same_text-eq : (a b : Bytes) → same_text a b ≡ true → a ≡ b
unfolding same_text
same_text-eq [] [] e = refl
same_text-eq [] (c ∷ l) e = ground arith
same_text-eq (b ∷ k) [] e = ground arith
same_text-eq (b ∷ k) (c ∷ l) e =
    let i = same_text-eq k l (ground arith) in
    let j : b ≡ c = (==_iff b c).0 (ground arith) in rw (i, j) refl

pub same_text_refl : (a : Bytes) → same_text a a ≡ true
unfolding same_text
same_text_refl [] = refl
same_text_refl (b ∷ k) = let i = same_text_refl k in ground arith

-- The argument of that name.
unfoldable pub find_arg : Bytes → Args → Option Term
unfolding same_text
find_arg s nil = none
find_arg s (arg none a l) = find_arg s l
find_arg s (arg (some u) a l) =
    let rest = find_arg s l in if same_text s (codes u) then some a else rest

unfoldable pub named_arg : String → Term → Option Term
unfolding find_arg
named_arg s (lang f l) = find_arg (codes s) l
named_arg s t = none

unfoldable pub count_args : Args → ℕ
count_args nil = 0
count_args (arg s a l) = suc (count_args l)

-- Whether a term reads an object.
unfoldable mutual
  pub reads : (Vec → Bool) → Term → Bool
  reads p (vec v) = p v
  reads p (text s) = false
  reads p (number n) = false
  reads p (flag b) = false
  reads p (literal s) = false
  reads p nil_value = false
  reads p missing_string = false
  reads p (fixed l) = false
  reads p raw = false
  reads p (default_of s) = false
  reads p (symbol_value s) = false
  reads p (quoted t) = reads p t
  reads p (lang f l) = reads_args p l

  pub reads_args : (Vec → Bool) → Args → Bool
  reads_args p nil = false
  reads_args p (arg s a l) = reads p a || reads_args p l

-- How many formal arguments the closure of a source text declares: `function(a, b) ...`, with any
-- space in front.
unfoldable pub formals_from : ℕ → Bytes → Option ℕ
formals_from n [] = none
formals_from n (c ∷ l) =
    let more = formals_from (if c == b',' then suc n else n) l in
    if c == b')' then some (suc n) else if c == b'(' then none else more

unfoldable pub strip_prefix : Bytes → Bytes → Option Bytes
strip_prefix [] l = some l
strip_prefix (c ∷ p) [] = none
strip_prefix (c ∷ p) (b ∷ l) = let rest = strip_prefix p l in if c == b then rest else none

unfoldable pub skip_newlines : Bytes → Bytes
skip_newlines [] = []
skip_newlines (c ∷ l) = let rest = skip_newlines l in if c == b'\n' then rest else c ∷ l

unfoldable pub formals : String → Option ℕ
unfolding formals_from strip_prefix skip_newlines
formals s = do l ← strip_prefix (codes "function(") (skip_newlines (codes s)); formals_from 0 l

-- A call of a closure passes as many arguments as the closure declares. A call of a named function
-- is R's to check.
unfoldable pub well_applied : Term → Bool
unfolding formals count_args
well_applied (lang (closure s) l) = elim (formals s) [ none ↦ false | some n ↦ n == count_args l ]
well_applied t = true
