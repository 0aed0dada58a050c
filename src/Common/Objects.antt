-- ===== src/Common/Objects.antt =====
-- R's objects at their addresses, as the C code of the harnesses allocates, protects and writes them.
-- R's memory manager is a parameter: whether it grants an allocation, and what a collection in front of
-- it frees. The objects that the roots reach are the ones it must keep.
pub mod Reach
pub mod Steps
pub mod Grows
pub mod Roots
use r_oss_fuzz.Base.{
  ℕ, zero, suc, ◌+◌, Bool, true, false, not, ◌||◌, Option, none, some, List, [], ◌∷◌, ◌++◌, Bytes,
  length, drop, leb, ◌==◌, if◌then◌else◌, ◌≡◌, map,
}
use r_oss_fuzz.Host.{Mark, native}

-- What a call names: a symbol, `R_NilValue`, or an object at an address. Symbols are never freed.
pub data Value : Type 0 where
  symbol : Bytes → Value
  nil_value : Value
  object : ℕ → Value

-- The cell of a call: its tag, and its function or argument.
pub record Cell : Type 0 where
  pub tag : Option Bytes
  pub value : Value

-- CHARSXP; RAWSXP with its length and what was written to it; STRSXP and VECSXP of length one, with the
-- address of their element; LANGSXP; and an object of no interest here. A `freed` object is gone.
pub data Object : Type 0 where
  chars : Mark → Bytes → Object
  raws : ℕ → Bytes → Object
  strings : ℕ → Object
  vector : ℕ → Object
  call : List Cell → Object
  opaque : Object
  freed : Object

-- `roots` is what R keeps: the protect stack, the top first, and behind it all that is preserved.
pub record Heap : Type 0 where
  pub cells : ℕ → Object
  pub next : ℕ
  pub roots : List ℕ

unfoldable pub contains : ℕ → List ℕ → Bool
contains a [] = false
contains a (b ∷ l) = a == b || contains a l

abbrev pub names : Value → ℕ → Bool
names (symbol s) a = false
names nil_value a = false
names (object b) a = b == a

unfoldable pub points : List Cell → ℕ → Bool
points [] a = false
points (c ∷ l) a = names c.value a || points l a

-- Whether an object holds the one at an address.
unfoldable pub holds : Object → ℕ → Bool
unfolding points
holds (chars m s) a = false
holds (raws n s) a = false
holds (strings c) a = c == a
holds (vector c) a = c == a
holds (call l) a = points l a
holds opaque a = false
holds freed a = false

-- What the roots and the objects that they reach hold.
pub data Reached (roots : List ℕ) (cells : ℕ → Object) : ℕ → Type 0 where
  root : (a : ℕ) → contains a roots ≡ true → Reached roots cells a
  held : (a b : ℕ) → Reached roots cells a → holds (cells a) b ≡ true → Reached roots cells b

-- R's memory manager, for an allocation with some more roots of its own: whether it is granted, and
-- which objects are freed in front of it.
pub record Collector : Type 0 where
  pub grants : List ℕ → Heap → Bool
  pub frees : List ℕ → Heap → ℕ → Bool

-- An object that a root reaches is not freed.
pub record Keeps (k : Collector) : Type 0 where
  pub keeps :
      (more : List ℕ) (h : Heap) (a : ℕ)
      → Reached (more ++ h.roots) h.cells a
      → k.frees more h a ≡ false

-- A step of C code: a value, an error of R, which jumps, or a use of memory that C does not allow.
pub data Outcome (A : Type 0) : Type 0 where
  returned : A → Outcome A
  jumped : Outcome A
  fault : Outcome A

abbrev pub Action : Type 0 → Type 0
Action A = Heap → Outcome A × Heap

module _ {A B : Type 0} where
  abbrev pub continue : Outcome A → (A → Action B) → Action B
  continue (returned a) f h = f a h
  continue jumped f h = (jumped, h)
  continue fault f h = (fault, h)

  infixl 5 ◌>>=◌ ◌>>◌
  abbrev pub ◌>>=◌ : Action A → (A → Action B) → Action B
  ◌>>=◌ m f h = continue (m h).0 f (m h).1

  abbrev pub ◌>>◌ : Action A → Action B → Action B
  m >> n = m >>= λ _. n

abbrev pub pure : {A : Type 0} → A → Action A
pure a h = (returned a, h)

abbrev pub put : ℕ → Object → Heap → Heap
put a o h = record h { cells = λ b. if b == a then o else h.cells b }

-- A collection in front of an allocation.
unfoldable pub collect : Collector → List ℕ → Heap → Heap
collect k more h = record h { cells = λ a. if k.frees more h a then freed else h.cells a }

-- An allocation that keeps what the new object is to hold.
unfoldable pub allocate : Collector → List ℕ → Object → Action ℕ
unfolding collect
allocate k more o h =
    if k.grants more h
    then (returned h.next, put h.next o (record (collect k more h) { next = suc h.next }))
    else (jumped, collect k more h)

-- `Rf_protect` and `Rf_unprotect`.
unfoldable pub protect : ℕ → Action (Unit {0})
protect a h = (returned tt, record h { roots = a ∷ h.roots })

unfoldable pub unprotect : ℕ → Action (Unit {0})
unprotect n h = (returned tt, record h { roots = drop n h.roots })

-- `Rf_install`: a new symbol is allocated.
unfoldable pub install : Collector → Bytes → Action Value
unfolding collect
install k s h =
    if k.grants [] h then (returned (symbol s), collect k [] h) else (jumped, collect k [] h)

-- `Rf_mkString`: a vector that holds a new string.
unfoldable pub mk_string : Collector → Bytes → Action ℕ
unfolding allocate
mk_string k s = do c ← allocate k [] (chars native s); allocate k (c ∷ []) (strings c)

-- `Rf_lang*`: a call of a function with arguments.
abbrev pub untagged : Value → Cell
untagged a = record { tag = none; value = a }

abbrev pub objects : List Value → List ℕ
objects [] = []
objects (symbol s ∷ l) = objects l
objects (nil_value ∷ l) = objects l
objects (object a ∷ l) = a ∷ objects l

unfoldable pub lang : Collector → List Value → Action ℕ
unfolding allocate
lang k l = allocate k (objects l) (call (map untagged l))

-- `SET_TAG` on the cell at a place behind the head of a call.
unfoldable pub tag_cell : ℕ → Bytes → List Cell → Option (List Cell)
tag_cell n s [] = none
tag_cell zero s (c ∷ l) = some (record c { tag = some s } ∷ l)
tag_cell (suc n) s (c ∷ l) =
    let rest = tag_cell n s l in elim rest [ none ↦ none | some r ↦ some (c ∷ r) ]

unfoldable pub set_tag : ℕ → ℕ → Value → Action (Unit {0})
unfolding tag_cell
set_tag a n (symbol s) h = elim (h.cells a) [
  | call l ↦ elim (tag_cell n s l) [ none ↦ (fault, h) | some r ↦ (returned tt, put a (call r) h) ]
  | other ↦ (fault, h)
]
set_tag a n nil_value h = (fault, h)
set_tag a n (object b) h = (fault, h)

-- `memcpy(RAW(a), s, length s)`
unfoldable pub copy_to_raw : ℕ → Bytes → Action (Unit {0})
copy_to_raw a s h = elim (h.cells a) [
  | raws n old ↦
      if leb (length s) n
      then (returned tt, put a (raws n (s ++ drop (length s) old)) h)
      else (fault, h)
  | other ↦ (fault, h)
]

-- `SET_STRING_ELT(v, 0, c)` and `SET_VECTOR_ELT(v, 0, c)`
unfoldable pub set_string_elt : ℕ → ℕ → Action (Unit {0})
set_string_elt v c h = elim (h.cells v) [
  | strings old ↦ (returned tt, put v (strings c) h)
  | other ↦ (fault, h)
]

unfoldable pub set_vector_elt : ℕ → ℕ → Action (Unit {0})
set_vector_elt v c h = elim (h.cells v) [
  | vector old ↦ (returned tt, put v (vector c) h)
  | other ↦ (fault, h)
]

-- `SETCADR(call, a)`
unfoldable pub setcadr : ℕ → ℕ → Action (Unit {0})
setcadr c a h = elim (h.cells c) [
  | call (f ∷ x ∷ l) ↦ (returned tt, put c (call (f ∷ record x { value = object a } ∷ l)) h)
  | other ↦ (fault, h)
]

-- `R_ToplevelExec`: whether it returned. A jump restores the protect stack.
abbrev pub settle : List ℕ → Outcome (Unit {0}) × Heap → Outcome Bool × Heap
settle roots (returned v, h) = (returned true, h)
settle roots (jumped, h) = (returned false, record h { roots = roots })
settle roots (fault, h) = (fault, h)

unfoldable pub toplevel : Action (Unit {0}) → Action Bool
toplevel m h = settle h.roots (m h)
