-- ===== src/Common/Objects/Steps.antt =====
-- How the steps on R's objects end, one equation for each way, and what follows a step.
use r_oss_fuzz.Base.{
  ℕ, suc, true, false, List, [], ◌∷◌, Bytes, length, leb, ◌≡◌, refl, ap, arith, drop-nil,
}
use mathlib.Core.List.{append-nil}
use r_oss_fuzz.Common.Objects.{
  Object, raws, strings, vector, call, object, Cell, Heap, Collector, returned, jumped, Action,
  ◌>>=◌, collect, allocate, put, set_string_elt, set_vector_elt, setcadr, copy_to_raw, settle,
  toplevel,
}

leb_refl : (n : ℕ) → leb n n ≡ true
leb_refl n = ground arith

abbrev pub allocated : Collector → List ℕ → Object → Heap → Heap
allocated k more o h = put h.next o (record (collect k more h) { next = suc h.next })

module _ (k : Collector) (more : List ℕ) (o : Object) (h : Heap) where
  pub allocate-granted :
      k.grants more h ≡ true → allocate k more o h ≡ (returned h.next, allocated k more o h)
  unfolding allocate
  allocate-granted g = rw g refl

  pub allocate-refused : k.grants more h ≡ false → allocate k more o h ≡ (jumped, collect k more h)
  unfolding allocate
  allocate-refused g = rw g refl

module _ {A B : Type 0} (m : Action A) (f : A → Action B) (h h' : Heap) where
  pub returned-bind : (a : A) → m h ≡ (returned a, h') → (m >>= f) h ≡ f a h'
  returned-bind a e = rw e refl

  pub jumped-bind : m h ≡ (jumped, h') → (m >>= f) h ≡ (jumped, h')
  jumped-bind e = rw e refl

module _ (m : Action (Unit {0})) (h h' : Heap) where
  pub toplevel-returned : m h ≡ (returned tt, h') → toplevel m h ≡ (returned true, h')
  unfolding toplevel
  toplevel-returned e = ap (settle h.roots) e

  pub toplevel-jumped :
      m h ≡ (jumped, h') → toplevel m h ≡ (returned false, record h' { roots = h.roots })
  unfolding toplevel
  toplevel-jumped e = ap (settle h.roots) e

module _ (h : Heap) where
  pub set_string_elt-eq :
      (v c old : ℕ)
      → h.cells v ≡ strings old
      → set_string_elt v c h ≡ (returned tt, put v (strings c) h)
  unfolding set_string_elt
  set_string_elt-eq v c old e = rw (e, set_string_elt) refl

  pub set_vector_elt-eq :
      (v c old : ℕ)
      → h.cells v ≡ vector old
      → set_vector_elt v c h ≡ (returned tt, put v (vector c) h)
  unfolding set_vector_elt
  set_vector_elt-eq v c old e = rw (e, set_vector_elt) refl

  pub setcadr-eq :
      (c a : ℕ) (f x : Cell) (l : List Cell)
      → h.cells c ≡ call (f ∷ x ∷ l)
      → setcadr c a h ≡ (returned tt, put c (call (f ∷ record x { value = object a } ∷ l)) h)
  unfolding setcadr
  setcadr-eq c a f x l e = rw (e, setcadr) refl

  pub copy_to_raw-eq :
      (a : ℕ) (s : Bytes)
      → h.cells a ≡ raws (length s) []
      → copy_to_raw a s h ≡ (returned tt, put a (raws (length s) s) h)
  unfolding copy_to_raw
  copy_to_raw-eq a s e =
      rw (e, copy_to_raw, leb_refl (length s), drop-nil {A = ℕ} (length s), append-nil s) refl
