-- ===== src/Common/Objects/Grows.antt =====
-- A heap that grew: what could be reached is the same, and still can be.
use r_oss_fuzz.Base.{
  ℕ, suc, ◌≤◌, ◌<◌, true, List, [], ◌∷◌, ◌++◌, Bytes, ◌==◌, ◌≡◌, ◌⊎◌, inl, inr, refl, sym, ap, ◌∙◌,
  arith, Bool-cases, ==_iff,
}
use r_oss_fuzz.Host.{native}
use r_oss_fuzz.Common.Objects.{
  Object, chars, strings, freed, Heap, contains, holds, Reached, root, held, Collector, Keeps,
  returned, collect, allocate, mk_string,
}
use r_oss_fuzz.Common.Objects.Reach.{IsValid, collect_same}
use r_oss_fuzz.Common.Objects.Steps.{allocated, allocate-granted, returned-bind}

pub record Grows (h h' : Heap) : Type 0 where
  pub valid : IsValid h'
  pub roots : (a : ℕ) → contains a h.roots ≡ true → contains a h'.roots ≡ true
  pub same : (a : ℕ) → Reached h.roots h.cells a → h'.cells a ≡ h.cells a
  pub next : h.next ≤ h'.next

-- The heap with some more roots.
abbrev pub keep : List ℕ → Heap → Heap
keep l h = record h { roots = l ++ h.roots }

-- What is closed under pointers and has the roots, has all that they reach.
pub Reached-within :
    (P : ℕ → Type 0) (roots : List ℕ) (cells : ℕ → Object)
    → ((a : ℕ) → contains a roots ≡ true → P a)
    → ((a b : ℕ) → P a → holds (cells a) b ≡ true → P b)
    → (a : ℕ) → Reached roots cells a
    → P a
Reached-within P roots cells base step a (root _ e) = base a e
Reached-within P roots cells base step a (held c _ r e) =
    step c a (Reached-within P roots cells base step c r) e

pub Reached-Grows :
    (h h' : Heap) → Grows h h' → (a : ℕ) → Reached h.roots h.cells a → Reached h'.roots h'.cells a
Reached-Grows h h' g a (root _ e) = root a (g.roots a e)
Reached-Grows h h' g a (held c _ r e) =
    held c a (Reached-Grows h h' g c r) (ap (λ o. holds o a) (g.same c r) ∙ e)

pub Grows-trans : (h h₁ h₂ : Heap) → Grows h h₁ → Grows h₁ h₂ → Grows h h₂
Grows-trans h h₁ h₂ f g = record {
  valid = g.valid;
  roots = λ a e. g.roots a (f.roots a e);
  same = λ a r. g.same a (Reached-Grows h h₁ f a r) ∙ f.same a r;
  next = let m = f.next in let n = g.next in omega arith;
}

-- Fewer roots reach less.
pub Reached-roots :
    (l m : List ℕ) (cells : ℕ → Object)
    → ((a : ℕ) → contains a l ≡ true → contains a m ≡ true)
    → (a : ℕ) → Reached l cells a
    → Reached m cells a
Reached-roots l m cells f a (root _ e) = root a (f a e)
Reached-roots l m cells f a (held c _ r e) = held c a (Reached-roots l m cells f c r) e

-- The same heap with other roots in front and behind.
pub Grows-roots :
    (h h' : Heap) (l : List ℕ)
    → Grows h h'
    → ((a : ℕ) → contains a h.roots ≡ true → contains a l ≡ true)
    → ((a : ℕ) → contains a l ≡ true → contains a h'.roots ≡ true)
    → Grows h (record h' { roots = l })
Grows-roots h h' l g lower upper = record {
  valid = λ a r. g.valid a (Reached-roots l h'.roots h'.cells upper a r);
  roots = lower;
  same = g.same;
  next = g.next;
}

abbrev pub Grants : Collector → Type 0
Grants k = (more : List ℕ) (h : Heap) → k.grants more h ≡ true

-- The heap behind `Rf_mkString`.
abbrev pub string_made : Collector → Bytes → Heap → Heap
string_made k text h =
    allocated k (h.next ∷ []) (strings h.next) (allocated k [] (chars native text) h)

pub mk_string-granted :
    (k : Collector) (text : Bytes) (h : Heap)
    → Grants k
    → mk_string k text h ≡ (returned (suc h.next), string_made k text h)
unfolding mk_string
mk_string-granted k text h grants =
    let o = chars native text in
    let h₁ = allocated k [] o h in
    returned-bind (allocate k [] o) (λ a. allocate k (a ∷ []) (strings a)) h h₁ h.next
      (allocate-granted k [] o h (grants [] h))
    ∙ allocate-granted k (h.next ∷ []) (strings h.next) h₁ (grants (h.next ∷ []) h₁)

module _ (k : Collector) (s : Keeps k) where
  -- An allocation, for what is kept for it, with the new object as one more root.
  pub allocated-Grows :
      (more : List ℕ) (o : Object) (h : Heap)
      → IsValid (keep more h)
      → ((b : ℕ) → holds o b ≡ true → Reached (more ++ h.roots) h.cells b)
      → Grows (keep more h) (keep (h.next ∷ more) (allocated k more o h))
  unfolding contains collect
  allocated-Grows more o h valid of_o = record {
    valid = λ a r. bounded a (
        Reached-within Known (h.next ∷ (more ++ h.roots)) (allocated k more o h).cells base step a
          r);
    roots = λ a e. ground (arith, e);
    same = same;
    next = omega arith;
  }
    where
      Known : ℕ → Type 0
      Known a = Reached (more ++ h.roots) h.cells a ⊎ (a ≡ h.next)

      same :
          (a : ℕ) → Reached (more ++ h.roots) h.cells a → (allocated k more o h).cells a ≡ h.cells a
      same a r = let lt = valid a r in let e = collect_same k more h a s r in ground (arith, lt, e)

      bounded : (a : ℕ) → Known a → a < suc h.next
      bounded a (inl r) = let lt = valid a r in omega arith
      bounded a (inr e) = omega arith

      base : (a : ℕ) → contains a (h.next ∷ (more ++ h.roots)) ≡ true → Known a
      base a e = elim (Bool-cases (a == h.next)) [
        | inl new ↦ inr ((==_iff a h.next).0 new)
        | inr old ↦ inl (root a (ground (arith, e)))
      ]

      new : (allocated k more o h).cells h.next ≡ o
      new = ground arith

      step : (a b : ℕ) → Known a → holds ((allocated k more o h).cells a) b ≡ true → Known b
      step a b (inl r) e = inl (held a b r (ap (λ x. holds x b) (sym (same a r)) ∙ e))
      step a b (inr n) e =
          inl (of_o b (sym (ap (λ x. holds x b) (ap (allocated k more o h).cells n ∙ new)) ∙ e))

  no_chars : (text : Bytes) (b : ℕ) (P : Type 0) → holds (chars native text) b ≡ true → P
  unfolding holds
  no_chars text b P e = absurd (ground arith)

  holds-strings : (c b : ℕ) → holds (strings c) b ≡ true → c ≡ b
  unfolding holds
  holds-strings c b e = (==_iff c b).0 e

  -- What `Rf_mkString` makes of a heap in which its vector is kept.
  pub record Makes (h : Heap) (text : Bytes) : Type 0 where
    pub vec : ℕ
    pub heap : Heap
    pub returns : mk_string k text h ≡ (returned vec, heap)
    pub roots : heap.roots ≡ h.roots
    pub grows : Grows h (keep (vec ∷ []) heap)
    pub fresh : h.next ≤ vec
    pub bound : vec < heap.next
    pub element : ℕ
    pub at_vec : heap.cells vec ≡ strings element
    pub at_element : heap.cells element ≡ chars native text

  pub mk_string-Makes : (h : Heap) (text : Bytes) → Grants k → IsValid h → Makes h text
  unfolding mk_string collect contains
  mk_string-Makes h text grants valid =
      let o = chars native text in
      let h₁ = allocated k [] o h in
      let c = h.next in
      let h₂ = allocated k (c ∷ []) (strings c) h₁ in
      let g₁ = allocated-Grows [] o h valid (λ b e. no_chars text b _ e) in
      let g₂ =
        allocated-Grows (c ∷ []) (strings c) h₁ g₁.valid
          (λ b e. root b (ground (arith, holds-strings c b e))) in
      let g = Grows-trans h (keep (c ∷ []) h₁) (keep (h₁.next ∷ c ∷ []) h₂) g₁ g₂ in
      record {
        vec = suc c;
        heap = h₂;
        returns = mk_string-granted k text h grants;
        roots = refl;
        grows =
            Grows-roots h (keep (h₁.next ∷ c ∷ []) h₂) (suc c ∷ h.roots) g
              (λ a e. ground (arith, e)) (λ a e. ground (arith, e));
        fresh = omega arith;
        bound = omega arith;
        element = c;
        at_vec = ground arith;
        at_element = g₂.same c (root c (ground arith)) ∙ ground arith;
      }

-- What is gone stays gone.
abbrev pub Gone : ℕ → Heap → Type 0
Gone a h = (h.cells a ≡ freed) × (a < h.next)

pub allocated-Gone :
    (k : Collector) (more : List ℕ) (o : Object) (h : Heap) (a : ℕ)
    → Gone a h
    → Gone a (allocated k more o h)
unfolding collect
allocated-Gone k more o h a g = (ground (arith, g.0, g.1), let lt = g.1 in omega arith)

pub freed-Gone :
    (k : Collector) (o : Object) (h : Heap) (a : ℕ)
    → k.frees [] h a ≡ true
    → a < h.next
    → Gone a (allocated k [] o h)
unfolding collect
freed-Gone k o h a e lt = (ground (arith, e, lt), omega arith)
