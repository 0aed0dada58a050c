-- ===== src/Common/Objects/Reach.antt =====
-- What a collection, an allocation and a write leave of the objects that the roots reach.
use r_oss_fuzz.Base.{
  ℕ, suc, ◌<◌, true, List, [], ◌∷◌, ◌++◌, ◌≡◌, ◌≢◌, ◌⊎◌, inl, inr, refl, sym, ap, ◌∙◌, arith,
  ℕ_discrete,
}
use r_oss_fuzz.Common.Objects.{
  Object, Heap, contains, holds, Reached, root, held, Collector, Keeps, collect,
}

pub contains-append : (a : ℕ) (l m : List ℕ) → contains a m ≡ true → contains a (l ++ m) ≡ true
unfolding contains
contains-append a [] m h = h
contains-append a (b ∷ l) m h = ground (arith, contains-append a l m h)

more_roots :
    (more roots : List ℕ) (cells : ℕ → Object) (a : ℕ)
    → Reached roots cells a
    → Reached (more ++ roots) cells a
more_roots more roots cells a (root _ e) = root a (contains-append a more roots e)
more_roots more roots cells a (held c _ r e) = held c a (more_roots more roots cells c r) e

-- Where the objects that can be reached are the same, the same ones can be reached.
pub Reached-back :
    (roots : List ℕ) (cells cells' : ℕ → Object)
    → ((a : ℕ) → Reached roots cells a → cells' a ≡ cells a)
    → (a : ℕ) → Reached roots cells' a
    → Reached roots cells a
Reached-back roots cells cells' same a (root _ e) = root a e
Reached-back roots cells cells' same a (held c _ r e) =
    let i = Reached-back roots cells cells' same c r in
    held c a i (ap (λ o. holds o a) (sym (same c i)) ∙ e)

-- An object that the roots reach has an address that was given out.
abbrev pub IsValid : Heap → Type 0
IsValid h = (a : ℕ) → Reached h.roots h.cells a → a < h.next

pub collect-roots : (k : Collector) (more : List ℕ) (h : Heap) → (collect k more h).roots ≡ h.roots
unfolding collect
collect-roots k more h = refl

-- A collection leaves every object that the roots reach.
pub collect_same :
    (k : Collector) (more : List ℕ) (h : Heap) (a : ℕ)
    → Keeps k
    → Reached (more ++ h.roots) h.cells a
    → (collect k more h).cells a ≡ h.cells a
unfolding collect
collect_same k more h a s r = rw (s.keeps more h a r) refl

-- A heap that differs from another one at `v` alone, as far as its roots reach.
pub record After (h h' : Heap) (v : ℕ) : Type 0 where
  pub valid : IsValid h'
  pub roots : h'.roots ≡ h.roots
  pub same : (a : ℕ) → Reached h.roots h.cells a → a ≢ v → h'.cells a ≡ h.cells a

pub collect-IsValid :
    (k : Collector) (more : List ℕ) (h : Heap) → Keeps k → IsValid h → IsValid (collect k more h)
unfolding collect
collect-IsValid k more h s v a r =
    let same = λ (b : ℕ) (q : Reached h.roots h.cells b).
      collect_same k more h b s (more_roots more h.roots h.cells b q) in
    v a (Reached-back h.roots h.cells (collect k more h).cells same a r)

pub collect-After :
    (k : Collector) (more : List ℕ) (h : Heap) (v : ℕ)
    → Keeps k
    → IsValid h
    → After h (collect k more h) v
      × ((a : ℕ) → Reached h.roots h.cells a → (collect k more h).cells a ≡ h.cells a)
unfolding collect
collect-After k more h v s w =
    let same = λ (b : ℕ) (q : Reached h.roots h.cells b).
      collect_same k more h b s (more_roots more h.roots h.cells b q) in
    (record { valid = collect-IsValid k more h s w; roots = refl; same = λ a r _. same a r }, same)

module _ (roots : List ℕ) (cells cells' : ℕ → Object) (v n : ℕ) where
  -- An object that could be reached before, or the new one.
  abbrev pub Known : ℕ → Type 0
  Known a = Reached roots cells a ⊎ (a ≡ n)

  -- A write to `v` and to a new object makes nothing else reachable.
  Reached-Known :
      ((a : ℕ) → Reached roots cells a → a ≢ v → cells' a ≡ cells a)
      → ((b : ℕ) → holds (cells' v) b ≡ true → Known b)
      → ((b : ℕ) → holds (cells' n) b ≡ true → Known b)
      → (a : ℕ) → Reached roots cells' a
      → Known a
  Reached-Known same at_v at_n a (root _ e) = inl (root a e)
  Reached-Known same at_v at_n a (held c _ r e) = elim (Reached-Known same at_v at_n c r) [
    | inr new ↦ at_n a (ap (λ x. holds (cells' x) a) (sym new) ∙ e)
    | inl old ↦ elim (ℕ_discrete c v) [
      | yes here ↦ at_v a (ap (λ x. holds (cells' x) a) (sym here) ∙ e)
      | no there ↦ inl (held c a old (ap (λ o. holds o a) (sym (same c old there)) ∙ e))
    ]
  ]

-- A heap behind a collection, an allocation, and writes to `v` and to the new object.
pub record Written (k : Collector) (h h' : Heap) (v : ℕ) (w o : Object) : Type 0 where
  pub next : h'.next ≡ suc h.next
  pub roots : h'.roots ≡ h.roots
  pub at_v : h'.cells v ≡ w
  pub at_new : h'.cells h.next ≡ o
  pub elsewhere : (a : ℕ) → a ≢ v → a ≢ h.next → h'.cells a ≡ (collect k [] h).cells a

module _ (k : Collector) (h h' : Heap) (v : ℕ) (w o : Object) where
  -- Where `w` and `o` hold nothing but what could be reached and the new object.
  pub Written-After :
      Keeps k
      → IsValid h
      → Written k h h' v w o
      → ((b : ℕ) → holds w b ≡ true → Reached h.roots h.cells b ⊎ (b ≡ h.next))
      → ((b : ℕ) → holds o b ≡ true → Reached h.roots h.cells b ⊎ (b ≡ h.next))
      → After h h' v
  Written-After s valid x of_w of_o = record {
    valid = λ a q. within a (known a (rw x.roots at q));
    roots = x.roots;
    same = same;
  }
    where
      same : (a : ℕ) → Reached h.roots h.cells a → a ≢ v → h'.cells a ≡ h.cells a
      same a q other =
          let lt = valid a q in x.elsewhere a other (omega arith) ∙ collect_same k [] h a s q

      known : (a : ℕ) → Reached h.roots h'.cells a → Known h.roots h.cells h'.cells v h.next a
      known =
          Reached-Known h.roots h.cells h'.cells v h.next same
            (λ b e. of_w b (ap (λ y. holds y b) (sym x.at_v) ∙ e))
            (λ b e. of_o b (ap (λ y. holds y b) (sym x.at_new) ∙ e))

      within : (a : ℕ) → Reached h.roots h.cells a ⊎ (a ≡ h.next) → a < h'.next
      within a (inl q) = let lt = valid a q in let n = x.next in omega arith
      within a (inr e) = let n = x.next in omega arith
