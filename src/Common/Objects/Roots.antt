-- ===== src/Common/Objects/Roots.antt =====
-- The roots of a heap: what can be reached when some of them are added or dropped.
use r_oss_fuzz.Base.{
  ℕ, true, List, [], ◌∷◌, ◌++◌, drop, map, All, ◌==◌, ◌≡◌, refl, sym, ap, ◌∙◌, arith, Bool-cases,
  inl, inr, ==_iff,
}
use r_oss_fuzz.Common.Objects.{
  Value, symbol, object, objects, untagged, Heap, contains, points, Reached, root, held,
}
use r_oss_fuzz.Common.Objects.Reach.{IsValid, contains-append}
use r_oss_fuzz.Common.Objects.Grows.{Grows, keep, Grows-roots, Reached-Grows, Reached-within}

-- More roots that can be reached anyway reach nothing new.
pub roots_of :
    (l : List ℕ) (g : Heap)
    → All (Reached g.roots g.cells) l
    → (a : ℕ) → contains a (l ++ g.roots) ≡ true
    → Reached g.roots g.cells a
unfolding contains
roots_of [] g h a e = root a e
roots_of (b ∷ l) g h a e = elim (Bool-cases (a == b)) [
  | inl here ↦ rw ((==_iff a b).0 here) h.0
  | inr there ↦ roots_of l g h.1 a (ground (arith, e, there))
]

pub keep-Grows :
    (l : List ℕ) (g : Heap) → IsValid g → All (Reached g.roots g.cells) l → Grows g (keep l g)
keep-Grows l g valid h = record {
  valid = λ a r. valid a (
      Reached-within (Reached g.roots g.cells) (l ++ g.roots) g.cells (roots_of l g h)
        (λ a b q e. held a b q e) a r);
  roots = λ a e. contains-append a l g.roots e;
  same = λ a r. refl;
  next = omega arith;
}

pub points-objects :
    (l : List Value) (b : ℕ) → points (map untagged l) b ≡ true → contains b (objects l) ≡ true
unfolding points contains
points-objects [] b e = e
points-objects (symbol s ∷ l) b e = points-objects l b e
points-objects (Value.nil_value ∷ l) b e = points-objects l b e
points-objects (object a ∷ l) b e = ground (arith, points-objects l b)

pub contains-front : (b : ℕ) (l m : List ℕ) → contains b l ≡ true → contains b (l ++ m) ≡ true
unfolding contains
contains-front b [] m e = absurd (ground arith)
contains-front b (c ∷ l) m e = ground (arith, contains-front b l m)

pub behind : (a n : ℕ) (l m : List ℕ) → contains a (n ∷ m) ≡ true → contains a (n ∷ (l ++ m)) ≡ true
unfolding contains
behind a n l m e = ground (arith, e, contains-append a l m)

pub in_head : (a : ℕ) (l : List ℕ) → contains a (a ∷ l) ≡ true
unfolding contains
in_head a l = ground arith

pub in_tail : (a b : ℕ) (l : List ℕ) → contains a l ≡ true → contains a (b ∷ l) ≡ true
unfolding contains
in_tail a b l e = ground arith

pub Grows-refl : (g : Heap) → IsValid g → Grows g g
Grows-refl g valid = keep-Grows [] g valid tt

pub All-here :
    (h g : Heap)
    → Grows h g
    → (l : List ℕ) → All (Reached h.roots h.cells) l
    → All (Reached g.roots g.cells) l
All-here h g w [] d = tt
All-here h g w (a ∷ l) d = (Reached-Grows h g w a d.0, All-here h g w l d.1)

-- The protect stack without the strings.
pub released :
    (h g : Heap) (c v u : ℕ)
    → Grows h g
    → g.roots ≡ c ∷ v ∷ u ∷ h.roots
    → Grows h (keep (c ∷ []) (record g { roots = drop 3 g.roots }))
released h g c v u w roots =
    let left = ap (drop 3) roots in
    Grows-roots h g (c ∷ drop 3 g.roots) w
      (λ a e. in_tail a c (drop 3 g.roots) (ap (contains a) left ∙ e))
      (λ a e.
        ap (contains a) roots
        ∙ behind a c (v ∷ u ∷ []) h.roots (sym (ap (λ y. contains a (c ∷ y)) left) ∙ e))
