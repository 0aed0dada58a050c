-- ===== src/Targets/Encoding/Calls/Tags.antt =====
-- The tags of a call that is built, step by step.
use r_oss_fuzz.Base.{
  ℕ, zero, suc, ◌≤◌, true, Option, none, some, List, [], ◌∷◌, Bytes, ◌≡◌, ◌≢◌, refl, sym, ap, ◌∙◌,
  arith, Option-cases, inl, inr, some-eq, ==_iff, ℕ_discrete,
}
use r_oss_fuzz.Host.{native}
use r_oss_fuzz.Common.Objects.{
  chars, strings, call, Cell, symbol, Heap, contains, holds, points, Reached, root, held, Collector,
  Keeps, Action, returned, ◌>>=◌, ◌>>◌, collect, put, install, set_tag, tag_cell,
}
use r_oss_fuzz.Common.Objects.Reach.{IsValid, collect_same}
use r_oss_fuzz.Common.Objects.Steps.{returned-bind}
use r_oss_fuzz.Common.Objects.Grows.{Grows, Grants, Reached-Grows, Reached-within}
use r_oss_fuzz.Targets.Encoding.Calls.{set_tags, tags}

-- The cells with all the tags.
abbrev pub tag_all : List (ℕ × Bytes) → List Cell → Option (List Cell)
tag_all [] l = some l
tag_all ((n, s) ∷ t) l = elim (tag_cell n s l) [ none ↦ none | some r ↦ tag_all t r ]

points-tag :
    (n : ℕ) (s : Bytes) (l r : List Cell) (b : ℕ)
    → tag_cell n s l ≡ some r
    → points r b ≡ points l b
unfolding tag_cell points
points-tag n s [] r b e = absurd (ground arith)
points-tag zero s (c ∷ l) r b e = ground arith
points-tag (suc n) s (c ∷ l) r b e = elim (Option-cases (tag_cell n s l)) [
  | inl fail ↦ absurd (ground arith)
  | inr (t, f) ↦ let i = points-tag n s l t b f in ground (arith, i, e, f)
]

-- The text of a string vector.
abbrev pub Text : ℕ → Bytes → Heap → Type 0
Text a s h = (e : ℕ) × (h.cells a ≡ strings e) × (h.cells e ≡ chars native s)

set_tag-eq :
    (c n : ℕ) (t : Bytes) (l r : List Cell) (g : Heap)
    → g.cells c ≡ call l
    → tag_cell n t l ≡ some r
    → set_tag c n (symbol t) g ≡ (returned tt, put c (call r) g)
unfolding set_tag
set_tag-eq c n t l r g at e = rw (at, e, set_tag) refl

module _ (k : Collector) (s : Keeps k) (grants : Grants k) (h : Heap) (c : ℕ)
    (valid : IsValid h) where
  -- A heap on the way to the call `c` with the cells `l`.
  pub record Building (l : List Cell) (g : Heap) : Type 0 where
    pub grows : Grows h g
    pub new : h.next ≤ c
    pub kept : contains c g.roots ≡ true
    pub at : g.cells c ≡ call l

  pub install_lem : (t : Bytes) (g : Heap) → install k t g ≡ (returned (symbol t), collect k [] g)
  unfolding install
  install_lem t g = rw (grants [] g) refl

  tag_same :
      (l r : List Cell) (g : Heap)
      → Building l g
      → (a : ℕ) → Reached g.roots g.cells a
      → a ≢ c
      → (put c (call r) (collect k [] g)).cells a ≡ g.cells a
  tag_same l r g i a q n = let e = collect_same k [] g a s q in ground (arith, e, n)

  tag_Building :
      (n : ℕ) (t : Bytes) (l r : List Cell) (g : Heap)
      → tag_cell n t l ≡ some r
      → Building l g
      → Building r (put c (call r) (collect k [] g))
  unfolding collect holds
  tag_Building n t l r g e i = record {
    grows = record {
      valid = λ a q. i.grows.valid a (
          Reached-within (Reached g.roots g.cells) g.roots (put c (call r) (collect k [] g)).cells
            (λ b f. root b f) step_lem a q);
      roots = i.grows.roots;
      same = λ a q.
          let lt = valid a q in
          let ge = i.new in
          let old = Reached-Grows h g i.grows a q in
          tag_same l r g i a old (omega arith) ∙ i.grows.same a q;
      next = i.grows.next;
    };
    new = i.new;
    kept = i.kept;
    at = ground arith;
  }
    where
      replaced : (a : ℕ) → a ≡ c → (put c (call r) (collect k [] g)).cells a ≡ call r
      replaced a same = ground (arith, same)

      step_lem :
          (a b : ℕ)
          → Reached g.roots g.cells a
          → holds ((put c (call r) (collect k [] g)).cells a) b ≡ true
          → Reached g.roots g.cells b
      step_lem a b q f = elim (ℕ_discrete a c) [
        | yes here ↦ held c b (root c i.kept) (
            ap (λ o. holds o b) i.at
            ∙ sym (points-tag n t l r b e)
            ∙ (sym (ap (λ o. holds o b) (replaced a here)) ∙ f))
        | no there ↦ held a b q (ap (λ o. holds o b) (sym (tag_same l r g i a q there)) ∙ f)
      ]

  -- A string whose vector a root holds is not touched.
  tag_Text :
      (l r : List Cell) (g : Heap) (a : ℕ) (t : Bytes)
      → Building l g
      → contains a g.roots ≡ true
      → Text a t g
      → Text a t (put c (call r) (collect k [] g))
  unfolding holds
  tag_Text l r g a t i q (e, v, w) = (
    e,
    tag_same l r g i a (root a q) (λ x. absurd (ground (arith, i.at, v, x))) ∙ v,
    tag_same l r g i e (held a e (root a q) (ap (λ o. holds o e) v ∙ (==_iff e e).1 refl))
          (λ x. absurd (ground (arith, i.at, w, x)))
        ∙ w,
  )

  tag_step :
      (n : ℕ) (t : Bytes) (l r : List Cell) (g : Heap) (rest : Action (Unit {0}))
      → tag_cell n t l ≡ some r
      → g.cells c ≡ call l
      → Reached g.roots g.cells c
      → (install k t >>= λ v. set_tag c n v >> rest) g ≡ rest (put c (call r) (collect k [] g))
  tag_step n t l r g rest e at q =
      let g₁ = collect k [] g in
      let there = collect_same k [] g c s q ∙ at in
      returned-bind (install k t) (λ v. set_tag c n v >> rest) g g₁ (symbol t) (install_lem t g)
      ∙ returned-bind (set_tag c n (symbol t)) (λ _. rest) g₁ (put c (call r) g₁) tt
          (set_tag-eq c n t l r g₁ there e)

  -- What the tags come to, for two strings that are protected.
  pub record Tagged (tags : List (ℕ × Bytes)) (r : List Cell) (u v : ℕ) (from to : Bytes) (g : Heap)
      : Type 0 where
    pub heap : Heap
    pub returns : set_tags k c tags g ≡ (returned tt, heap)
    pub roots : heap.roots ≡ g.roots
    pub building : Building r heap
    pub from_text : Text u from heap
    pub to_text : Text v to heap

  pub set_tags-Tagged :
      (tags : List (ℕ × Bytes)) (l r : List Cell) (u v : ℕ) (from to : Bytes) (g : Heap)
      → tag_all tags l ≡ some r
      → Building l g
      → contains u g.roots ≡ true
      → contains v g.roots ≡ true
      → Text u from g
      → Text v to g
      → Tagged tags r u v from to g
  unfolding set_tags collect
  set_tags-Tagged [] l r u v from to g e i ku kv tu tv = record {
    heap = g;
    returns = refl;
    roots = refl;
    building = rw (← some-eq l r e) i;
    from_text = tu;
    to_text = tv;
  }
  set_tags-Tagged ((n, t) ∷ tags) l r u v from to g e i ku kv tu tv =
      elim (Option-cases (tag_cell n t l)) [
        | inl fail ↦ absurd (ground (arith, fail, e))
        | inr (l', f) ↦
            let g' = put c (call l') (collect k [] g) in
            let x =
              set_tags-Tagged tags l' r u v from to g'
                (ap
                    (λ o. elim o as (λ y. Option (List Cell)) [
                      | none ↦ none
                      | some z ↦ tag_all tags z
                    ])
                    (sym f)
                  ∙ e)
                (tag_Building n t l l' g f i) ku kv (tag_Text l l' g u from i ku tu)
                (tag_Text l l' g v to i kv tv) in
            record {
              heap = x.heap;
              returns = tag_step n t l l' g (set_tags k c tags) f i.at (root c i.kept) ∙ x.returns;
              roots = x.roots;
              building = x.building;
              from_text = x.from_text;
              to_text = x.to_text;
            }
      ]
