-- ===== src/Targets/Encoding/Calls/Lives.antt =====
-- Every argument of a call that harnesses/encoding.c makes is there when the call is returned.
use r_oss_fuzz.Base.{
  ℕ, true, Option, none, some, List, [], ◌∷◌, Bytes, codes, drop, map, All, ◌≡◌, refl, ap, ◌∙◌,
  arith, ==_iff,
}
use r_oss_fuzz.Common.Objects.{
  call, Cell, Value, symbol, objects, untagged, Heap, contains, holds, Reached, root, held,
  Collector, Keeps, Action, returned, ◌>>=◌, ◌>>◌, collect, install, mk_string, lang, protect,
  unprotect, tag_cell,
}
use r_oss_fuzz.Common.Objects.Reach.{IsValid, collect_same, collect-IsValid, collect-roots}
use r_oss_fuzz.Common.Objects.Steps.{allocated, allocate-granted}
use r_oss_fuzz.Common.Objects.Grows.{
  Grows, keep, Grants, mk_string-Makes, Grows-trans, Grows-roots, Reached-Grows, allocated-Grows,
}
use r_oss_fuzz.Common.Objects.Roots.{
  keep-Grows, points-objects, contains-front, behind, in_head, in_tail, Grows-refl, All-here,
  released,
}
use r_oss_fuzz.Targets.Encoding.Calls.{tags, arguments, extra_value, make_iconv_call}
use r_oss_fuzz.Targets.Encoding.Calls.Tags.{tag_all, Text, Building, set_tags-Tagged, install_lem}

Text-Grows :
    (g g' : Heap) (a : ℕ) (t : Bytes)
    → Grows g g'
    → contains a g.roots ≡ true
    → Text a t g
    → Text a t g'
unfolding holds
Text-Grows g g' a t w k (e, v, x) = (
  e,
  w.same a (root a k) ∙ v,
  w.same e (held a e (root a k) (ap (λ o. holds o e) v ∙ (==_iff e e).1 refl)) ∙ x,
)

-- Each tag has its cell.
tags_total :
    (extra : Option (Bytes × ℕ)) (x u v sub : ℕ)
    → (cells : List Cell) × (tag_all
          (tags extra)
          (map untagged (symbol (codes "iconv") ∷ arguments x u v sub extra))
        ≡ some cells)
unfolding tag_cell
tags_total none x u v sub = (_, refl)
tags_total (some (t, e)) x u v sub = (_, refl)

module _ (k : Collector) (s : Keeps k) (grants : Grants k) where
  lang-Grows :
      (l : List Value) (g : Heap)
      → IsValid g
      → All (Reached g.roots g.cells) (objects l)
      → Grows g (keep (g.next ∷ []) (allocated k (objects l) (call (map untagged l)) g))
  unfolding contains holds collect
  lang-Grows l g valid h =
      let more = objects l in
      let o = call (map untagged l) in
      let g₁ = keep-Grows more g valid h in
      let g₂ =
        allocated-Grows k s more o g g₁.valid
          (λ b e. root b (contains-front b more g.roots (points-objects l b e))) in
      let h₂ = keep (g.next ∷ more) (allocated k more o g) in
      Grows-roots g h₂ (g.next ∷ g.roots) (Grows-trans g (keep more g) h₂ g₁ g₂)
        (λ a e. ground (arith, e)) (λ a e. behind a g.next more g.roots e)

  collect-Grows : (h g : Heap) → Grows h g → Grows h (collect k [] g)
  unfolding collect
  collect-Grows h g w = record {
    valid = collect-IsValid k [] g s w.valid;
    roots = w.roots;
    same = λ a r. collect_same k [] g a s (Reached-Grows h g w a r) ∙ w.same a r;
    next = w.next;
  }

  built :
      (l : List Value) (g : Heap)
      → (allocated k (objects l) (call (map untagged l)) g).cells g.next ≡ call (map untagged l)
  built l g = ground arith

  lang-eq :
      (l : List Value) (g : Heap)
      → lang k l g ≡ (returned g.next, allocated k (objects l) (call (map untagged l)) g)
  unfolding lang
  lang-eq l g = allocate-granted k (objects l) (call (map untagged l)) g (grants (objects l) g)

  -- What is given to a call, and what it is made of.
  abbrev pub Given : ℕ → ℕ → Option (Bytes × ℕ) → Heap → Type 0
  Given x sub extra h = All (Reached h.roots h.cells) (x ∷ sub ∷ objects (extra_value extra))

  pub record Lives (x : ℕ) (from to : Bytes) (sub : ℕ) (extra : Option (Bytes × ℕ)) (h : Heap)
      : Type 0 where
    pub address : ℕ
    pub heap : Heap
    pub from_string : ℕ
    pub to_string : ℕ
    pub cells : List Cell
    pub returns : make_iconv_call k x from to sub extra h ≡ (returned address, heap)
    pub roots : heap.roots ≡ h.roots
    pub grows : Grows h (keep (address ∷ []) heap)
    pub at : heap.cells address ≡ call cells
    pub tagged :
        tag_all
          (tags extra)
          (map untagged (symbol (codes "iconv") ∷ arguments x from_string to_string sub extra))
        ≡ some cells
    pub from_text : Text from_string from heap
    pub to_text : Text to_string to heap

  -- The two strings and the symbol, in front of the call.
  record Prepared (from to : Bytes) (h : Heap) : Type 0 where
    pub from_string : ℕ
    pub to_string : ℕ
    pub heap : Heap
    pub grows : Grows h heap
    pub roots : heap.roots ≡ to_string ∷ from_string ∷ h.roots
    pub from_text : Text from_string from heap
    pub to_text : Text to_string to heap
    pub returns :
        (rest : ℕ → ℕ → Value → Action ℕ)
        → (mk_string k from >>= λ a.
              protect a
              >> (mk_string k to >>= λ b.
                  protect b >> (install k (codes "iconv") >>= λ f. rest a b f)))
            h
          ≡ rest from_string to_string (symbol (codes "iconv")) heap

  prepare : (from to : Bytes) (h : Heap) → IsValid h → Prepared from to h
  unfolding protect
  prepare from to h valid =
      let m₁ = mk_string-Makes k s h from grants valid in
      let u = m₁.vec in
      let h₁ = keep (u ∷ []) m₁.heap in
      let m₂ = mk_string-Makes k s h₁ to grants m₁.grows.valid in
      let v = m₂.vec in
      let h₂ = keep (v ∷ []) m₂.heap in
      let h₃ = collect k [] h₂ in
      let g₂ = collect-Grows h₂ h₂ (Grows-refl h₂ m₂.grows.valid) in
      record {
        from_string = u;
        to_string = v;
        heap = h₃;
        grows = collect-Grows h h₂ (Grows-trans h h₁ h₂ m₁.grows m₂.grows);
        roots = collect-roots k [] h₂ ∙ ap (λ y. v ∷ y) (m₂.roots ∙ ap (λ y. u ∷ y) m₁.roots);
        from_text =
            Text-Grows h₁ h₃ u from (collect-Grows h₁ h₂ m₂.grows) (in_head u m₁.heap.roots)
              (m₁.element, m₁.at_vec, m₁.at_element);
        to_text =
            Text-Grows h₂ h₃ v to g₂ (in_head v m₂.heap.roots)
              (m₂.element, m₂.at_vec, m₂.at_element);
        returns = λ rest.
            rw (m₁.returns, m₂.returns, install_lem k s grants h u valid (codes "iconv") h₂) refl;
      }

  -- Where the memory manager keeps what is reachable and grants every allocation, and the object, the
  -- substitute and the extra argument are reachable: `iconv_call` returns a call whose cells have their
  -- tags and are the object, the two strings with their texts, the substitute and the extra argument;
  -- the protect stack is as before, all that was reachable is unchanged, and what the call reaches is
  -- there if the caller protects it.
  pub make_iconv_call-Lives :
      (x : ℕ) (from to : Bytes) (sub : ℕ) (extra : Option (Bytes × ℕ)) (h : Heap)
      → IsValid h
      → Given x sub extra h
      → Lives x from to sub extra h
  unfolding make_iconv_call protect unprotect
  make_iconv_call-Lives x from to sub extra h valid given =
      let p = prepare from to h valid in
      let u = p.from_string in
      let v = p.to_string in
      let l = symbol (codes "iconv") ∷ arguments x u v sub extra in
      let c = p.heap.next in
      let h₄ = allocated k (objects l) (call (map untagged l)) p.heap in
      let h₅ = keep (c ∷ []) h₄ in
      let here = All-here h p.heap p.grows in
      let ku = ap (contains u) p.roots ∙ in_tail u v (u ∷ h.roots) (in_head u h.roots) in
      let kv = ap (contains v) p.roots ∙ in_head v (u ∷ h.roots) in
      let others = here (x ∷ sub ∷ objects (extra_value extra)) given in
      let g =
        lang-Grows l p.heap p.grows.valid
          (others.0, (root u ku, (root v kv, (others.1.0, others.1.1)))) in
      let b : Building k s grants h c valid (map untagged l) h₅ = record {
        grows = Grows-trans h p.heap h₅ p.grows g;
        new = p.grows.next;
        kept = in_head c h₄.roots;
        at = built l p.heap;
      } in
      let ready = tags_total extra x u v sub in
      let done =
        set_tags-Tagged k s grants h c valid (tags extra) (map untagged l) ready.0 u v from to h₅
          ready.1 b (g.roots u ku) (g.roots v kv) (Text-Grows p.heap h₅ u from g ku p.from_text)
          (Text-Grows p.heap h₅ v to g kv p.to_text) in
      let roots : done.heap.roots ≡ c ∷ v ∷ u ∷ h.roots =
        done.roots ∙ ap (λ y. c ∷ y) (collect-roots k (objects l) p.heap ∙ p.roots) in
      record {
        address = c;
        heap = record done.heap { roots = drop 3 done.heap.roots };
        from_string = u;
        to_string = v;
        cells = ready.0;
        returns = p.returns _ ∙ rw (lang-eq l p.heap, done.returns) refl;
        roots = ap (drop 3) roots;
        grows = released h done.heap c v u done.building.grows roots;
        at = done.building.at;
        tagged = ready.1;
        from_text = done.from_text;
        to_text = done.to_text;
      }
