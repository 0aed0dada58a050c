-- ===== src/Targets/Datetime/Switch.antt =====
-- `make_setlocale_call` of harnesses/datetime.c, on R's objects. C leaves open in what order the
-- arguments of a call are evaluated: here it is from left to right.
use r_oss_fuzz.Base.{ℕ, suc, true, [], ◌∷◌, Bytes, codes, ◌≡◌, refl, arith, List, map, ◌∙◌, ap, sym}
use r_oss_fuzz.Host.{native}
use r_oss_fuzz.Common.Objects.{
  Value, call, chars, strings, objects, collect, symbol, object, freed, Heap, Reached, Collector,
  Keeps, returned, Action, ◌>>=◌, ◌>>◌, pure, install, mk_string, lang, protect, untagged,
}
use r_oss_fuzz.Common.Objects.Reach.{IsValid, Reached-back, collect-IsValid}
use r_oss_fuzz.Common.Objects.Steps.{allocated, allocate-granted}
use r_oss_fuzz.Common.Objects.Grows.{
  Grants, mk_string-Makes, mk_string-granted, string_made, keep, Gone, allocated-Gone, freed-Gone,
}

-- Up to the first string.
unfoldable pub make_category : Collector → Action ℕ
make_category k = do f ← install k (codes "Sys.setlocale"); mk_string k (codes "LC_CTYPE")

unfoldable pub make_setlocale_call : Collector → Bytes → Action ℕ
make_setlocale_call k name = do
  f ← install k (codes "Sys.setlocale")
  category ← mk_string k (codes "LC_CTYPE")
  locale ← mk_string k name
  c ← lang k (f ∷ object category ∷ object locale ∷ [])
  protect c
  pure c

-- The heap when the second string is about to be made, and where the first one is.
abbrev pub between : Collector → Heap → Heap
between k h = string_made k (codes "LC_CTYPE") (collect k [] h)

abbrev pub category : Collector → Heap → ℕ
category k h = suc (collect k [] h).next

abbrev pub sys_setlocale : Value
sys_setlocale = symbol (codes "Sys.setlocale")

module _ (k : Collector) (s : Keeps k) (grants : Grants k) where
  install_lem :
      (text : Bytes) (h : Heap) → install k text h ≡ (returned (symbol text), collect k [] h)
  unfolding install
  install_lem text h = rw (grants [] h) refl

  category_lem : (h : Heap) → make_category k h ≡ (returned (category k h), between k h)
  unfolding make_category
  category_lem h =
      rw
        (
          install_lem (codes "Sys.setlocale") h,
          mk_string-granted k (codes "LC_CTYPE") (collect k [] h) grants,
        )
        refl

  -- The call, whose arguments are the two strings.
  abbrev values : ℕ → Heap → List Value
  values v h = sys_setlocale ∷ object (category k h) ∷ object v ∷ []

  abbrev called : Heap → ℕ → Heap → Heap
  called h v g = allocated k (objects (values v h)) (call (map untagged (values v h))) g

  run_lem :
      (name : Bytes) (h : Heap)
      → let g = string_made k name (between k h) in
        make_setlocale_call k name h
        ≡ (returned g.next, keep (g.next ∷ []) (called h (suc (between k h).next) g))
  unfolding make_setlocale_call lang protect
  run_lem name h =
      let g = string_made k name (between k h) in
      let l = values (suc (between k h).next) h in
      rw
        (
          install_lem (codes "Sys.setlocale") h,
          mk_string-granted k (codes "LC_CTYPE") (collect k [] h) grants,
          mk_string-granted k name (between k h) grants,
          allocate-granted k (objects l) (call (map untagged l)) g (grants (objects l) g),
        )
        refl

  unreachable :
      (h : Heap) → IsValid h → ¬ Reached (between k h).roots (between k h).cells (category k h)
  unreachable h valid r =
      let h₀ = collect k [] h in
      let m = mk_string-Makes k s h₀ (codes "LC_CTYPE") grants (collect-IsValid k [] h s valid) in
      let text = codes "LC_CTYPE" in
      let e : between k h ≡ m.heap =
        ap (λ x. x.1) (sym (mk_string-granted k text h₀ grants) ∙ m.returns) in
      let same =
        λ (a : ℕ) (p : Reached h₀.roots h₀.cells a). ap (λ g. g.cells a) e ∙ m.grows.same a p in
      let roots = ap (λ g. g.roots) e ∙ m.roots in
      let q =
        Reached-back h₀.roots h₀.cells (between k h).cells same (category k h) (rw roots at r) in
      let lt = collect-IsValid k [] h s valid (category k h) q in absurd (omega arith)

  gone_lem :
      (name : Bytes) (h : Heap)
      → k.frees [] (between k h) (category k h) ≡ true
      → Gone (category k h) (called h (suc (between k h).next) (string_made k name (between k h)))
  gone_lem name h e =
      let b = between k h in
      let l = values (suc b.next) h in
      let made = allocated k [] (chars native name) b in
      allocated-Gone k (objects l) (call (map untagged l)) (string_made k name b) (category k h) (
        allocated-Gone k (b.next ∷ []) (strings b.next) made (category k h)
          (freed-Gone k (chars native name) b (category k h) e (omega arith)))

  -- Where the memory manager grants every allocation and keeps what is reachable: when
  -- `make_setlocale_call` makes its second string, nothing reaches the first one, so the memory manager
  -- may free it; and where it does, the call that is returned has a freed object as its first argument.
  pub make_setlocale_call_dangles :
      (name : Bytes) (h : Heap)
      → IsValid h
      → k.frees [] (between k h) (category k h) ≡ true
      → (make_category k h ≡ (returned (category k h), between k h))
        × (¬ Reached (between k h).roots (between k h).cells (category k h))
        × (c : ℕ) × (h' : Heap) × (locale : ℕ) × (make_setlocale_call k name h ≡ (returned c, h'))
        × (h'.cells c
            ≡ call (
                untagged sys_setlocale
                ∷ untagged (object (category k h))
                ∷ untagged (object locale)
                ∷ []))
        × (h'.cells (category k h) ≡ freed)
  make_setlocale_call_dangles name h valid e =
      let b = between k h in
      let g = string_made k name b in
      (
        category_lem h,
        unreachable h valid,
        g.next,
        keep (g.next ∷ []) (called h (suc b.next) g),
        suc b.next,
        run_lem name h,
        ground arith,
        (gone_lem name h e).0,
      )
