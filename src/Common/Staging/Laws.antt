-- ===== src/Common/Staging/Laws.antt =====
-- Staging is all or nothing.
use r_oss_fuzz.Base.{
  ℕ, Bool, true, false, List, [], ◌∷◌, Bytes, length, ◌==◌, ◌≡◌, ◌≢◌, ◌⊎◌, inl, inr, refl, sym, ap,
  ◌∙◌, arith, Bool-cases, ==_iff,
}
use r_oss_fuzz.Host.{Mark, native, c_string}
use r_oss_fuzz.Common.Objects.{
  Object, chars, raws, strings, vector, call, object, Cell, points, Heap, contains, holds, Reached,
  root, held, Collector, Keeps, Outcome, returned, Action, ◌>>=◌, ◌>>◌, collect, allocate, put,
  set_string_elt, set_vector_elt, setcadr, copy_to_raw, toplevel,
}
use r_oss_fuzz.Common.Objects.Reach.{
  IsValid, collect_same, collect-After, After, Written, Written-After, collect-roots,
}
use r_oss_fuzz.Common.Objects.Steps.{
  allocated, allocate-granted, allocate-refused, returned-bind, jumped-bind, toplevel-returned,
  toplevel-jumped, set_string_elt-eq, set_vector_elt-eq, setcadr-eq, copy_to_raw-eq,
}
use r_oss_fuzz.Common.Staging.{
  fuzz_do_set_string, fuzz_set_string, fuzz_do_set_string_ce, fuzz_set_string_ce, fuzz_do_set_raw,
  fuzz_set_raw_arg, set_encoding_input, stage_encoding_input,
}

-- How a call of one of the helpers ends, given whether R grants its allocation: it returns that. TRUE
-- leaves what was asked for in the object `v`, FALSE leaves it as it was, and every other object that
-- can be reached is the same.
pub record Stages (h : Heap) (v : ℕ) (Content : Heap → Type 0) (granted : Bool)
    (r : Outcome Bool × Heap) : Type 0 where
  pub returns : r.0 ≡ returned granted
  pub after : After h r.1 v
  pub content : granted ≡ true → Content r.1
  pub unchanged : granted ≡ false → r.1.cells v ≡ h.cells v

abbrev pub HoldsString : ℕ → Mark → Bytes → Heap → Type 0
HoldsString v m s h = (c : ℕ) × (h.cells v ≡ strings c) × (h.cells c ≡ chars m s)

-- The call is as it was, with a new raw vector as its first argument.
abbrev pub HoldsArg : ℕ → Cell → Cell → List Cell → Bytes → Heap → Type 0
HoldsArg v f x l s h =
    (a : ℕ) × (h.cells v ≡ call (f ∷ record x { value = object a } ∷ l))
    × (h.cells a ≡ raws (length s) s)

abbrev pub HoldsElement : ℕ → Bytes → Heap → Type 0
HoldsElement v s h = (a : ℕ) × (h.cells v ≡ vector a) × (h.cells a ≡ raws (length s) s)

module _ (k : Collector) (h : Heap) (v : ℕ) (s : Keeps k) (valid : IsValid h)
    (kept : contains v h.roots ≡ true) where
  same_place : (collect k [] h).cells v ≡ h.cells v
  same_place = collect_same k [] h v s (root v kept)

  other : v ≢ h.next
  other = let lt = valid v (root v kept) in omega arith

  -- An allocation under `R_ToplevelExec`, with what the code does with the new object.
  allocation_Stages :
      (Content : Heap → Type 0) (w o o' : Object) (rest : ℕ → Action (Unit {0})) (h' : Heap)
      → rest h.next (allocated k [] o h) ≡ (returned tt, h')
      → Written k h h' v w o'
      → ((b : ℕ) → holds w b ≡ true → Reached h.roots h.cells b ⊎ (b ≡ h.next))
      → ((b : ℕ) → holds o' b ≡ true → Reached h.roots h.cells b ⊎ (b ≡ h.next))
      → Content h'
      → Stages h v Content (k.grants [] h) (toplevel (allocate k [] o >>= rest) h)
  unfolding collect
  allocation_Stages Content w o o' rest h' after x of_w of_o c = elim (Bool-cases (k.grants [] h)) [
    | inr bad ↦
        let same = collect-After k [] h v s valid in
        let e =
          toplevel-jumped (allocate k [] o >>= rest) h (collect k [] h) (
            jumped-bind (allocate k [] o) rest h (collect k [] h)
              (allocate-refused k [] o h bad)) in
        record {
          returns = ap (λ y. y.0) e ∙ ap returned (sym bad);
          after = rw e same.0;
          content = λ f. absurd (ground arith);
          unchanged = λ _. rw e (same.1 v (root v kept));
        }
    | inl good ↦
        let e = toplevel-returned (allocate k [] o >>= rest) h h' (
          returned-bind (allocate k [] o) rest h (allocated k [] o h) h.next
            (allocate-granted k [] o h good)
          ∙ after) in
        record {
          returns = ap (λ y. y.0) e ∙ ap returned (sym good);
          after = rw e (Written-After k h h' v w o' s valid x of_w of_o);
          content = λ _. rw e c;
          unchanged = λ f. absurd (ground arith);
        }
  ]

  of_chars :
      (m : Mark) (t : Bytes) (b : ℕ)
      → holds (chars m t) b ≡ true
      → Reached h.roots h.cells b ⊎ (b ≡ h.next)
  unfolding holds
  of_chars m t b e = absurd (ground arith)

  of_raws :
      (n : ℕ) (t : Bytes) (b : ℕ)
      → holds (raws n t) b ≡ true
      → Reached h.roots h.cells b ⊎ (b ≡ h.next)
  unfolding holds
  of_raws n t b e = absurd (ground arith)

  of_strings : (b : ℕ) → holds (strings h.next) b ≡ true → Reached h.roots h.cells b ⊎ (b ≡ h.next)
  unfolding holds
  of_strings b e = inr (sym ((==_iff h.next b).0 e))

  of_vector : (b : ℕ) → holds (vector h.next) b ≡ true → Reached h.roots h.cells b ⊎ (b ≡ h.next)
  unfolding holds
  of_vector b e = inr (sym ((==_iff h.next b).0 e))

  of_call :
      (f x : Cell) (l : List Cell)
      → h.cells v ≡ call (f ∷ x ∷ l)
      → (b : ℕ) → holds (call (f ∷ record x { value = object h.next } ∷ l)) b ≡ true
      → Reached h.roots h.cells b ⊎ (b ≡ h.next)
  unfolding holds points
  of_call f x l c b e = elim (Bool-cases (h.next == b)) [
    | inl new ↦ inr (sym ((==_iff h.next b).0 new))
    | inr old ↦ inl (held v b (root v kept) (ground (arith, c)))
  ]

  -- The same of `fuzz_set_string_ce`, on a vector of one string.
  pub fuzz_set_string_ce-Stages :
      (m : Mark) (str : Bytes) (old : ℕ)
      → h.cells v ≡ strings old
      → Stages h v (HoldsString v m (c_string str)) (k.grants [] h) (fuzz_set_string_ce k v str m h)
  unfolding fuzz_set_string_ce fuzz_do_set_string_ce
  fuzz_set_string_ce-Stages m str old e =
      let o = chars m (c_string str) in
      let h₁ = allocated k [] o h in
      let there : h₁.cells v ≡ strings old = ground (arith, other, same_place, e) in
      allocation_Stages (HoldsString v m (c_string str)) (strings h.next) o o (set_string_elt v)
        (put v (strings h.next) h₁) (set_string_elt-eq h₁ v h.next old there)
        (record {
          next = refl;
          roots = collect-roots k [] h;
          at_v = ground arith;
          at_new = ground (arith, other);
          elsewhere = λ a n n'. ground arith;
        })
        of_strings (of_chars m (c_string str)) (h.next, ground arith, ground (arith, other))

  -- The same of `fuzz_set_string`, which marks nothing.
  pub fuzz_set_string-Stages :
      (str : Bytes) (old : ℕ)
      → h.cells v ≡ strings old
      → Stages h v (HoldsString v native (c_string str)) (k.grants [] h) (fuzz_set_string k v str h)
  unfolding fuzz_set_string fuzz_set_string_ce fuzz_do_set_string fuzz_do_set_string_ce
  fuzz_set_string-Stages str old e = fuzz_set_string_ce-Stages native str old e

  -- The same of `fuzz_set_raw_arg`, on a call with an argument.
  pub fuzz_set_raw_arg-Stages :
      (bytes : Bytes) (f x : Cell) (l : List Cell)
      → h.cells v ≡ call (f ∷ x ∷ l)
      → Stages h v (HoldsArg v f x l bytes) (k.grants [] h) (fuzz_set_raw_arg k v bytes h)
  unfolding fuzz_set_raw_arg fuzz_do_set_raw
  fuzz_set_raw_arg-Stages bytes f x l e =
      let o = raws (length bytes) [] in
      let o' = raws (length bytes) bytes in
      let w = call (f ∷ record x { value = object h.next } ∷ l) in
      let h₁ = allocated k [] o h in
      let there : h₁.cells v ≡ call (f ∷ x ∷ l) = ground (arith, other, same_place, e) in
      let h₂ = put v w h₁ in
      let new : h₂.cells h.next ≡ o = ground (arith, other) in
      let h₃ = put h.next o' h₂ in
      allocation_Stages (HoldsArg v f x l bytes) w o o'
        (λ raw. setcadr v raw >> copy_to_raw raw bytes) h₃
        (returned-bind (setcadr v h.next) (λ _. copy_to_raw h.next bytes) h₁ h₂ tt
            (setcadr-eq h₁ v h.next f x l there)
          ∙ copy_to_raw-eq h₂ h.next bytes new)
        (record {
          next = refl;
          roots = collect-roots k [] h;
          at_v = ground (arith, other);
          at_new = ground arith;
          elsewhere = λ a n n'. ground arith;
        })
        (of_call f x l e) (of_raws (length bytes) bytes)
        (h.next, ground (arith, other), ground arith)

  -- Where the memory manager keeps what is reachable, and a root of a valid heap holds a list of one
  -- element: `set_encoding_input` under `R_ToplevelExec` returns TRUE exactly if its allocation is
  -- granted, and then the element is a raw vector with these bytes and no others. With FALSE the list is
  -- as it was. Either way the roots, and every other object that they reach, are the same.
  pub stage_encoding_input-Stages :
      (bytes : Bytes) (old : ℕ)
      → h.cells v ≡ vector old
      → Stages h v (HoldsElement v bytes) (k.grants [] h) (stage_encoding_input k v bytes h)
  unfolding stage_encoding_input set_encoding_input
  stage_encoding_input-Stages bytes old e =
      let o = raws (length bytes) [] in
      let o' = raws (length bytes) bytes in
      let w = vector h.next in
      let h₁ = allocated k [] o h in
      let new : h₁.cells h.next ≡ o = ground arith in
      let h₂ = put h.next o' h₁ in
      let there : h₂.cells v ≡ vector old = ground (arith, other, same_place, e) in
      allocation_Stages (HoldsElement v bytes) w o o'
        (λ raw. copy_to_raw raw bytes >> set_vector_elt v raw) (put v w h₂)
        (returned-bind (copy_to_raw h.next bytes) (λ _. set_vector_elt v h.next) h₁ h₂ tt
            (copy_to_raw-eq h₁ h.next bytes new)
          ∙ set_vector_elt-eq h₂ v h.next old there)
        (record {
          next = refl;
          roots = collect-roots k [] h;
          at_v = ground arith;
          at_new = ground (arith, other);
          elsewhere = λ a n n'. ground arith;
        })
        of_vector (of_raws (length bytes) bytes) (h.next, ground arith, ground (arith, other))
