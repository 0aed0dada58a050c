-- ===== src/Targets/World/Holds.antt =====
-- A call is evaluated on this input: whatever the memory manager, the C library and the evaluations
-- before it did, the staged objects and the scratch file hold it at that moment.
use r_oss_fuzz.Base.{
  ℕ, Bool, true, false, Option, none, some, List, [], ◌∷◌, ◌++◌, Bytes, ◌≡◌, refl, sym, ap, ◌∙◌,
  arith, Option-cases, inl, inr,
}
use r_oss_fuzz.Host.{
  Vec, x_list, Mark, Op, set_string, set_raw_element, set_raw_arg, write_scratch, Trace, has_byte,
  c_string,
}
use r_oss_fuzz.Common.Objects.{Cell, Heap, Keeps, Outcome, returned, jumped, fault}
use r_oss_fuzz.Common.Staging.{fuzz_set_raw_arg, stage_encoding_input}
use r_oss_fuzz.Common.Staging.Laws.{HoldsString, HoldsArg, HoldsElement}
use r_oss_fuzz.Common.Scratch.{Files, file}
use r_oss_fuzz.Common.Scratch.Laws.{IsClib, fuzz_write_scratch-Replaces}
use r_oss_fuzz.Targets.World.{
  World, Layout, Machine, step, verdict, on_object, replay, IsText, Laid, Quiet, set_text,
}
use r_oss_fuzz.Targets.World.Laws.{text-Stages, element-Stages, argument-Stages, verdict-heap}

-- What an operation staged is in its place.
abbrev pub Held : Layout → Op → World → Type 0
Held l (set_string v mark s) w =
    (a : ℕ) × (l.object_of v ≡ some a) × HoldsString a mark (c_string s) w.heap
Held l (set_raw_element v s) w = (a : ℕ) × (l.object_of v ≡ some a) × HoldsElement a s w.heap
Held l (set_raw_arg i s) w =
    (a : ℕ) × (f : Cell) × (x : Cell) × (r : List Cell) × (l.call_of i ≡ some a)
    × HoldsArg a f x r s w.heap
Held l (write_scratch s) w = w.files l.scratch_path ≡ some (file s)
Held l op w = Unit

verdict-true : (f : Files) (r : Outcome Bool × Heap) → (verdict f r).0 ≡ true → r.0 ≡ returned true
verdict-true f (returned b, h) e = ap returned e
verdict-true f (jumped, h) e = absurd (ground arith)
verdict-true f (fault, h) e = absurd (ground arith)

returned-injective : (a b : Bool) → returned a ≡ returned b → a ≡ b
returned-injective a b e = ground arith

verdict-files : (f : Files) (r : Outcome Bool × Heap) → (verdict f r).1.files ≡ f
verdict-files f (returned b, h) = refl
verdict-files f (jumped, h) = refl
verdict-files f (fault, h) = refl

on_object-files :
    (o : Option ℕ) (act : ℕ → Heap → Outcome Bool × Heap) (w : World)
    → (on_object o act w).1.files ≡ w.files
on_object-files none act w = refl
on_object-files (some a) act w = verdict-files w.files (act a w.heap)

pub c_string-text : (p : Bytes) → has_byte 0 p ≡ false → c_string p ≡ p
unfolding c_string has_byte
c_string-text [] h = refl
c_string-text (b ∷ p) h = ground (arith, c_string-text p)

module _ (m : Machine) (l : Layout) where
  pub replay-append :
      (t u : Trace) (w : World) → replay m l (t ++ u) w ≡ replay m l u (replay m l t w)
  unfolding replay
  replay-append [] u w = refl
  replay-append (op ∷ t) u w = replay-append t u (step m l op w).1

  module _ (k : Keeps m.collector) (q : Quiet m) (c : IsClib m.clib) where
    pub text-Held :
        (v : Vec) (mark : Mark) (s : Bytes) (w : World)
        → IsText v
        → Laid l w.heap
        → (step m l (set_string v mark s) w).0 ≡ true
        → Held l (set_string v mark s) (step m l (set_string v mark s) w).1
    text-Held v mark s w t d e = elim (Option-cases (l.object_of v)) [
      | inl nowhere ↦ absurd (ground (arith, e, nowhere))
      | inr (a, at) ↦
          let r = set_text m.collector mark s a w.heap in
          let st = text-Stages m l k q v mark s a w.heap t at d in
          let same = ap (λ o. on_object o (set_text m.collector mark s) w) at in
          let done = verdict-true w.files r (sym (ap (λ x. x.0) same) ∙ e) in
          let good =
            returned-injective (m.collector.grants [] w.heap) true (sym st.returns ∙ done) in
          let heap = ap (λ x. x.1.heap) same ∙ verdict-heap w.files r in
          (a, at, rw heap (st.content good))
    ]

    pub element-Held :
        (s : Bytes) (w : World)
        → Laid l w.heap
        → (step m l (set_raw_element x_list s) w).0 ≡ true
        → Held l (set_raw_element x_list s) (step m l (set_raw_element x_list s) w).1
    element-Held s w d e = elim (Option-cases (l.object_of x_list)) [
      | inl nowhere ↦ absurd (ground (arith, e, nowhere))
      | inr (a, at) ↦
          let r = stage_encoding_input m.collector a s w.heap in
          let st = element-Stages m l k q s a w.heap at d in
          let same = ap (λ o. on_object o (λ b. stage_encoding_input m.collector b s) w) at in
          let done = verdict-true w.files r (sym (ap (λ x. x.0) same) ∙ e) in
          let good =
            returned-injective (m.collector.grants [] w.heap) true (sym st.returns ∙ done) in
          let heap = ap (λ x. x.1.heap) same ∙ verdict-heap w.files r in
          (a, at, rw heap (st.content good))
    ]

    pub argument-Held :
        (i : ℕ) (s : Bytes) (w : World)
        → Laid l w.heap
        → (step m l (set_raw_arg i s) w).0 ≡ true
        → Held l (set_raw_arg i s) (step m l (set_raw_arg i s) w).1
    argument-Held i s w d e = elim (Option-cases (l.call_of i)) [
      | inl nowhere ↦ absurd (ground (arith, e, nowhere))
      | inr (a, at) ↦
          let p = d.argument i a at in
          let r = fuzz_set_raw_arg m.collector a s w.heap in
          let st = argument-Stages m l k q i s a w.heap at d in
          let same = ap (λ o. on_object o (λ b. fuzz_set_raw_arg m.collector b s) w) at in
          let done = verdict-true w.files r (sym (ap (λ x. x.0) same) ∙ e) in
          let good =
            returned-injective (m.collector.grants [] w.heap) true (sym st.returns ∙ done) in
          let heap = ap (λ x. x.1.heap) same ∙ verdict-heap w.files r in
          (a, p.1.0, p.1.1, p.1.2, at, rw heap (st.content good))
    ]

    pub file-Held :
        (s : Bytes) (w : World)
        → (step m l (write_scratch s) w).0 ≡ true
        → Held l (write_scratch s) (step m l (write_scratch s) w).1
    file-Held s w e = (fuzz_write_scratch-Replaces m.clib l.scratch_path s w.files c).holds e

    -- A file that was written stays while a call is given its argument.
    pub file_stays :
        (s : Bytes) (i : ℕ) (p : Bytes) (w : World)
        → Held l (write_scratch s) w
        → Held l (write_scratch s) (step m l (set_raw_arg i p) w).1
    file_stays s i p w h =
        ap (λ f. f l.scratch_path)
          (on_object-files (l.call_of i) (λ a. fuzz_set_raw_arg m.collector a p) w)
        ∙ h
