-- ===== src/Targets/World/Laws.antt =====
-- Every operation keeps the layout of a target.
use r_oss_fuzz.Base.{
  ℕ, Bool, true, Option, none, some, List, [], ◌∷◌, Bytes, All, ◌≡◌, refl, sym, ap, ◌∙◌, arith,
  Bool-cases, inl, inr, ℕ_discrete,
}
use r_oss_fuzz.Host.{
  Vec, x_list, Op, set_string, set_element, set_raw_element, set_raw_arg, set_lines, write_scratch,
  set_integer, eval_silent, eval_toplevel, eval_try, serialize_null, set_serialized_arg,
  make_scratch_file, make_scratch_dir, set_flag, sink, collect, parse_vector, run_io, set_locale,
  Mark, native, utf8, latin1, Trace, c_string,
}
use r_oss_fuzz.Common.Objects.{
  Object, strings, vector, call, Cell, Heap, contains, root, Collector, Keeps, Outcome, returned,
  jumped, fault,
}
use r_oss_fuzz.Common.Objects.Reach.{After, IsValid}
use r_oss_fuzz.Common.Staging.{fuzz_set_raw_arg, stage_encoding_input}
use r_oss_fuzz.Common.Staging.Laws.{
  Stages, HoldsString, HoldsArg, HoldsElement, fuzz_set_string-Stages, fuzz_set_string_ce-Stages,
  fuzz_set_raw_arg-Stages, stage_encoding_input-Stages,
}
use r_oss_fuzz.Common.Scratch.{Files}
use r_oss_fuzz.Targets.World.{
  World, Layout, Machine, step, verdict, on_object, replay, Fits, IsText, IsStrings, IsVector,
  IsCall, Laid, Quiet, set_text,
}

-- The type of an object stays.
record Shapes (o o' : Object) : Type 0 where
  pub text : IsStrings o → IsStrings o'
  pub element : IsVector o → IsVector o'
  pub argument : IsCall o → IsCall o'

Shapes-same : (o o' : Object) → o' ≡ o → Shapes o o'
Shapes-same o o' e = record {
  text = λ p. (p.0, e ∙ p.1);
  element = λ p. (p.0, e ∙ p.1);
  argument = λ p. (p.0, p.1, p.2, e ∙ p.3);
}

Shapes-strings : (o o' : Object) (c c' : ℕ) → o ≡ strings c → o' ≡ strings c' → Shapes o o'
Shapes-strings o o' c c' e e' = record {
  text = λ p. (c', e');
  element = λ p. absurd (ground (arith, e, p.1));
  argument = λ p. absurd (ground (arith, e, p.3));
}

Shapes-vector : (o o' : Object) (c c' : ℕ) → o ≡ vector c → o' ≡ vector c' → Shapes o o'
Shapes-vector o o' c c' e e' = record {
  text = λ p. absurd (ground (arith, e, p.1));
  element = λ p. (c', e');
  argument = λ p. absurd (ground (arith, e, p.3));
}

Shapes-call :
    (o o' : Object) (f x x' : Cell) (r : List Cell)
    → o ≡ call (f ∷ x ∷ r)
    → o' ≡ call (f ∷ x' ∷ r)
    → Shapes o o'
Shapes-call o o' f x x' r e e' = record {
  text = λ p. absurd (ground (arith, e, p.1));
  element = λ p. absurd (ground (arith, e, p.1));
  argument = λ p. (f, x', r, e');
}

module _ (l : Layout) (h h' : Heap) where
  Laid-Shapes :
      Laid l h
      → IsValid h'
      → h'.roots ≡ h.roots
      → ((a : ℕ) → contains a h.roots ≡ true → Shapes (h.cells a) (h'.cells a))
      → Laid l h'
  Laid-Shapes d valid roots shapes = record {
    valid = valid;
    text = λ w a t e. let p = d.text w a t e in (still a p.0, (shapes a p.0).text p.1);
    element = λ a e. let p = d.element a e in (still a p.0, (shapes a p.0).element p.1);
    argument = λ i a e. let p = d.argument i a e in (still a p.0, (shapes a p.0).argument p.1);
  }
    where
      still : (a : ℕ) → contains a h.roots ≡ true → contains a h'.roots ≡ true
      still a k = rw roots k

  Laid-After : (v : ℕ) → Laid l h → After h h' v → Shapes (h.cells v) (h'.cells v) → Laid l h'
  Laid-After v d after shapes = Laid-Shapes d after.valid after.roots λ a k. elim (ℕ_discrete a v) [
    | yes here ↦ rw here shapes
    | no there ↦ Shapes-same (h.cells a) (h'.cells a) (after.same a (root a k) there)
  ]

-- An operation of a helper that stages, or an error, leaves the layout.
module _ (l : Layout) (h : Heap) (v : ℕ) (Content : Heap → Type 0) (granted : Bool)
    (r : Outcome Bool × Heap) where
  Laid-Stages :
      Laid l h
      → Stages h v Content granted r
      → (Content r.1 → Shapes (h.cells v) (r.1.cells v))
      → Laid l r.1
  Laid-Stages d s of_content = Laid-After l h r.1 v d s.after (elim (Bool-cases granted) [
    | inl good ↦ of_content (s.content good)
    | inr bad ↦ Shapes-same (h.cells v) (r.1.cells v) (s.unchanged bad)
  ])

pub verdict-heap : (f : Files) (r : Outcome Bool × Heap) → (verdict f r).1.heap ≡ r.1
verdict-heap f (returned b, h) = refl
verdict-heap f (jumped, h) = refl
verdict-heap f (fault, h) = refl

set_text-Stages :
    (g : Collector) (h : Heap) (a : ℕ)
    → Keeps g
    → IsValid h
    → contains a h.roots ≡ true
    → (mark : Mark) (s : Bytes) (old : ℕ) → h.cells a ≡ strings old
    → Stages h a (HoldsString a mark (c_string s)) (g.grants [] h) (set_text g mark s a h)
set_text-Stages g h a k v r native s = fuzz_set_string-Stages g h a k v r s
set_text-Stages g h a k v r utf8 s = fuzz_set_string_ce-Stages g h a k v r utf8 s
set_text-Stages g h a k v r latin1 s = fuzz_set_string_ce-Stages g h a k v r latin1 s

module _ (m : Machine) (l : Layout) (k : Keeps m.collector) (q : Quiet m) where
  pub text-Stages :
      (v : Vec) (mark : Mark) (s : Bytes) (a : ℕ) (h : Heap)
      → IsText v
      → l.object_of v ≡ some a
      → Laid l h
      → Stages h a
          (HoldsString a mark (c_string s))
          (m.collector.grants [] h)
          (set_text m.collector mark s a h)
  text-Stages v mark s a h t e d =
      let p = d.text v a t e in set_text-Stages m.collector h a k d.valid p.0 mark s p.1.0 p.1.1

  Laid-text :
      (v : Vec) (mark : Mark) (s : Bytes) (a : ℕ) (h : Heap)
      → IsText v
      → l.object_of v ≡ some a
      → Laid l h
      → Laid l (set_text m.collector mark s a h).1
  Laid-text v mark s a h t e d =
      let p = d.text v a t e in
      Laid-Stages l h a _ _ _ d (text-Stages v mark s a h t e d)
        (λ c. Shapes-strings _ _ p.1.0 c.0 p.1.1 c.1)

  pub argument-Stages :
      (i : ℕ) (s : Bytes) (a : ℕ) (h : Heap) (e : l.call_of i ≡ some a) (d : Laid l h)
      → Stages h a
          (HoldsArg a (d.argument i a e).1.0 (d.argument i a e).1.1 (d.argument i a e).1.2 s)
          (m.collector.grants [] h)
          (fuzz_set_raw_arg m.collector a s h)
  argument-Stages i s a h e d =
      let p = d.argument i a e in
      fuzz_set_raw_arg-Stages m.collector h a k d.valid p.0 s p.1.0 p.1.1 p.1.2 p.1.3

  Laid-argument :
      (i : ℕ) (s : Bytes) (a : ℕ) (h : Heap)
      → l.call_of i ≡ some a
      → Laid l h
      → Laid l (fuzz_set_raw_arg m.collector a s h).1
  Laid-argument i s a h e d =
      let p = d.argument i a e in
      Laid-Stages l h a _ _ _ d (argument-Stages i s a h e d)
        (λ c. Shapes-call _ _ p.1.0 p.1.1 _ p.1.2 p.1.3 c.1)

  pub element-Stages :
      (s : Bytes) (a : ℕ) (h : Heap)
      → l.object_of x_list ≡ some a
      → Laid l h
      → Stages h a
          (HoldsElement a s)
          (m.collector.grants [] h)
          (stage_encoding_input m.collector a s h)
  element-Stages s a h e d =
      let p = d.element a e in
      stage_encoding_input-Stages m.collector h a k d.valid p.0 s p.1.0 p.1.1

  Laid-element :
      (s : Bytes) (a : ℕ) (h : Heap)
      → l.object_of x_list ≡ some a
      → Laid l h
      → Laid l (stage_encoding_input m.collector a s h).1
  Laid-element s a h e d =
      let p = d.element a e in
      Laid-Stages l h a _ _ _ d (element-Stages s a h e d)
        (λ c. Shapes-vector _ _ p.1.0 c.0 p.1.1 c.1)

  Laid-object :
      (o : Option ℕ) (act : ℕ → Heap → Outcome Bool × Heap) (w : World)
      → Laid l w.heap
      → ((a : ℕ) → o ≡ some a → Laid l (act a w.heap).1)
      → Laid l (on_object o act w).1.heap
  Laid-object none act w d h = d
  Laid-object (some a) act w d h = rw (verdict-heap w.files (act a w.heap)) (h a refl)

  Laid-other : (op : Op) (w : World) → Laid l w.heap → Laid l (m.other op w).1.heap
  Laid-other op w d =
      Laid-Shapes l w.heap (m.other op w).1.heap d (q.valid op w d.valid) (q.roots op w)
        (λ a c. Shapes-same _ _ (q.same op w a (root a c)))

  pub step-Laid : (op : Op) (w : World) → Fits op → Laid l w.heap → Laid l (step m l op w).1.heap
  step-Laid (set_string v mark s) w f d =
      Laid-object (l.object_of v) (set_text m.collector mark s) w d
        (λ a e. Laid-text v mark s a w.heap f e d)
  step-Laid (set_raw_element v s) w f d =
      Laid-object (l.object_of v) (λ a. stage_encoding_input m.collector a s) w d
        (λ a e. Laid-element s a w.heap (ap l.object_of (sym f) ∙ e) d)
  step-Laid (set_raw_arg i s) w f d =
      Laid-object (l.call_of i) (λ a. fuzz_set_raw_arg m.collector a s) w d
        (λ a e. Laid-argument i s a w.heap e d)
  step-Laid (write_scratch s) w f d = d
  step-Laid (set_element v mark s) w f d = Laid-other (set_element v mark s) w d
  step-Laid (set_lines ls) w f d = Laid-other (set_lines ls) w d
  step-Laid (set_integer v n) w f d = Laid-other (set_integer v n) w d
  step-Laid (eval_silent i) w f d = Laid-other (eval_silent i) w d
  step-Laid (eval_toplevel i) w f d = Laid-other (eval_toplevel i) w d
  step-Laid (eval_try i) w f d = Laid-other (eval_try i) w d
  step-Laid serialize_null w f d = Laid-other serialize_null w d
  step-Laid (set_serialized_arg i) w f d = Laid-other (set_serialized_arg i) w d
  step-Laid (make_scratch_file s) w f d = Laid-other (make_scratch_file s) w d
  step-Laid make_scratch_dir w f d = Laid-other make_scratch_dir w d
  step-Laid (set_flag i) w f d = Laid-other (set_flag i) w d
  step-Laid sink w f d = Laid-other sink w d
  step-Laid collect w f d = Laid-other collect w d
  step-Laid parse_vector w f d = Laid-other parse_vector w d
  step-Laid (run_io i s) w f d = Laid-other (run_io i s) w d
  step-Laid (set_locale b) w f d = Laid-other (set_locale b) w d

  pub replay-Laid :
      (t : Trace) (w : World) → All Fits t → Laid l w.heap → Laid l (replay m l t w).heap
  unfolding replay
  replay-Laid [] w f d = d
  replay-Laid (op ∷ t) w f d = replay-Laid t (step m l op w).1 f.1 (step-Laid op w f.0 d)
