-- ===== src/Targets/World/Ran.antt =====
-- How a target that stages and then evaluates leaves its trace and the world of R's objects and files.
use r_oss_fuzz.Base.{
  ℕ, List, [], ◌∷◌, ◌++◌, Bytes, All, All-append, All-append_left, ◌≡◌, ◌⊎◌, refl, sym, ap, ◌∙◌,
  inl, inr,
}
use mathlib.Core.List.{append_assoc, append-nil}
use r_oss_fuzz.Host.{
  Vec, x_list, Mark, Op, set_string, set_raw_element, set_raw_arg, write_scratch, Trace,
}
use r_oss_fuzz.Host.Session.{session, Succeed, Stopped, session-cases}
use r_oss_fuzz.Common.Objects.{Keeps}
use r_oss_fuzz.Common.Scratch.Laws.{IsClib}
use r_oss_fuzz.Targets.World.{World, Layout, Machine, step, replay, host, Fits, IsText, Laid, Quiet}
use r_oss_fuzz.Targets.World.Laws.{step-Laid, replay-Laid}
use r_oss_fuzz.Targets.World.Holds.{
  Held, replay-append, text-Held, element-Held, argument-Held, file-Held, file_stays,
}

module _ (m : Machine) (l : Layout) where
  abbrev pub AllHeld : World → List Op → Type 0
  AllHeld w ops = All (λ op. Held l op w) ops

  -- How a target that is to stage `ops` and then evaluate leaves a trace `t`: it stopped on the way and
  -- evaluated nothing, or all of `ops` is in place when the call is evaluated.
  pub record Ran (w : World) (t : Trace) (ops : List Op) (evaluation : Op) (t' : Trace)
      : Type 0 where
    pub fits : All Fits t'
    pub ended :
        ((done : List Op) × (later : List Op) × (ops ≡ done ++ later) × (t' ≡ t ++ done))
        ⊎ ((t' ≡ t ++ ops ++ evaluation ∷ []) × AllHeld (replay m l (t ++ ops) w) ops)

  Stopped-Ran :
      (w : World) (t : Trace) (ops : List Op) (evaluation : Op) (t' : Trace)
      → All Fits t
      → All Fits ops
      → Stopped (host m l w) t ops t'
      → Ran w t ops evaluation t'
  Stopped-Ran w t ops evaluation t' f g s =
      let shape : ops ≡ (s.staged ++ s.failed ∷ []) ++ s.rest =
        s.splits ∙ sym (append_assoc s.staged (s.failed ∷ []) s.rest) in
      let trace : t' ≡ t ++ (s.staged ++ s.failed ∷ []) =
        s.result_is ∙ append_assoc t s.staged (s.failed ∷ []) in
      let done = All-append_left Fits (s.staged ++ s.failed ∷ []) s.rest (rw shape at g) in
      record {
        fits = rw trace (All-append Fits t (s.staged ++ s.failed ∷ []) f done);
        ended = inl (s.staged ++ s.failed ∷ [], s.rest, shape, trace);
      }

  pub session-Ran :
      (w : World) (t : Trace) (ops : List Op) (evaluation : Op)
      → All Fits t
      → All Fits ops
      → Fits evaluation
      → (Succeed (host m l w) t ops → AllHeld (replay m l (t ++ ops) w) ops)
      → Ran w t ops evaluation (session (host m l w) ops (evaluation ∷ []) t)
  session-Ran w t ops evaluation f g e held =
      elim (session-cases (host m l w) ops (evaluation ∷ []) t) [
        | inl (good, same) ↦ record {
          fits =
              rw same
                (All-append Fits (t ++ ops) (evaluation ∷ []) (All-append Fits t ops f g) (e, tt));
          ended = inr (same, held good);
        }
        | inr stopped ↦ Stopped-Ran w t ops evaluation _ f g stopped
      ]

  pub idle_Ran :
      (w : World) (t : Trace) (ops : List Op) (evaluation : Op)
      → All Fits t
      → Ran w t ops evaluation t
  idle_Ran w t ops evaluation f = record {
    fits = f;
    ended = inl ([], ops, refl, sym (append-nil t));
  }

  module _ (k : Keeps m.collector) (q : Quiet m) (c : IsClib m.clib) (w : World) (t : Trace)
      (d : Laid l w.heap) (f : All Fits t) where
    Laid-then : Laid l (replay m l t w).heap
    Laid-then = replay-Laid m l k q t w f d

    pub text_held :
        (v : Vec) (mark : Mark) (s : Bytes)
        → IsText v
        → Succeed (host m l w) t (set_string v mark s ∷ [])
        → AllHeld (replay m l (t ++ set_string v mark s ∷ []) w) (set_string v mark s ∷ [])
    unfolding host replay
    text_held v mark s x g = (
      rw (replay-append m l t (set_string v mark s ∷ []) w)
          (text-Held m l k q c v mark s (replay m l t w) x Laid-then g.0),
      tt,
    )

    pub element_held :
        (s : Bytes)
        → Succeed (host m l w) t (set_raw_element x_list s ∷ [])
        → AllHeld
            (replay m l (t ++ set_raw_element x_list s ∷ []) w)
            (set_raw_element x_list s ∷ [])
    unfolding host replay
    element_held s g = (
      rw (replay-append m l t (set_raw_element x_list s ∷ []) w)
          (element-Held m l k q c s (replay m l t w) Laid-then g.0),
      tt,
    )

    pub argument_held :
        (i : ℕ) (s : Bytes)
        → Succeed (host m l w) t (set_raw_arg i s ∷ [])
        → AllHeld (replay m l (t ++ set_raw_arg i s ∷ []) w) (set_raw_arg i s ∷ [])
    unfolding host replay
    argument_held i s g = (
      rw (replay-append m l t (set_raw_arg i s ∷ []) w)
          (argument-Held m l k q c i s (replay m l t w) Laid-then g.0),
      tt,
    )

    pub file_held :
        (s : Bytes)
        → Succeed (host m l w) t (write_scratch s ∷ [])
        → AllHeld (replay m l (t ++ write_scratch s ∷ []) w) (write_scratch s ∷ [])
    unfolding host replay
    file_held s g = (
      rw (replay-append m l t (write_scratch s ∷ []) w)
          (file-Held m l k q c s (replay m l t w) g.0),
      tt,
    )

    pub both_held :
        (s : Bytes) (i : ℕ) (p : Bytes)
        → Succeed (host m l w) t (write_scratch s ∷ set_raw_arg i p ∷ [])
        → AllHeld
            (replay m l (t ++ write_scratch s ∷ set_raw_arg i p ∷ []) w)
            (write_scratch s ∷ set_raw_arg i p ∷ [])
    unfolding host replay
    both_held s i p g =
        let w₁ = (step m l (write_scratch s) (replay m l t w)).1 in
        let e = replay-append m l t (write_scratch s ∷ []) w in
        let d₁ = step-Laid m l k q (write_scratch s) (replay m l t w) tt Laid-then in
        rw (replay-append m l t (write_scratch s ∷ set_raw_arg i p ∷ []) w) (
          file_stays m l k q c s i p w₁ (file-Held m l k q c s (replay m l t w) g.0),
          (
            argument-Held m l k q c i p w₁ d₁
                (sym (ap (λ x. (step m l (set_raw_arg i p) x).0) e) ∙ g.1.0),
            tt,
          ),
        )
