-- ===== src/Host/Session.antt =====
-- The order that every target keeps: stage the input, piece by piece, and evaluate only when all of
-- it is in place.
use r_oss_fuzz.Base.{
  true, false, List, [], ◌∷◌, ◌++◌, ◌≡◌, ◌⊎◌, inl, inr, refl, sym, ap, ◌∙◌, if◌then◌else◌,
  Bool-cases,
}
use mathlib.Core.List.{append_assoc, append-nil}
use r_oss_fuzz.Host.{Op, Trace, Host}

unfoldable pub session : Host → List Op → List Op → Trace → Trace
session h [] evals t = t ++ evals
session h (op ∷ ops) evals t =
    let rest = session h ops evals (t ++ op ∷ []) in if h t op then rest else t ++ op ∷ []

-- Each of the operations succeeded where it was done.
abbrev pub Succeed : Host → Trace → List Op → Type 0
Succeed h t [] = Unit
Succeed h t (op ∷ ops) = (h t op ≡ true) × Succeed h (t ++ op ∷ []) ops

-- A session either staged everything with success and then evaluated, or it stopped at the first
-- operation that failed, and evaluated nothing.
pub record Stopped (h : Host) (t : Trace) (ops : List Op) (result : Trace) : Type 0 where
  pub staged : List Op
  pub failed : Op
  pub rest : List Op
  pub splits : ops ≡ staged ++ failed ∷ rest
  pub succeeded : Succeed h t staged
  pub fails : h (t ++ staged) failed ≡ false
  pub result_is : result ≡ t ++ staged ++ failed ∷ []

Stopped-cons :
    (h : Host) (t : Trace) (op : Op) (ops : List Op) (result later : Trace)
    → h t op ≡ true
    → result ≡ later
    → Stopped h (t ++ op ∷ []) ops later
    → Stopped h t (op ∷ ops) result
Stopped-cons h t op ops result later e same s = record {
  staged = op ∷ s.staged;
  failed = s.failed;
  rest = s.rest;
  splits = ap (λ l. op ∷ l) s.splits;
  succeeded = (e, s.succeeded);
  fails = rw append_assoc at s.fails;
  result_is = same ∙ s.result_is ∙ ap (λ l. l ++ s.failed ∷ []) (append_assoc t (op ∷ []) s.staged);
}

session-good :
    (h : Host) (op : Op) (ops evals : List Op) (t : Trace)
    → h t op ≡ true
    → session h (op ∷ ops) evals t ≡ session h ops evals (t ++ op ∷ [])
unfolding session
session-good h op ops evals t e = rw e refl

session-bad :
    (h : Host) (op : Op) (ops evals : List Op) (t : Trace)
    → h t op ≡ false
    → session h (op ∷ ops) evals t ≡ t ++ op ∷ []
unfolding session
session-bad h op ops evals t e = rw e refl

pub session-cases :
    (h : Host) (ops evals : List Op) (t : Trace)
    → (Succeed h t ops × (session h ops evals t ≡ t ++ ops ++ evals))
      ⊎ Stopped h t ops (session h ops evals t)
unfolding session
session-cases h [] evals t = inl (tt, ap (λ l. l ++ evals) (sym (append-nil t)))
session-cases h (op ∷ ops) evals t = elim (Bool-cases (h t op)) [
  | inl good ↦
      let same = session-good h op ops evals t good in
      elim (session-cases h ops evals (t ++ op ∷ [])) [
        | inl (all, e) ↦
            inl ((good, all), same ∙ e ∙ ap (λ l. l ++ evals) (append_assoc t (op ∷ []) ops))
        | inr stopped ↦ inr (Stopped-cons h t op ops _ _ good same stopped)
      ]
  | inr bad ↦ inr (record {
    staged = [];
    failed = op;
    rest = ops;
    splits = refl;
    succeeded = tt;
    fails = ap (λ l. h l op) (append-nil t) ∙ bad;
    result_is = session-bad h op ops evals t bad ∙ ap (λ l. l ++ op ∷ []) (sym (append-nil t));
  })
]
