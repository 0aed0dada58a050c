-- ===== src/Common/Driver/Wraps.antt =====
-- What the wrapping of the alarm in harnesses/common.h leaves behind, whatever fails.
use mathlib.Core.Path.{subst}
use r_oss_fuzz.Base.{
  arith, refl, sym, ap, ◌∙◌, ◌≡◌, ◌⊎◌, Bool, true, false, none, some, List, [], ◌∷◌, if◌then◌else◌,
}
use r_oss_fuzz.Common.Driver.{
  Action, sig_dfl, alarm_handler, dump_handler, takes_info, Signals, Results, fuzz_alarm_wrap,
  wrap_all,
}

-- Both handlers are in place, with the one of libFuzzer behind them; or neither is; or the one of the dump
-- signal alone, where the call that is to take it away fails as well.
abbrev pub IsWrapped : Results → Action → Signals → Type 0
IsWrapped r h s =
    ((s.on_alarm ≡ alarm_handler)
      × (s.on_dump ≡ dump_handler)
      × (s.chain ≡ some h)
      × (takes_info h ≡ true))
    ⊎ (((s.on_alarm ≡ h) × (s.on_dump ≡ sig_dfl))
        ⊎ ((s.on_alarm ≡ h)
            × (s.on_dump ≡ dump_handler)
            × (r.wraps ≡ false)
            × (r.restores ≡ false)))

abbrev pub before_wrap : Action → Signals
before_wrap h = record { wrapped = false; chain = none; on_alarm = h; on_dump = sig_dfl }

if-true {ℓ} : {A : Type ℓ} (b : Bool) (x y : A) → b ≡ true → (if b then x else y) ≡ x
if-true true x y e = refl
if-true false x y e = ground arith

wrap-again : (r : Results) (s : Signals) → s.wrapped ≡ true → fuzz_alarm_wrap r s ≡ s
unfolding fuzz_alarm_wrap
wrap-again r s e = if-true s.wrapped s _ e

wrapped-stays : (rs : List Results) (s : Signals) → s.wrapped ≡ true → wrap_all rs s ≡ s
unfolding wrap_all
wrapped-stays [] s e = refl
wrapped-stays (r ∷ rs) s e = ap (wrap_all rs) (wrap-again r s e) ∙ wrapped-stays rs s e

wrap-once :
    (r : Results) (h : Action)
    → ((fuzz_alarm_wrap r (before_wrap h)).wrapped ≡ true)
      × IsWrapped r h (fuzz_alarm_wrap r (before_wrap h))
unfolding fuzz_alarm_wrap
wrap-once r h = ground arith

-- For an action h of SIGALRM that libFuzzer has left, and the default action of the dump signal: after
-- any number of inputs, and whatever calls of `sigaction` fail, either both handlers are in place and
-- the alarm goes on to h, which takes the information that they pass, or SIGALRM still has h and the
-- dump signal its default action, unless the call that puts that back fails too. The later calls change
-- nothing.
pub wrap_all-IsWrapped :
    (h : Action) (r : Results) (rs : List Results)
    → IsWrapped r h (wrap_all (r ∷ rs) (before_wrap h))
      × (wrap_all (r ∷ rs) (before_wrap h) ≡ fuzz_alarm_wrap r (before_wrap h))
unfolding wrap_all
wrap_all-IsWrapped h r rs =
    let w = wrap-once r h in
    let e = wrapped-stays rs (fuzz_alarm_wrap r (before_wrap h)) w.0 in
    (subst (IsWrapped r h) (sym e) w.1, e)
