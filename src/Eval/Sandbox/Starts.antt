-- ===== src/Eval/Sandbox/Starts.antt =====
-- When the set-up of harnesses/eval.c stops the process, and when it does not.
use r_oss_fuzz.Base.{
  some-eq, bind-some, arith, refl, sym, ap, ◌∙◌, ◌≡◌, Bool, true, false, ◌||◌, Option, none, some,
  List, [], ◌∷◌, map, Bytes, codes, ◌>>=◌, if◌then◌else◌, inl, inr, ◌⊎◌, ◌≢◌,
}
use r_oss_fuzz.Host.Call.{same_text_refl, same_text}
use r_oss_fuzz.Eval.Sandbox.{
  eval_primitives, eval_wrapper_primitives, eval_colon_source, eval_compiler_setup, Frame, Rbase,
  new_env, lock_environment, define_var, eval_primitive, eval_import_primitives, eval_run_init,
  Setup, build,
}
use r_oss_fuzz.Eval.Sandbox.Laws.{define_var-facts, listed, Closed, build-Closed}

open_frame {ℓ} : {A : Type ℓ} (b : Bool) (a : A) → b ≡ false → (if b then none else some a) ≢ none
open_frame true a u e = ground arith
open_frame false a u e = ground arith

locked-define {ℓ} :
    {V : Type ℓ} (name : Bytes) (v : V) (f : Frame V)
    → f.locked ≡ false
    → define_var name v f ≢ none
locked-define name v f u e = open_frame f.locked _ u e

bind-cases {ℓ κ μ} :
    {A : Type ℓ} {B : Type κ} {F : Type μ} (o : Option A) (f : A → Option B)
    → (o ≡ none → F)
    → ((a : A) → o ≡ some a → F ⊎ ((b : B) × (f a ≡ some b)))
    → F ⊎ ((b : B) × ((o >>= f) ≡ some b))
bind-cases none f h k = inl (h refl)
bind-cases (some a) f h k = k a refl

or-middle : (a b c : Bool) → b ≡ true → (a || b || c) ≡ true
or-middle a b c e = ground arith

module _ (r : Rbase) where
  -- The name is one that the set-up looks up.
  abbrev wanted : Bytes → Bool
  wanted name =
      listed name (map codes eval_primitives)
      || listed name (map codes eval_wrapper_primitives)
      || same_text name (codes ":")

  -- A name has no primitive; or the source of the wrapper fails in the very enclosure that the set-up
  -- makes for it; or that of the compiler fails.
  pub data Fails : Type 0 where
    lacks : (name : Bytes) → wanted name ≡ true → eval_primitive r name ≡ none → Fails
    no_colon :
        (private_env full : Frame r.Value) (raw_colon : r.Value)
        → eval_import_primitives r (map codes eval_wrapper_primitives) new_env ≡ some private_env
        → eval_primitive r (codes ":") ≡ some raw_colon
        → define_var (codes ".colon") raw_colon private_env ≡ some full
        → eval_run_init r eval_colon_source (some (lock_environment full ∷ [])) ≡ none
        → Fails
    no_compiler : eval_run_init r eval_compiler_setup none ≡ none → Fails

  import-locked :
      (names : List Bytes) (env filled : Frame r.Value)
      → eval_import_primitives r names env ≡ some filled
      → filled.locked ≡ env.locked
  unfolding eval_import_primitives
  import-locked [] env filled e = ap (λ f. f.locked) (sym (some-eq env filled e))
  import-locked (n ∷ l) env filled e =
      let x = bind-some (eval_primitive r n) _ filled e in
      let y = bind-some (define_var n x.0 env) _ filled x.2 in
      import-locked l y.0 filled y.2 ∙ ap (λ f. f.locked) (define_var-facts n x.0 env y.0 y.1)

  abbrev Lacks : List Bytes → Type 0
  Lacks names = (name : Bytes) × (listed name names ≡ true) × (eval_primitive r name ≡ none)

  import-cases :
      (names : List Bytes) (env : Frame r.Value)
      → env.locked ≡ false
      → Lacks names
        ⊎ ((filled : Frame r.Value) × (eval_import_primitives r names env ≡ some filled))
  unfolding eval_import_primitives listed
  import-cases [] env u = inr (env, refl)
  import-cases (n ∷ l) env u =
      bind-cases (eval_primitive r n) _ (λ h. (n, let t = same_text_refl n in ground arith, h))
        (λ v h.
          bind-cases (define_var n v env) _ (λ k. absurd (locked-define n v env u k))
            (λ next k.
              elim (import-cases l next
                (ap (λ f. f.locked) (define_var-facts n v env next k) ∙ u)) [
                  | inl i ↦ inl (i.0, let t = i.1 in ground arith, i.2)
                  | inr i ↦ inr i
                ]))

  imports :
      (names : List Bytes) (env : Frame r.Value)
      → env.locked ≡ false
      → ((name : Bytes) → listed name names ≡ true → wanted name ≡ true)
      → (eval_import_primitives r names env ≡ none)
      → Fails
  imports names env u w e = elim (import-cases names env u) [
    | inl i ↦ lacks i.0 (w i.0 i.1) i.2
    | inr i ↦ absurd (let k = sym e ∙ i.1 in ground arith)
  ]

  wanted-colon : wanted (codes ":") ≡ true
  unfolding listed same_text
  wanted-colon = refl

  wanted-allowed :
      (name : Bytes) → listed name (map codes eval_primitives) ≡ true → wanted name ≡ true
  wanted-allowed name e =
      ap (λ b. b || listed name (map codes eval_wrapper_primitives) || same_text name (codes ":")) e

  wanted-guarded :
      (name : Bytes) → listed name (map codes eval_wrapper_primitives) ≡ true → wanted name ≡ true
  wanted-guarded name =
      or-middle (listed name (map codes eval_primitives))
        (listed name (map codes eval_wrapper_primitives)) (same_text name (codes ":"))

  starts : Fails ⊎ ((s : Setup r) × (build r ≡ some s))
  unfolding build
  starts =
      bind-cases
        (eval_import_primitives r (map codes eval_primitives)
          (record new_env { label = some "package:base" }))
        _ (imports (map codes eval_primitives) _ refl wanted-allowed)
        (λ filled a.
          bind-cases (eval_import_primitives r (map codes eval_wrapper_primitives) new_env) _
            (imports (map codes eval_wrapper_primitives) _ refl wanted-guarded)
            (λ private_env b.
              bind-cases (eval_primitive r (codes ":")) _ (lacks (codes ":") wanted-colon)
                (λ raw_colon c.
                  bind-cases (define_var (codes ".colon") raw_colon private_env) _
                    (λ h. absurd (
                      locked-define (codes ".colon") raw_colon private_env
                        (import-locked (map codes eval_wrapper_primitives) new_env private_env b)
                        h))
                    (λ full d.
                      bind-cases
                        (eval_run_init r eval_colon_source (some (lock_environment full ∷ []))) _
                        (no_colon private_env full raw_colon b c d)
                        (λ colon f.
                          bind-cases (eval_run_init r eval_compiler_setup none) _ no_compiler
                            (λ compile_fn g. inr (_, refl)))))))

pub build-cases : (r : Rbase) → Fails r ⊎ ((s : Setup r) × (build r ≡ some s) × Closed r s)
build-cases r = elim (starts r) [ inl f ↦ inl f | inr i ↦ inr (i.0, i.1, build-Closed r i.0 i.1) ]
