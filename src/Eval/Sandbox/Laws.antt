-- ===== src/Eval/Sandbox/Laws.antt =====
-- What an input of harnesses/eval.c finds in its environment.
use mathlib.Core.Path.{subst}
use r_oss_fuzz.Base.{
  some-eq, bind-some, arith, refl, sym, ap, ◌∙◌, ◌≡◌, Bool, true, false, ◌||◌, Option, none, some,
  List, [], ◌∷◌, map, Bytes, codes, if◌then◌else◌,
}
use r_oss_fuzz.Host.Call.{same_text, same_text-eq}
use r_oss_fuzz.Eval.Sandbox.{
  eval_primitives, eval_wrapper_primitives, eval_colon_source, eval_compiler_setup, Frame, Rbase,
  find_var, lookup, new_env, lock_environment, define_var, eval_primitive, eval_import_primitives,
  eval_run_init, Setup, build, input_env,
}

-- The name is one of a table.
unfoldable pub listed : Bytes → List Bytes → Bool
listed name [] = false
listed name (n ∷ l) = same_text name n || listed name l

wait-some {ℓ} : {A : Type ℓ} (b : Bool) (a c : A) → (if b then none else some a) ≡ some c → c ≡ a
wait-some true a c e = ground arith
wait-some false a c e = sym (some-eq a c e)

pub define_var-facts {ℓ} :
    {V : Type ℓ} (name : Bytes) (v : V) (f g : Frame V)
    → define_var name v f ≡ some g
    → g ≡ record f { vars = (name, v) ∷ f.vars }
define_var-facts name v f g e = wait-some f.locked _ g e

later_or_here {ℓ} :
    {A : Type ℓ} (a b : Bool) (p q : Option A) (v : A)
    → (a ≡ true → p ≡ some v)
    → (if b then p else if a then some v else q) ≡ (if a || b then p else q)
later_or_here true true p q v h = refl
later_or_here true false p q v h = sym (h refl)
later_or_here false true p q v h = refl
later_or_here false false p q v h = refl

module _ (r : Rbase) where
  -- What a table of primitives leaves to the names outside of it.
  abbrev from_table : List Bytes → Bytes → Option r.Value → Option r.Value
  from_table names name rest = if listed name names then eval_primitive r name else rest

  import-find_var :
      (names : List Bytes) (env filled : Frame r.Value)
      → eval_import_primitives r names env ≡ some filled
      → (name : Bytes) → find_var name filled.vars ≡ from_table names name (find_var name env.vars)
  unfolding eval_import_primitives listed
  import-find_var [] env filled e name = ap (λ f. find_var name f.vars) (sym (some-eq env filled e))
  import-find_var (n ∷ l) env filled e name =
      let x = bind-some _ _ _ e in
      let y = bind-some _ _ _ x.2 in
      let i = import-find_var l y.0 filled y.2 name in
      let d = ap (λ f. find_var name f.vars) (define_var-facts n x.0 env y.0 y.1) in
      let h : same_text name n ≡ true → eval_primitive r name ≡ some x.0 =
        λ t. ap (eval_primitive r) (same_text-eq name n t) ∙ x.1 in
      i ∙ ap (from_table l name) d ∙ later_or_here (same_text name n) (listed name l) _ _ x.0 h

  -- The wrapper under `:`, the primitives of the allowlist, and nothing else.
  unfoldable pub allowed : r.Value → Bytes → Option r.Value
  unfolding eval_primitive listed
  allowed colon name =
      if same_text name (codes ":")
      then some colon
      else from_table (map codes eval_primitives) name none

  -- What the wrapper finds: the primitive under `.colon`, and those that its source names.
  unfoldable pub guarded : Bytes → Option r.Value
  unfolding eval_primitive listed
  guarded name =
      if same_text name (codes ".colon")
      then eval_primitive r (codes ":")
      else from_table (map codes eval_wrapper_primitives) name none

  -- Every name that an input looks up, every one that the wrapper does, and the locks on the frames.
  pub record Closed (s : Setup r) : Type 0 where
    pub colon : r.Value
    pub enclosure : Frame r.Value
    pub allows : (name : Bytes) → lookup name (input_env r s) ≡ allowed colon name
    pub guards : (name : Bytes) → lookup name (enclosure ∷ []) ≡ guarded name
    pub makes : eval_run_init r eval_colon_source (some (enclosure ∷ [])) ≡ some colon
    pub locks : (s.builtins.locked ≡ true) × (s.wrappers.locked ≡ true) × (enclosure.locked ≡ true)

  found-else {ℓ} :
      {V : Type ℓ} (b : Bool) (v : V) (o : Option V)
      → elim (if b then some v else none) [ none ↦ o | some w ↦ some w ] ≡ (if b then some v else o)
  found-else true v o = refl
  found-else false v o = refl

  found-last {ℓ} : {V : Type ℓ} (o : Option V) → elim o [ none ↦ none | some w ↦ some w ] ≡ o
  found-last none = refl
  found-last (some v) = refl

  -- The lookups in the frames as they are left.
  allowed-lookup :
      (filled wrappers : Frame r.Value) (colon : r.Value)
      → eval_import_primitives r
          (map codes eval_primitives)
          (record new_env { label = some "package:base" })
        ≡ some filled
      → define_var (codes ":") colon new_env ≡ some wrappers
      → (name : Bytes)
      → lookup name (new_env ∷ lock_environment wrappers ∷ lock_environment filled ∷ [])
        ≡ allowed colon name
  unfolding allowed
  allowed-lookup filled wrappers colon e w name =
      let i = import-find_var (map codes eval_primitives) _ filled e name in
      let d =
        ap (λ f. find_var name f.vars) (define_var-facts (codes ":") colon new_env wrappers w) in
      let rest : Option r.Value = elim (find_var name filled.vars) [
        | none ↦ none
        | some v ↦ some v
      ] in
      ap (λ o. elim o [ none ↦ rest | some v ↦ some v ]) d
      ∙ found-else (same_text name (codes ":")) colon rest
      ∙ ap (λ o. if same_text name (codes ":") then some colon else o) (found-last _ ∙ i)

  guarded-lookup :
      (private_env full : Frame r.Value) (raw_colon : r.Value)
      → eval_import_primitives r (map codes eval_wrapper_primitives) new_env ≡ some private_env
      → eval_primitive r (codes ":") ≡ some raw_colon
      → define_var (codes ".colon") raw_colon private_env ≡ some full
      → (name : Bytes) → lookup name (lock_environment full ∷ []) ≡ guarded name
  unfolding guarded
  guarded-lookup private_env full raw_colon e c w name =
      let i = import-find_var (map codes eval_wrapper_primitives) new_env private_env e name in
      let d =
        ap (λ f. find_var name f.vars)
          (define_var-facts (codes ".colon") raw_colon private_env full w) in
      found-last _
      ∙ d
      ∙ ap (λ o. if same_text name (codes ".colon") then some raw_colon else o) i
      ∙ ap
          (λ o.
            if same_text name (codes ".colon")
            then o
            else from_table (map codes eval_wrapper_primitives) name none)
          (sym c)

  pub build-Closed : (s : Setup r) → build r ≡ some s → Closed s
  unfolding build
  build-Closed s e =
      let a = bind-some _ _ _ e in
      let b = bind-some _ _ _ a.2 in
      let c = bind-some _ _ _ b.2 in
      let d = bind-some _ _ _ c.2 in
      let f = bind-some _ _ _ d.2 in
      let h = bind-some (eval_run_init r eval_compiler_setup none) _ s f.2 in
      subst Closed (some-eq _ s h.2) (record {
        colon = f.0;
        enclosure = lock_environment d.0;
        allows = allowed-lookup a.0 _ f.0 a.1 refl;
        guards = guarded-lookup b.0 d.0 c.0 b.1 c.1 d.1;
        makes = f.1;
        locks = (refl, refl, refl);
      })
