-- ===== src/Targets/Datetime/Process.antt =====
-- The process of harnesses/datetime.c, step by step: `ctype_is_utf8` keeps track of the locale.
use r_oss_fuzz.Base.{
  codes, ℕ, zero, suc, ◌+◌, ◌*◌, ◌%◌, ◌≤◌, ◌<◌, Bool, false, ◌&&◌, Option, none, some, List, [],
  ◌∷◌, ◌++◌, Bytes, length, leb, ◌≡◌, lt→ltb, le→ltb, refl, ◌∙◌, arith, Bool-cases, inl, inr,
}
use r_oss_fuzz.Host.{
  x_str, fmt_str, native, set_string, set_element, eval_toplevel, eval_try, set_locale, Host, Trace,
  has_byte,
}
use r_oss_fuzz.Host.Buffers.{accepts, accepts-bounds}
use r_oss_fuzz.Targets.Datetime.{
  first_utf8_call, is_current, set_ctype, warm_up, init, fields, eval_in_locale, stage_and_eval,
  run, run_all, process, calls, n_calls, default_format,
}
use r_oss_fuzz.Targets.Datetime.Locale.{Sound, Sound-append, is_current-eq}

-- A step that returns, and keeps it so.
abbrev pub Keeps : Bool → Option (Option Bool × Trace) → Type 0
Keeps available r =
    (ctype : Option Bool) × (t : Trace) × (r ≡ some (ctype, t)) × Sound available ctype t

module _ (available : Bool) where
  set_ctype-Sound :
      (ctype : Option Bool) (want : Bool) (t : Trace)
      → Sound available ctype t
      → (t' : Trace) × (set_ctype available ctype want t ≡ some (some (available && want), t'))
        × Sound available (some (available && want)) t'
  unfolding set_ctype
  set_ctype-Sound ctype want t s = elim (Bool-cases (is_current (available && want) ctype)) [
    | inl same ↦
        let e = is_current-eq (available && want) ctype same in
        (t, ground (arith, same, e), rw (← e) s)
    | inr other ↦ (
      t ++ set_locale (available && want) ∷ [],
      ground (arith, other),
      Sound-append available ctype t (set_locale (available && want) ∷ []) s (tt, tt),
    )
  ]

  eval_in_locale-Sound :
      (ctype : Option Bool) (i : ℕ) (t : Trace)
      → Sound available ctype t
      → Keeps available (eval_in_locale available ctype i t)
  unfolding eval_in_locale
  eval_in_locale-Sound ctype i t s =
      let w = set_ctype-Sound ctype (leb first_utf8_call i) t s in
      (
        some (available && leb first_utf8_call i),
        w.0 ++ eval_toplevel i ∷ [],
        rw (w.1, eval_in_locale) refl,
        Sound-append available (some (available && leb first_utf8_call i)) w.0
            (eval_toplevel i ∷ []) w.2 (refl, tt),
      )

  warm_up-Sound :
      (n : ℕ) (ctype : Option Bool) (t : Trace)
      → Sound available ctype t
      → Keeps available (warm_up available n ctype t)
  unfolding warm_up
  warm_up-Sound zero ctype t s = (ctype, t, refl, s)
  warm_up-Sound (suc n) ctype t s =
      let before = warm_up-Sound n ctype t s in
      let w = set_ctype-Sound before.0 (leb first_utf8_call n) before.1 before.3 in
      (
        some (available && leb first_utf8_call n),
        w.0 ++ eval_try n ∷ [],
        rw (before.2, w.1) refl,
        Sound-append available (some (available && leb first_utf8_call n)) w.0 (eval_try n ∷ []) w.2
            (refl, tt),
      )

  stage_and_eval-Sound :
      (h : Host) (ctype : Option Bool) (i : ℕ) (value fmt : Bytes) (t : Trace)
      → Sound available ctype t
      → Keeps available (stage_and_eval available h ctype i value fmt t)
  unfolding stage_and_eval
  stage_and_eval-Sound h ctype i value fmt t s =
      let t₂ = t ++ set_string x_str native value ∷ [] in
      let t₃ = t₂ ++ set_string fmt_str native fmt ∷ [] in
      let s₂ = Sound-append available ctype t (set_string x_str native value ∷ []) s (tt, tt) in
      let s₃ = Sound-append available ctype t₂ (set_string fmt_str native fmt ∷ []) s₂ (tt, tt) in
      elim (Bool-cases (h t (set_string x_str native value))) [
        | inr bad ↦ (ctype, t₂, rw (bad, stage_and_eval) refl, s₂)
        | inl good ↦ elim (Bool-cases (h t₂ (set_string fmt_str native fmt))) [
          | inr bad ↦ (ctype, t₃, rw (good, bad, stage_and_eval) refl, s₃)
          | inl good₂ ↦
              let e = eval_in_locale-Sound ctype i t₃ s₃ in
              (e.0, e.1, rw (good, good₂, stage_and_eval) e.2, e.3)
        ]
      ]

  run-accepted :
      (h : Host) (ctype : Option Bool) (b : ℕ) (p : Bytes) (t : Trace)
      → has_byte 0 p ≡ false
      → 1 ≤ length p
      → length p < 1024 * 64
      → run available h ctype (b ∷ p) t
        ≡ stage_and_eval available h ctype
            (b % 17)
            (fields (b % 17) p (p ++ 0 ∷ [])).0
            (fields (b % 17) p (p ++ 0 ∷ [])).1
            t
  unfolding run
  run-accepted h ctype b p t text lo hi =
      rw
        (
          le→ltb (suc (length p)) 2 (omega arith),
          le→ltb (1024 * 64) (suc (length p)) (omega arith),
          text,
          lt→ltb (length p) (1024 * 64 + 1) (omega arith),
          run,
        )
        refl

  run-other :
      (h : Host) (ctype : Option Bool) (b : ℕ) (p : Bytes) (t : Trace)
      → accepts (1024 * 64) (b ∷ p) ≡ false
      → run available h ctype (b ∷ p) t ≡ some (ctype, t)
  unfolding run
  run-other h ctype b p t e = elim (Bool-cases (has_byte 0 p)) [
    | inl nul ↦ ground arith
    | inr text ↦ ground arith
  ]

  run-Sound :
      (h : Host) (ctype : Option Bool) (input : Bytes) (t : Trace)
      → Sound available ctype t
      → Keeps available (run available h ctype input t)
  unfolding run
  run-Sound h ctype [] t s = (ctype, t, refl, s)
  run-Sound h ctype (b ∷ p) t s = elim (Bool-cases (accepts (1024 * 64) (b ∷ p))) [
    | inr other ↦ (ctype, t, run-other h ctype b p t other, s)
    | inl good ↦
        let w = accepts-bounds (1024 * 64) b p good in
        let e =
          stage_and_eval-Sound h ctype (b % 17) (fields (b % 17) p (p ++ 0 ∷ [])).0
            (fields (b % 17) p (p ++ 0 ∷ [])).1 t s in
        (e.0, e.1, run-accepted h ctype b p t w.0 w.1 w.2 ∙ e.2, e.3)
  ]

  run_all-Sound :
      (h : Host) (ctype : Option Bool) (inputs : List Bytes) (t : Trace)
      → Sound available ctype t
      → Keeps available (run_all available h ctype inputs t)
  unfolding run_all
  run_all-Sound h ctype [] t s = (ctype, t, refl, s)
  run_all-Sound h ctype (input ∷ inputs) t s =
      let first = run-Sound h ctype input t s in
      let rest = run_all-Sound h first.0 inputs first.1 first.3 in
      (rest.0, rest.1, rw (first.2, run_all) rest.2, rest.3)

  init-Sound : Keeps available (init available [])
  unfolding init calls
  init-Sound = warm_up-Sound n_calls none _ (
      Sound-append available none []
        (set_element x_str native (codes "2024-01-15 12:30:00")
          ∷ set_element fmt_str native default_format
          ∷ [])
        (record { tracks = refl; suited = tt }) (tt, (tt, tt)))

  -- For every list of inputs and every behaviour of R, in a runner with or without a UTF-8 locale: the
  -- process never overruns its buffer, and whenever it evaluates a call, the last switch of LC_CTYPE was
  -- to UTF-8 if the slot is 15 or 16 and there is such a locale, and to C otherwise. What `ctype_is_utf8`
  -- says at the end is the last switch.
  pub process-Sound :
      (h : Host) (inputs : List Bytes) → Keeps available (process available h inputs [])
  unfolding process
  process-Sound h inputs =
      let start = init-Sound in
      let rest = run_all-Sound h start.0 inputs start.1 start.3 in
      (rest.0, rest.1, rw (start.2, process) rest.2, rest.3)
