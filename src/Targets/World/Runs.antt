-- ===== src/Targets/World/Runs.antt =====
-- The targets that stage a text, a raw vector or a scratch file, run on the world of R's objects and
-- of files.
use r_oss_fuzz.Base.{
  ℕ, ◌%◌, get_elem?, true, false, some, [], ◌∷◌, ◌++◌, Bytes, All, drop, ◌≡◌, refl, arith,
  Bool-cases, inl, inr,
}
use r_oss_fuzz.Host.{
  x_str, x_utf8, x_latin1, native, utf8, latin1, has_byte, set_string, eval_silent, Trace, c_string,
}
use r_oss_fuzz.Host.Buffers.{accepts, accepts-bounds}
use r_oss_fuzz.Host.Session.{session, Succeed}
use r_oss_fuzz.Common.Objects.{Keeps}
use r_oss_fuzz.Common.Scratch.Laws.{IsClib}
use r_oss_fuzz.Targets.Raw
use r_oss_fuzz.Targets.Raw.{
  RawTarget, decompress, unserialize, connections, zip, load, raw_run-session, in_size,
}
use r_oss_fuzz.Targets.Text
use r_oss_fuzz.Targets.Text.{TextTarget, text_run-session}
use r_oss_fuzz.Targets.World.{World, Layout, Machine, replay, host, Fits, Laid, Quiet}
use r_oss_fuzz.Targets.World.Holds.{c_string-text}
use r_oss_fuzz.Targets.World.Ran.{
  AllHeld, Ran, session-Ran, idle_Ran, text_held, element_held, argument_held, file_held, both_held,
}
use r_oss_fuzz.Targets.Encoding
use r_oss_fuzz.Targets.Encoding.{Input, in_raw, in_str, in_utf8, in_latin1, inputs, is_raw}
use r_oss_fuzz.Targets.Encoding.Runs.{stage_of, admits, encoding_run-session}

accepted_text :
    (n : ℕ) (input : Bytes) → accepts n input ≡ true → c_string (drop 1 input) ≡ drop 1 input
accepted_text n [] e = absurd (ground arith)
accepted_text n (b ∷ p) e = c_string-text p (accepts-bounds n b p e).0

admitted_text :
    (kind : Input) (p : Bytes) → admits kind p ≡ true → is_raw kind ≡ false → c_string p ≡ p
admitted_text kind p e s = elim (Bool-cases (has_byte 0 p)) [
  | inl nul ↦ absurd (ground (arith, e, s, nul))
  | inr text ↦ c_string-text p text
]

module _ (m : Machine) (l : Layout) (k : Keeps m.collector) (q : Quiet m) (c : IsClib m.clib)
    (w : World) (t : Trace) (d : Laid l w.heap) (f : All Fits t) where
  raw_held :
      (r : RawTarget) (b : ℕ) (p : Bytes)
      → Succeed (host m l w) t (Raw.stages r b p)
      → AllHeld m l (replay m l (t ++ Raw.stages r b p) w) (Raw.stages r b p)
  raw_held decompress b p g = argument_held m l k q c w t d f (b % 4) p g
  raw_held unserialize b p g = argument_held m l k q c w t d f (Raw.last b p % 4) (b ∷ p) g
  raw_held connections b p g = both_held m l k q c w t d f p (b % 66) p g
  raw_held zip b p g = file_held m l k q c w t d f p g
  raw_held load b p g = file_held m l k q c w t d f p g

  stages-Fits : (r : RawTarget) (b : ℕ) (p : Bytes) → All Fits (Raw.stages r b p)
  stages-Fits decompress b p = (tt, tt)
  stages-Fits unserialize b p = (tt, tt)
  stages-Fits connections b p = (tt, (tt, tt))
  stages-Fits zip b p = (tt, tt)
  stages-Fits load b p = (tt, tt)

  evaluation-Fits : (r : RawTarget) (i : ℕ) → Fits (Raw.evaluation r i)
  evaluation-Fits decompress i = tt
  evaluation-Fits unserialize i = tt
  evaluation-Fits connections i = tt
  evaluation-Fits zip i = tt
  evaluation-Fits load i = tt

  -- For decompress, unserialize, connections, zip and load, where the memory manager keeps what is
  -- reachable, evaluations leave it alone, the C library writes what it says, and start-up has laid out
  -- the calls, for any trace so far and every input of a byte or more: the target ends; and unless it
  -- stopped on the way and evaluated nothing, the payload is in the argument of the call and in the
  -- scratch file, as far as the target uses them, when the call is evaluated.
  pub raw_run-Ran :
      (r : RawTarget) (b : ℕ) (p : Bytes)
      → (t' : Trace) × (Raw.run r (host m l w) (b ∷ p) t ≡ some (tt, t'))
        × Ran m l w t (Raw.stages r b p) (Raw.evaluation r (Raw.selector r b p)) t'
        × (in_size (b ∷ p) ≡ false → t' ≡ t)
  raw_run-Ran r b p =
      let e = raw_run-session r (host m l w) b p t in
      elim (Bool-cases (in_size (b ∷ p))) [
        | inr outside ↦ (
          t,
          rw outside at e,
          idle_Ran m l w t (Raw.stages r b p) (Raw.evaluation r (Raw.selector r b p)) f,
          λ _. refl,
        )
        | inl inside ↦ (
          session (host m l w) (Raw.stages r b p) (Raw.evaluation r (Raw.selector r b p) ∷ []) t,
          rw inside at e,
          session-Ran m l w t (Raw.stages r b p) (Raw.evaluation r (Raw.selector r b p)) f
              (stages-Fits r b p) (evaluation-Fits r (Raw.selector r b p)) (raw_held r b p),
          λ o. absurd (ground (arith, inside, o)),
        )
      ]

  -- For colors, scan, readtable, sprintf, rd and dcf, on a world of R objects and files where the
  -- memory manager keeps what is reachable, evaluations leave that alone, the C library writes what
  -- it says, and start-up has laid out the objects and the calls, for any trace so far and every
  -- input: the target ends; an input that is not accepted does nothing; and unless it stopped on
  -- the way and evaluated nothing, the text object holds the whole payload when the call is
  -- evaluated.
  pub text_run-Ran :
      (r : TextTarget) (input : Bytes)
      → (t' : Trace) × (Text.run r (host m l w) input t ≡ some (tt, t'))
        × Ran m l w t
            (set_string x_str native (drop 1 input) ∷ [])
            (eval_silent (Text.selector input % Text.n_calls r))
            t'
        × (accepts (Text.max_input r) input ≡ false → t' ≡ t)
        × (accepts (Text.max_input r) input ≡ true → c_string (drop 1 input) ≡ drop 1 input)
  text_run-Ran r input =
      let e = text_run-session r (host m l w) input t in
      let ops = set_string x_str native (drop 1 input) ∷ [] in
      let i = Text.selector input % Text.n_calls r in
      elim (Bool-cases (accepts (Text.max_input r) input)) [
        | inr outside ↦ (
          t,
          rw outside at e,
          idle_Ran m l w t ops (eval_silent i) f,
          λ _. refl,
          λ o. absurd (ground (arith, outside, o)),
        )
        | inl inside ↦ (
          session (host m l w) ops (eval_silent i ∷ []) t,
          rw inside at e,
          session-Ran m l w t ops (eval_silent i) f (tt, tt) tt
              (text_held m l k q c w t d f x_str native (drop 1 input) tt),
          λ o. absurd (ground (arith, inside, o)),
          accepted_text (Text.max_input r) input,
        )
      ]

  encoding_held :
      (kind : Input) (p : Bytes)
      → Succeed (host m l w) t (stage_of kind p ∷ [])
      → AllHeld m l (replay m l (t ++ stage_of kind p ∷ []) w) (stage_of kind p ∷ [])
  encoding_held in_raw p = element_held m l k q c w t d f p
  encoding_held in_str p = text_held m l k q c w t d f x_str native p tt
  encoding_held in_utf8 p = text_held m l k q c w t d f x_utf8 utf8 p tt
  encoding_held in_latin1 p = text_held m l k q c w t d f x_latin1 latin1 p tt

  stage_of-Fits : (kind : Input) (p : Bytes) → All Fits (stage_of kind p ∷ [])
  stage_of-Fits in_raw p = (refl, tt)
  stage_of-Fits in_str p = (tt, tt)
  stage_of-Fits in_utf8 p = (tt, tt)
  stage_of-Fits in_latin1 p = (tt, tt)

  -- For encoding, on a world of R objects and files where the memory manager keeps what is
  -- reachable, evaluations leave that alone, the C library writes what it says, and start-up has
  -- laid out the objects and the calls, for any trace so far and every input of a byte or more: the
  -- target ends; a payload that its slot does not admit does nothing; unless the target stopped on
  -- the way and evaluated nothing, the payload is in the object that the kind of input of the slot
  -- fills when the call is evaluated; and a payload that is admitted as a string is a C string as
  -- it stands.
  pub encoding_run-Ran :
      (b : ℕ) (p : Bytes)
      → (kind : Input) × (t' : Trace) × (get_elem? inputs (b % 28) ≡ some kind)
        × (Encoding.run (host m l w) (b ∷ p) t ≡ some (tt, t'))
        × Ran m l w t (stage_of kind p ∷ []) (eval_silent (b % 28)) t'
        × (admits kind p ≡ false → t' ≡ t)
        × (admits kind p ≡ true → is_raw kind ≡ false → c_string p ≡ p)
  encoding_run-Ran b p =
      let r = encoding_run-session (host m l w) b p t in
      let kind = r.0 in
      let ops = stage_of kind p ∷ [] in
      elim (Bool-cases (admits kind p)) [
        | inr outside ↦ (
          kind,
          t,
          r.1,
          rw outside at r.2,
          idle_Ran m l w t ops (eval_silent (b % 28)) f,
          λ _. refl,
          λ o. absurd (ground (arith, outside, o)),
        )
        | inl inside ↦ (
          kind,
          session (host m l w) ops (eval_silent (b % 28) ∷ []) t,
          r.1,
          rw inside at r.2,
          session-Ran m l w t ops (eval_silent (b % 28)) f (stage_of-Fits kind p) tt
              (encoding_held kind p),
          λ o. absurd (ground (arith, inside, o)),
          admitted_text kind p,
        )
      ]
