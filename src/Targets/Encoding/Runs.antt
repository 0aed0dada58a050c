-- ===== src/Targets/Encoding/Runs.antt =====
-- What harnesses/encoding.c stages for its calls, and what it does with an input.
use r_oss_fuzz.Base.{
  ℕ, ◌*◌, ◌%◌, Bool, false, not, ◌&&◌, ◌||◌, none, some, List, [], ◌∷◌, map, Bytes, length,
  get_elem?, get_elem?-lt, leb, ltb, ◌==◌, if◌then◌else◌, ◌≡◌, refl, arith, Bool-cases, inl, inr,
}
use r_oss_fuzz.Host.{
  Vec, x_str, x_utf8, x_latin1, x_list, Op, native, utf8, latin1, set_string, set_raw_element,
  eval_silent, Host, Trace, has_byte,
}
use r_oss_fuzz.Host.Boot.{Boot, all_made, booted-made}
use r_oss_fuzz.Host.Call.{Term, reads}
use r_oss_fuzz.Host.Session.{session}
use r_oss_fuzz.Host.Buffers.{c_string-fill}
use r_oss_fuzz.Targets.Encoding.{
  Input, in_raw, in_str, in_utf8, in_latin1, inputs, init, stage_string, is_raw, run,
}

abbrev code_of : Vec → ℕ
code_of x_list = 1
code_of x_str = 2
code_of x_utf8 = 3
code_of x_latin1 = 4
code_of v = 0

abbrev pub is_vec : Vec → Vec → Bool
is_vec v w = code_of v == code_of w

abbrev pub sets : Vec → Op → Bool
sets v (set_string w mark s) = is_vec v w
sets v (set_raw_element w s) = is_vec v w
sets v op = false

-- The objects that the staging of an input kind sets, and those that a call reads: the list, the native
-- string and the two marked ones.
abbrev pub fills : Input → List Bool
fills kind =
    let op = if is_raw kind then set_raw_element x_list [] else stage_string kind [] in
    sets x_list op ∷ sets x_str op ∷ sets x_utf8 op ∷ sets x_latin1 op ∷ []

unfoldable pub call_reads : Term → List Bool
unfolding reads
call_reads c =
    reads (is_vec x_list) c
    ∷ reads (is_vec x_str) c
    ∷ reads (is_vec x_utf8) c
    ∷ reads (is_vec x_latin1) c
    ∷ []

-- On the R thread, start-up builds 28 calls, each of which reads exactly the object that is staged for
-- the kind of input of its slot. Off that thread it stops the process.
pub init-reads :
    (b : Boot) (t : Trace)
    → (calls : List Term) × (t' : Trace) × (init b t
        ≡ (if b.on_r_thread && all_made b [] then some (calls, t') else none))
      × (length calls ≡ 28)
      × (map fills inputs ≡ map call_reads calls)
unfolding init inputs call_reads
init-reads b t = (_, _, booted-made b [] _ t, refl, refl)

abbrev pub stage_of : Input → Bytes → Op
stage_of in_raw p = set_raw_element x_list p
stage_of in_str p = set_string x_str native p
stage_of in_utf8 p = set_string x_utf8 utf8 p
stage_of in_latin1 p = set_string x_latin1 latin1 p

abbrev pub admits : Input → Bytes → Bool
admits kind p =
    leb 1 (length p) && ltb (length p) (1024 * 64) && (is_raw kind || not (has_byte 0 p))

length-inputs : length inputs ≡ 28
unfolding inputs
length-inputs = refl

module _ (h : Host) (b : ℕ) (p : Bytes) (t : Trace) where
  run_raw :
      get_elem? inputs (b % 28) ≡ some in_raw
      → run h (b ∷ p) t
        ≡ some (
          tt,
          if admits in_raw p
              then session h (set_raw_element x_list p ∷ []) (eval_silent (b % 28) ∷ []) t
              else t,
        )
  unfolding run session
  run_raw e = ground (arith, e)

  run_string :
      (kind : Input)
      → is_raw kind ≡ false
      → get_elem? inputs (b % 28) ≡ some kind
      → run h (b ∷ p) t
        ≡ some (
          tt,
          if leb 1 (length p) && ltb (length p) (1024 * 64) && not (has_byte 0 p)
              then session h (stage_string kind p ∷ []) (eval_silent (b % 28) ∷ []) t
              else t,
        )
  unfolding run session
  run_string kind k e = elim (Bool-cases (has_byte 0 p)) [
    | inl nul ↦ ground (arith, e, k)
    | inr text ↦ ground (arith, e, k, c_string-fill p text)
  ]

  run_kind :
      (kind : Input)
      → get_elem? inputs (b % 28) ≡ some kind
      → run h (b ∷ p) t
        ≡ some (
          tt,
          if admits kind p
              then session h (stage_of kind p ∷ []) (eval_silent (b % 28) ∷ []) t
              else t,
        )
  run_kind in_raw e = run_raw e
  run_kind in_str e = run_string in_str refl e
  run_kind in_utf8 e = run_string in_utf8 refl e
  run_kind in_latin1 e = run_string in_latin1 refl e

-- For every input of a byte or more, no buffer is overrun and no index is out of range. An input outside
-- of the size limits does nothing, nor does one with a NUL for a slot that reads a string. Any other one
-- is staged whole in the object of the slot's kind, and if that succeeds its call is evaluated.
pub encoding_run-session :
    (h : Host) (b : ℕ) (p : Bytes) (t : Trace)
    → (kind : Input) × (get_elem? inputs (b % 28) ≡ some kind)
      × (run h (b ∷ p) t
          ≡ some (
            tt,
            if admits kind p
                then session h (stage_of kind p ∷ []) (eval_silent (b % 28) ∷ []) t
                else t,
          ))
encoding_run-session h b p t =
    let k = get_elem?-lt inputs (b % 28) (omega (arith, length-inputs)) in
    (k.0, k.1, run_kind h b p t k.0 k.1)
