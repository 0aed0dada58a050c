-- ===== src/Targets/Staging.antt =====
-- The targets with a staging of their own: parse, format, sort and io.
use r_oss_fuzz.Base.{
  ℕ, zero, suc, ◌+◌, ◌*◌, ◌%◌, ◌≤◌, ◌<◌, false, not, ◌&&◌, some, [], ◌∷◌, ◌++◌, Bytes, length, ltb,
  leb, if◌then◌else◌, ◌≡◌, ◌↔◌, inl, inr, arith, Bool-cases, Option-cases,
}
use mathlib.Core.List.{append_assoc}
use r_oss_fuzz.Host.{
  x_str, digits, width, nsmall, native, Op, set_string, set_raw_arg, set_lines, set_integer,
  set_flag, eval_silent, parse_vector, run_io, Host, Trace, has_byte,
}
use r_oss_fuzz.Host.Session.{session}
use r_oss_fuzz.Targets.Parse
use r_oss_fuzz.Targets.Format
use r_oss_fuzz.Targets.Sort
use r_oss_fuzz.Targets.Io
use r_oss_fuzz.Host.Buffers.{accepts, c_string-fill}

abbrev pub parse_route : ℕ → Op
parse_route zero = parse_vector
parse_route (suc n) = eval_silent (suc n)

-- The parse target stages an accepted payload whole and then takes the selected route: slot 0 parses
-- it in C, any other slot evaluates its call. An input that is not accepted does nothing.
pub parse_run-session :
    (h : Host) (b : ℕ) (p : Bytes) (t : Trace)
    → Parse.run h (b ∷ p) t
      ≡ some (
        tt,
        if accepts (1024 * 16) (b ∷ p)
            then session h (set_string x_str native p ∷ []) (parse_route (b % 7) ∷ []) t
            else t,
      )
unfolding Parse.run session
parse_run-session h b p t = elim (Bool-cases (has_byte 0 p)) [
  | inl nul ↦ ground arith
  | inr text ↦ ground (arith, c_string-fill p text)
]

-- The sort target stages the payload's lines, and evaluates the selected call if that succeeds.
pub sort_run-session :
    (h : Host) (b : ℕ) (p : Bytes) (t : Trace)
    → Sort.run h (b ∷ p) t
      ≡ some (
        tt,
        if accepts (1024 * 16) (b ∷ p)
            then session h (set_lines (Sort.lines p) ∷ []) (eval_silent (b % 22) ∷ []) t
            else t,
      )
unfolding Sort.run session
sort_run-session h b p t = ground arith

module _ (t : Trace) (a b c d : Op) where
  append_four : (((t ++ a ∷ []) ++ b ∷ []) ++ c ∷ []) ++ d ∷ [] ≡ t ++ (a ∷ b ∷ c ∷ d ∷ [])
  append_four = simp append_assoc

-- What the format target sets from its four parameter bytes.
abbrev pub parameters : ℕ → ℕ → ℕ → ℕ → Trace
parameters d w n f =
    set_integer digits d ∷ set_integer width w ∷ set_integer nsmall n ∷ set_flag f ∷ []

format_run :
    (h : Host) (b x y z f : ℕ) (p : Bytes) (t : Trace)
    → Format.run h (b ∷ x ∷ y ∷ z ∷ f ∷ p) t
      ≡ some (
        tt,
        if leb 1 (length p) && leb (length p + 5) (1024 * 16) && not (has_byte 0 p)
            then session h
                (set_string x_str native p ∷ [])
                (eval_silent (b % 24) ∷ [])
                (t ++ parameters (1 + x % 22) (y % 41) (z % 21) (f % 8))
            else t,
      )
unfolding Format.run session
format_run h b x y z f p t = elim (Bool-cases (has_byte 0 p)) [
  | inl nul ↦ ground arith
  | inr text ↦ ground (
    arith,
    c_string-fill p text,
    append_four t (set_integer digits (1 + x % 22)) (set_integer width (y % 41))
        (set_integer nsmall (z % 21)) (set_flag (f % 8)),
  )
]

-- The format target sets digits to 1..22, width to 0..40, nsmall to 0..20 and a flag that exists,
-- stages the rest of an accepted input whole, and evaluates the selected call if that succeeds. Any
-- other input leaves even the parameters alone.
pub format_run-session :
    (h : Host) (b x y z f : ℕ) (p : Bytes) (t : Trace)
    → (d : ℕ) × (w : ℕ) × (n : ℕ) × (g : ℕ) × ((1 ≤ d)
        × (d ≤ 22)
        × (w ≤ 40)
        × (n ≤ 20)
        × (g < length Format.flag_values))
      × (Format.run h (b ∷ x ∷ y ∷ z ∷ f ∷ p) t
          ≡ some (
            tt,
            if leb 1 (length p) && leb (length p + 5) (1024 * 16) && not (has_byte 0 p)
                then session h
                    (set_string x_str native p ∷ [])
                    (eval_silent (b % 24) ∷ [])
                    (t ++ parameters d w n g)
                else t,
          ))
format_run-session h b x y z f p t =
    (1 + x % 22, y % 41, z % 21, f % 8, omega arith, format_run h b x y z f p t)

-- The io target runs the round trip of a slot below 8 on the payload, and for any other slot it
-- stages the payload for its call and evaluates that if staging succeeds.
pub io_run-session :
    (h : Host) (b : ℕ) (p : Bytes) (t : Trace)
    → Io.run h (b ∷ p) t
      ≡ some (
        tt,
        if leb 1 (length p) && ltb (length p) (1024 * 64)
            then (if ltb (b % 18) 8
                then t ++ run_io (b % 18) p ∷ []
                else session h (set_raw_arg (b % 18) p ∷ []) (eval_silent (b % 18) ∷ []) t)
            else t,
      )
unfolding Io.run session
io_run-session h b p t = ground arith

-- For every input of a byte or more: the parse target stages an accepted payload whole and then takes the
-- selected route; the sort target stages the lines of an accepted payload and evaluates the selected
-- call; the io target runs the round trip of a slot below 8, and for any other slot it stages the payload
-- and evaluates the call. Each evaluates only if its staging succeeds, and does nothing with any other
-- input.
pub staged_run-session :
    (h : Host) (b : ℕ) (p : Bytes) (t : Trace)
    → (Parse.run h (b ∷ p) t
        ≡ some (
          tt,
          if accepts (1024 * 16) (b ∷ p)
              then session h (set_string x_str native p ∷ []) (parse_route (b % 7) ∷ []) t
              else t,
        ))
      × (Sort.run h (b ∷ p) t
          ≡ some (
            tt,
            if accepts (1024 * 16) (b ∷ p)
                then session h (set_lines (Sort.lines p) ∷ []) (eval_silent (b % 22) ∷ []) t
                else t,
          ))
      × (Io.run h (b ∷ p) t
          ≡ some (
            tt,
            if leb 1 (length p) && ltb (length p) (1024 * 64)
                then (if ltb (b % 18) 8
                    then t ++ run_io (b % 18) p ∷ []
                    else session h (set_raw_arg (b % 18) p ∷ []) (eval_silent (b % 18) ∷ []) t)
                else t,
          ))
staged_run-session h b p t =
    (parse_run-session h b p t, sort_run-session h b p t, io_run-session h b p t)

module _ (r : Io.BinHost) (p : Bytes) where
  open r use {Value, read_raw, write, read, identical}

  abbrev pub Differs : Type 0
  Differs =
      (value encoded again : Value) × (read_raw p ≡ some value)
      × (write value ≡ some encoded)
      × (read encoded ≡ some again)
      × (identical value again ≡ false)

  round_trip-Differs : Differs → Io.round_trip r p ≡ Io.aborted
  unfolding Io.round_trip
  round_trip-Differs (value, encoded, again, e₁, e₂, e₃, e₄) = ground arith

  differs-at :
      (value encoded : Value)
      → read_raw p ≡ some value
      → write value ≡ some encoded
      → Io.round_trip r p ≡ Io.aborted
      → Differs
  unfolding Io.round_trip
  differs-at value encoded e₁ e₂ h = elim (Option-cases (read encoded)) [
    | inl fail ↦ absurd (ground arith)
    | inr (again, e₃) ↦ (value, encoded, again, e₁, e₂, e₃, ground arith)
  ]

  Differs-round_trip : Io.round_trip r p ≡ Io.aborted → Differs
  unfolding Io.round_trip
  Differs-round_trip h = elim (Option-cases (read_raw p)) [
    | inl fail ↦ absurd (ground arith)
    | inr (value, e₁) ↦ elim (Option-cases (write value)) [
      | inl fail ↦ absurd (ground arith)
      | inr (encoded, e₂) ↦ differs-at value encoded e₁ e₂ h
    ]
  ]

  -- The round trip aborts exactly when R read the payload, wrote the value back and read that again,
  -- all without an error, and the two values differ.
  pub round_trip-aborted : (Io.round_trip r p ≡ Io.aborted) ↔ Differs
  round_trip-aborted = (Differs-round_trip, round_trip-Differs)
