-- ===== src/Tests/Sessions.antt =====
-- The targets at concrete inputs, with a host where every operation succeeds and with one where the
-- staging fails.
use r_oss_fuzz.Base.{
  ℕ, ◌+◌, ◌*◌, true, false, not, ◌&&◌, some, [], ◌∷◌, ◌++◌, Bytes, length, leb, if◌then◌else◌, ◌<◌,
  ◌≤◌, ◌≡◌, ◌↔◌, refl,
}
use r_oss_fuzz.Host.{
  Host, x_str, native, set_string, set_raw_arg, set_lines, eval_silent, has_byte, c_string,
}
use r_oss_fuzz.Host.Session.{session}
use r_oss_fuzz.Common.Repeat.{fuzz_repeat_product_excessive}
use r_oss_fuzz.Targets.Text
use r_oss_fuzz.Targets.Text.{text_run-session, grep_run-session}
use r_oss_fuzz.Targets.Whole.{whole_run-session}
use r_oss_fuzz.Targets.Staging.{
  staged_run-session, format_run-session, round_trip-aborted, Differs, parameters,
}
use r_oss_fuzz.Targets.Grep
use r_oss_fuzz.Targets.Coerce
use r_oss_fuzz.Targets.Agrep
use r_oss_fuzz.Targets.Parse
use r_oss_fuzz.Targets.Sort
use r_oss_fuzz.Targets.Format
use r_oss_fuzz.Targets.Io

abbrev willing : Host
willing t op = true

abbrev refusing : Host
refusing t op = false

abbrev abc : Bytes
abc = b'a' ∷ b'b' ∷ b'c' ∷ []

repeat_answer : fuzz_repeat_product_excessive abc ≡ some false
unfolding fuzz_repeat_product_excessive
repeat_answer = refl

grep_run-session_example :
    Grep.run willing (17 ∷ abc) [] ≡ some (tt, set_string x_str native abc ∷ eval_silent 1 ∷ [])
unfolding has_byte session
grep_run-session_example = grep_run-session willing (17 ∷ abc) [] repeat_answer

whole_run-session_example :
    (Coerce.run refusing abc [] ≡ some (tt, set_string x_str native abc ∷ []))
    × (Agrep.run refusing abc [] ≡ some (tt, set_string x_str native abc ∷ []))
unfolding c_string session
whole_run-session_example = whole_run-session refusing abc [] repeat_answer

staged_run-session_example :
    (Parse.run willing (8 ∷ abc) [] ≡ some (tt, set_string x_str native abc ∷ eval_silent 1 ∷ []))
    × (Sort.run willing (8 ∷ abc) [] ≡ some (tt, set_lines (Sort.lines abc) ∷ eval_silent 8 ∷ []))
    × (Io.run willing (8 ∷ abc) [] ≡ some (tt, set_raw_arg 8 abc ∷ eval_silent 8 ∷ []))
unfolding has_byte session
staged_run-session_example = staged_run-session willing 8 abc []

format_run-session_example :
    (d : ℕ) × (w : ℕ) × (n : ℕ) × (g : ℕ) × ((1 ≤ d)
      × (d ≤ 22)
      × (w ≤ 40)
      × (n ≤ 20)
      × (g < length Format.flag_values))
    × (Format.run willing (0 ∷ 0 ∷ 0 ∷ 0 ∷ 0 ∷ abc) []
        ≡ some (
          tt,
          if leb 1 (length abc) && leb (length abc + 5) (1024 * 16) && not (has_byte 0 abc)
              then session willing
                  (set_string x_str native abc ∷ [])
                  (eval_silent 0 ∷ [])
                  ([] ++ parameters d w n g)
              else [],
        ))
format_run-session_example = format_run-session willing 0 0 0 0 0 abc []

-- A value that is read back as another one.
abbrev forgetful : Io.BinHost
forgetful = record {
  Value = Bytes;
  read_raw = λ p. some p;
  write = λ v. some v;
  read = λ v. some [];
  identical = λ v w. false;
}

round_trip-aborted_example : (Io.round_trip forgetful abc ≡ Io.aborted) ↔ Differs forgetful abc
round_trip-aborted_example = round_trip-aborted forgetful abc
