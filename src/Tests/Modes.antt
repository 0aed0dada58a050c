-- ===== src/Tests/Modes.antt =====
-- The targets with a mode for each slot, at concrete inputs.
use r_oss_fuzz.Base.{
  ℕ, ◌*◌, ◌%◌, Bool, true, not, ◌&&◌, none, some, List, [], ◌∷◌, map, Bytes, length, get_elem?,
  if◌then◌else◌, ◌≡◌,
}
use r_oss_fuzz.Host.{Host, Trace, eval_silent}
use r_oss_fuzz.Host.Call.{Term}
use r_oss_fuzz.Targets.Io
use r_oss_fuzz.Host.Session.{session}
use r_oss_fuzz.Host.Buffers.{accepts}
use r_oss_fuzz.Targets.Character
use r_oss_fuzz.Targets.Character.Slots.{needs}
use r_oss_fuzz.Targets.Character.Runs.{character_run-session, split, stages, refused_by}
use r_oss_fuzz.Common.Repeat.{fuzz_repeat_product_excessive}
use r_oss_fuzz.Targets.Character.Chartr.{fuzz_chartr_table_excessive}
use r_oss_fuzz.Host.Boot.{all_made}
use r_oss_fuzz.Tests.Boots.{able_boot}
use r_oss_fuzz.Targets.Encoding
use r_oss_fuzz.Targets.Encoding.Runs.{
  init-reads, fills, call_reads, encoding_run-session, admits, stage_of,
}
use r_oss_fuzz.Targets.Datetime.{process}
use r_oss_fuzz.Targets.Datetime.Process.{process-Sound, Keeps}

abbrev yielding : Host
yielding t op = true

-- A pattern, a newline and a subject.
abbrev two_fields : Bytes
two_fields = b',' ∷ b'\n' ∷ b'a' ∷ b',' ∷ b'b' ∷ []

character_run-session_example :
    (need : ℕ) × (repeats : Bool) × (table : Bool) × (get_elem? needs (9 % 34) ≡ some need)
    × (fuzz_repeat_product_excessive (split (9 % 34) two_fields).1 ≡ some repeats)
    × (fuzz_chartr_table_excessive (split (9 % 34) two_fields).1 ≡ some table)
    × (Character.run yielding (9 ∷ two_fields) []
        ≡ some (
          tt,
          if accepts (1024 * 64) (9 ∷ two_fields) && not (refused_by need repeats table)
              then session yielding
                  (stages need (split (9 % 34) two_fields).0 (split (9 % 34) two_fields).1)
                  (eval_silent (9 % 34) ∷ [])
                  []
              else [],
        ))
character_run-session_example = character_run-session yielding 9 two_fields []

init-reads_example :
    (calls : List Term) × (t' : Trace) × (Encoding.init able_boot []
      ≡ (if able_boot.on_r_thread && all_made able_boot [] then some (calls, t') else none))
    × (length calls ≡ 28)
    × (map fills Encoding.inputs ≡ map call_reads calls)
init-reads_example = init-reads able_boot []

encoding_run-session_example :
    (kind : Encoding.Input) × (get_elem? Encoding.inputs (12 % 28) ≡ some kind)
    × (Encoding.run yielding (12 ∷ two_fields) []
        ≡ some (
          tt,
          if admits kind two_fields
              then session yielding (stage_of kind two_fields ∷ []) (eval_silent (12 % 28) ∷ []) []
              else [],
        ))
encoding_run-session_example = encoding_run-session yielding 12 two_fields []

process-Sound_example :
    Keeps true (process true yielding ((16 ∷ two_fields) ∷ (0 ∷ two_fields) ∷ []) [])
process-Sound_example = process-Sound true yielding ((16 ∷ two_fields) ∷ (0 ∷ two_fields) ∷ [])
