-- ===== src/Common/Staging.antt =====
-- The helpers of harnesses/common.h that stage an input in R's objects under `R_ToplevelExec`, and the
-- one that harnesses/encoding.c has for its list. `SEXP`s are addresses, and a C string is its
-- characters, up to the NUL.
pub mod Laws
use r_oss_fuzz.Base.{ℕ, Bool, [], Bytes, length}
use r_oss_fuzz.Host.{Mark, native, c_string}
use r_oss_fuzz.Common.Objects.{
  chars, raws, Collector, Action, ◌>>=◌, ◌>>◌, allocate, set_string_elt, set_vector_elt, setcadr,
  copy_to_raw, toplevel,
}

module _ (k : Collector) where
  unfoldable pub fuzz_do_set_string : ℕ → Bytes → Action (Unit {0})
  fuzz_do_set_string vec str = do
    c ← allocate k [] (chars native (c_string str))
    set_string_elt vec c

  unfoldable pub fuzz_set_string : ℕ → Bytes → Action Bool
  unfolding fuzz_do_set_string
  fuzz_set_string vec str = toplevel (fuzz_do_set_string vec str)

  unfoldable pub fuzz_do_set_string_ce : ℕ → Bytes → Mark → Action (Unit {0})
  fuzz_do_set_string_ce vec str ce = do
    c ← allocate k [] (chars ce (c_string str))
    set_string_elt vec c

  unfoldable pub fuzz_set_string_ce : ℕ → Bytes → Mark → Action Bool
  unfolding fuzz_do_set_string_ce
  fuzz_set_string_ce vec str ce = toplevel (fuzz_do_set_string_ce vec str ce)

  unfoldable pub fuzz_do_set_raw : ℕ → Bytes → Action (Unit {0})
  fuzz_do_set_raw call bytes = do
    raw ← allocate k [] (raws (length bytes) [])
    setcadr call raw
    copy_to_raw raw bytes

  unfoldable pub fuzz_set_raw_arg : ℕ → Bytes → Action Bool
  unfolding fuzz_do_set_raw
  fuzz_set_raw_arg call bytes = toplevel (fuzz_do_set_raw call bytes)

  unfoldable pub set_encoding_input : ℕ → Bytes → Action (Unit {0})
  set_encoding_input x_list bytes = do
    raw ← allocate k [] (raws (length bytes) [])
    copy_to_raw raw bytes
    set_vector_elt x_list raw

  -- `R_ToplevelExec(set_encoding_input, ...)` in `fuzz_target_run`.
  unfoldable pub stage_encoding_input : ℕ → Bytes → Action Bool
  unfolding set_encoding_input
  stage_encoding_input x_list bytes = toplevel (set_encoding_input x_list bytes)
