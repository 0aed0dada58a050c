-- ===== src/Common/Scratch.antt =====
-- The scratch files of harnesses/common.h and the scratch directory of harnesses/zip.c. The C library
-- is a parameter: what `mkstemp` and `mkdtemp` make of a template, and how an open, a write and a close
-- of a file end.
pub mod Laws
use r_oss_fuzz.Base.{
  ℕ, ◌-◌, Bool, true, false, ◌&&◌, Option, none, some, List, [], ◌∷◌, ◌++◌, Bytes, codes, length,
  take, ltb, ◌==◌, if◌then◌else◌,
}
use r_oss_fuzz.Host.Call.{same_text}
use r_oss_fuzz.Common.Startup.{Environ, path_max}

-- What stands under a path: a file with its contents, a directory, or nothing.
pub data Entry : Type 0 where
  file : Bytes → Entry
  directory : Entry

abbrev pub Files : Type 0
Files = Bytes → Option Entry

abbrev pub write_file : Bytes → Option Entry → Files → Files
write_file path e f = λ p. if same_text p path then e else f p

-- How the writing of a file goes: whether `fopen` succeeds, how many bytes `fwrite` takes, whether
-- `fclose` returns 0, and what the file holds behind it.
pub record Stream : Type 0 where
  pub opens : Bool
  pub takes : ℕ
  pub closes : Bool
  pub contents : Bytes

pub record Clib : Type 0 where
  pub malloc : ℕ → Bool
  pub mkstemp : Files → Bytes → Option Bytes  -- the path, or none for -1
  pub mkdtemp : Files → Bytes → Option Bytes  -- the path, or none for NULL
  pub write : Files → Bytes → Bytes → Stream  -- the path and the bytes

-- `tmpdir`
unfoldable pub temp_dir : Environ → Bytes
temp_dir env = elim (env (codes "TMPDIR")) [
  | none ↦ codes "/tmp"
  | some dir ↦ if length dir == 0 then codes "/tmp" else dir
]

-- What `snprintf` writes into a buffer of `PATH_MAX`.
unfoldable pub file_template : Environ → Bytes → Bytes
unfolding temp_dir
file_template env name =
    take (path_max - 1) (temp_dir env ++ (codes "/fuzz-" ++ (name ++ codes "-XXXXXX")))

unfoldable pub dir_template : Environ → Bytes
unfolding temp_dir
dir_template env = take (path_max - 1) (temp_dir env ++ codes "/fuzz-zip-exdir-XXXXXX")

module _ (c : Clib) (env : Environ) where
  -- `none` is NULL.
  unfoldable pub fuzz_scratch_file : Bytes → Files → Option Bytes × Files
  unfolding file_template
  fuzz_scratch_file name f =
      if c.malloc path_max
      then elim (c.mkstemp f (file_template env name)) [
        | none ↦ (none, f)
        | some path ↦ (some path, write_file path (some (file [])) f)
      ]
      else (none, f)

  unfoldable pub make_scratch_dir : Files → Option Bytes × Files
  unfolding dir_template
  make_scratch_dir f =
      if c.malloc path_max
      then elim (c.mkdtemp f (dir_template env)) [
        | none ↦ (none, f)
        | some path ↦ (some path, write_file path (some directory) f)
      ]
      else (none, f)

-- `fwrite` is not called for no bytes, and takes none.
unfoldable pub fuzz_write_scratch : Clib → Bytes → Bytes → Files → Bool × Files
fuzz_write_scratch c path bytes f =
    let s = c.write f path bytes in
    if s.opens
    then (let written = if ltb 0 (length bytes) then s.takes else 0 in
        (written == length bytes && s.closes, write_file path (some (file s.contents)) f))
    else (false, f)
