-- ===== src/Common/Scratch/Laws.antt =====
-- A scratch file is new, and a write of it that returns TRUE has put all the bytes in it.
use r_oss_fuzz.Base.{
  zero, suc, length-append, ◌+◌, ℕ, ◌≤◌, ◌<◌, ◌-◌, Bool, true, false, Option, none, some, [], ◌∷◌,
  ◌++◌, Bytes, codes, length, take, ltb, ◌==◌, if◌then◌else◌, ◌≡◌, ◌≢◌, ◌⊎◌, inl, inr, refl, sym,
  ap, ◌∙◌, arith, Bool-cases, Option-cases,
}
use r_oss_fuzz.Host.Call.{same_text, same_text-eq, same_text_refl}
use r_oss_fuzz.Common.Startup.{Environ, path_max}
use r_oss_fuzz.Common.Scratch.{
  Entry, file, directory, Files, write_file, Clib, temp_dir, file_template, dir_template,
  fuzz_scratch_file, make_scratch_dir, fuzz_write_scratch,
}

-- `mkstemp` and `mkdtemp` give the template with other characters in place of its last six, which are
-- X, and a path that nothing stood under.
abbrev pub IsUnique : Files → Bytes → Bytes → Type 0
IsUnique f template path =
    (front : Bytes) × (six : Bytes) × (template ≡ front ++ codes "XXXXXX")
    × (path ≡ front ++ six)
    × (length six ≡ 6)
    × (f path ≡ none)

-- What the C library promises. A close that returns 0 has written all that `fwrite` took.
pub record IsClib (c : Clib) : Type 0 where
  pub unique_file : (f : Files) (t path : Bytes) → c.mkstemp f t ≡ some path → IsUnique f t path
  pub unique_dir : (f : Files) (t path : Bytes) → c.mkdtemp f t ≡ some path → IsUnique f t path
  pub closed :
      (f : Files) (path bytes : Bytes)
      → (c.write f path bytes).closes ≡ true
      → (c.write f path bytes).contents
        ≡ take (if ltb 0 (length bytes) then (c.write f path bytes).takes else 0) bytes

write_file-at : (path : Bytes) (e : Option Entry) (f : Files) → write_file path e f path ≡ e
write_file-at path e f = rw (same_text_refl path) refl

write_file-other :
    (path p : Bytes) (e : Option Entry) (f : Files) → p ≢ path → write_file path e f p ≡ f p
write_file-other path p e f n = elim (Bool-cases (same_text p path)) [
  | inl same ↦ absurd (n (same_text-eq p path same))
  | inr other ↦ rw other refl
]

pub take-all : (l : Bytes) → take (length l) l ≡ l
take-all [] = refl
take-all (b ∷ l) = ap (λ t. b ∷ t) (take-all l)

-- How a write ends.
pub record Replaces (c : Clib) (path bytes : Bytes) (f : Files) (r : Bool × Files) : Type 0 where
  pub holds : r.0 ≡ true → r.1 path ≡ some (file bytes)
  pub unopened : (c.write f path bytes).opens ≡ false → (r.0 ≡ false) × (r.1 path ≡ f path)
  pub short : (c.write f path bytes).takes < length bytes → r.0 ≡ false
  pub unclosed : (c.write f path bytes).closes ≡ false → r.0 ≡ false
  pub succeeds :
      (c.write f path bytes).opens ≡ true
      → (c.write f path bytes).closes ≡ true
      → ((c.write f path bytes).takes ≡ length bytes)
      → r.0 ≡ true
  pub others : (p : Bytes) → p ≢ path → r.1 p ≡ f p

holds_lem :
    (c : Clib) (path bytes : Bytes) (f : Files)
    → IsClib c
    → (fuzz_write_scratch c path bytes f).0 ≡ true
    → (fuzz_write_scratch c path bytes f).1 path ≡ some (file bytes)
unfolding fuzz_write_scratch
holds_lem c path bytes f i e =
    let w = c.write f path bytes in
    let n = if ltb 0 (length bytes) then w.takes else 0 in
    elim (Bool-cases w.opens) [
      | inr shut ↦ absurd (ground (arith, e, shut))
      | inl open_file ↦
          let done : (n ≡ length bytes) × (w.closes ≡ true) = ground (arith, e, open_file) in
          let whole =
            i.closed f path bytes done.1 ∙ ap (λ k. take k bytes) done.0 ∙ take-all bytes in
          rw open_file
            (write_file-at path (some (file w.contents)) f ∙ ap (λ b. some (file b)) whole)
    ]

-- Where a close that returns 0 has written all that `fwrite` took: `fuzz_write_scratch` returns TRUE only
-- if the file holds the bytes and nothing else, and does so if the file is opened, all the bytes are taken
-- and the close succeeds. It returns FALSE if one of these fails, and leaves a file that cannot be opened
-- as it was. No other file changes.
pub fuzz_write_scratch-Replaces :
    (c : Clib) (path bytes : Bytes) (f : Files)
    → IsClib c
    → Replaces c path bytes f (fuzz_write_scratch c path bytes f)
unfolding fuzz_write_scratch
fuzz_write_scratch-Replaces c path bytes f i = record {
  holds = holds_lem c path bytes f i;
  unopened = λ e. ground (arith, e);
  short = λ e. ground (arith, e);
  unclosed = λ e. ground (arith, e);
  succeeds = λ o d t. ground (arith, o, d, t);
  others = λ p n.
      ground (arith, write_file-other path p (some (file (c.write f path bytes).contents)) f n);
}

length-take_le : (n : ℕ) (l : Bytes) → length (take n l) ≤ n
length-take_le zero l = omega arith
length-take_le (suc n) [] = omega arith
length-take_le (suc n) (b ∷ l) = omega (arith, length-take_le n l)

-- A new file or directory under a unique path that fits its buffer, or nothing at all.
abbrev pub Creates : Entry → Bytes → Files → Option Bytes × Files → Type 0
Creates e template f (none, g) = g ≡ f
Creates e template f (some path, g) =
    IsUnique f template path
    × (length path < path_max)
    × (g path ≡ some e)
    × ((p : Bytes) → p ≢ path → g p ≡ f p)

creates_lem :
    (e : Entry) (template whole path : Bytes) (f : Files)
    → template ≡ take (path_max - 1) whole
    → IsUnique f template path
    → Creates e template f (some path, write_file path (some e) f)
creates_lem e template whole path f t u =
    let short = length-take_le (path_max - 1) whole in
    let size : length path ≡ length template =
      ap length u.3
      ∙ length-append u.0 u.1
      ∙ ap (λ n. length u.0 + n) u.4
      ∙ sym (length-append u.0 (codes "XXXXXX"))
      ∙ ap length (sym u.2) in
    (
      u,
      omega (arith, size, short, ap length t),
      write_file-at path (some e) f,
      λ p n. write_file-other path p (some e) f n,
    )

-- The directory of scratch files: TMPDIR, or /tmp where this is unset or empty.
abbrev pub TempOf : Option Bytes → Bytes → Type 0
TempOf value dir =
    ((value ≡ some dir) × (dir ≢ []))
    ⊎ (((value ≡ none) ⊎ (value ≡ some [])) × (dir ≡ codes "/tmp"))

abbrev pub IsTempDir : Environ → Bytes → Type 0
IsTempDir env = TempOf (env (codes "TMPDIR"))

temp_dir-IsTempDir : (env : Environ) → IsTempDir env (temp_dir env)
unfolding temp_dir
temp_dir-IsTempDir env =
    elim (env (codes "TMPDIR"))
      as (λ o. TempOf o (elim o [
        | none ↦ codes "/tmp"
        | some dir ↦ if length dir == 0 then codes "/tmp" else dir
      ])) [
        | none ↦ inr (inl refl, refl)
        | some [] ↦ inr (inr refl, refl)
        | some (b ∷ dir) ↦
            let k : (suc (length dir) == 0) ≡ false = ground arith in
            rw k (inl (refl, λ e. ground (arith, e)))
      ]

-- The templates of the two, cut to the buffer.
pub record Templates (env : Environ) (name : Bytes) : Type 0 where
  pub dir : Bytes
  pub from : IsTempDir env dir
  pub of_file :
      file_template env name
      ≡ take (path_max - 1) (dir ++ (codes "/fuzz-" ++ (name ++ codes "-XXXXXX")))
  pub of_dir : dir_template env ≡ take (path_max - 1) (dir ++ codes "/fuzz-zip-exdir-XXXXXX")

-- For `fuzz_scratch_file` and for `make_scratch_dir` of zip.c, where `mkstemp` and `mkdtemp` give a path that
-- nothing stood under, with six characters in place of the last six of the template: where NULL is
-- returned, nothing was created. Otherwise the path is such a one of the template, it fits in its buffer
-- with the NUL, and it is now an empty file, or a directory; nothing else changed. The templates are in the
-- directory that TMPDIR names, or in /tmp where this is unset or empty, cut to the buffer.
pub fuzz_scratch_file-Creates :
    (c : Clib) (env : Environ) (name : Bytes) (f : Files)
    → IsClib c
    → Creates (file []) (file_template env name) f (fuzz_scratch_file c env name f)
      × Creates directory (dir_template env) f (make_scratch_dir c env f)
      × Templates env name
unfolding fuzz_scratch_file make_scratch_dir file_template dir_template
fuzz_scratch_file-Creates c env name f i = (made_file, made_dir, templates)
  where
    templates : Templates env name
    templates = record {
      dir = temp_dir env;
      from = temp_dir-IsTempDir env;
      of_file = refl;
      of_dir = refl;
    }

    made_file : Creates (file []) (file_template env name) f (fuzz_scratch_file c env name f)
    made_file = elim (Bool-cases (c.malloc path_max)) [
      | inr bad ↦ rw bad refl
      | inl good ↦ elim (Option-cases (c.mkstemp f (file_template env name))) [
        | inl none_made ↦ rw (good, none_made) refl
        | inr (path, e) ↦
            rw (good, e)
              (creates_lem (file []) (file_template env name) _ path f refl
                (i.unique_file f (file_template env name) path e))
      ]
    ]

    made_dir : Creates directory (dir_template env) f (make_scratch_dir c env f)
    made_dir = elim (Bool-cases (c.malloc path_max)) [
      | inr bad ↦ rw bad refl
      | inl good ↦ elim (Option-cases (c.mkdtemp f (dir_template env))) [
        | inl none_made ↦ rw (good, none_made) refl
        | inr (path, e) ↦
            rw (good, e)
              (creates_lem directory (dir_template env) _ path f refl
                (i.unique_dir f (dir_template env) path e))
      ]
    ]
