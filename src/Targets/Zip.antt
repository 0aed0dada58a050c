-- ===== src/Targets/Zip.antt =====
-- harnesses/zip.c: the bundled zip reader, over a scratch file and a scratch directory.
use r_oss_fuzz.Base.{
  ℕ, ◌*◌, ◌%◌, ◌||◌, List, [], ◌∷◌, map, Bytes, length, get_elem?, drop, ltb, if◌then◌else◌,
}
use Prim.Native.String.{String}
use r_oss_fuzz.Host.{
  write_scratch, eval_silent, make_scratch_file, make_scratch_dir, demand, Host, M, ◌>>=◌, ◌>>◌,
  return, finish, checked, require, perform_, slot,
}
use r_oss_fuzz.Host.Boot.{Boot, booted}
use r_oss_fuzz.Host.Call.{Term, Function, text, lang, nil, ◌&◌}

abbrev pub max_input : ℕ
max_input = 1024 * 64

abbrev pub n_calls : ℕ
n_calls = 4

abbrev pub sources : List String
sources =
    "function(path, exdir) utils::unzip(path, list = TRUE, unzip = \"internal\")"
    ∷ "function(path, exdir) { on.exit(unlink(list.files(exdir, all.files = TRUE, full.names = TRUE, no.. = TRUE), recursive = TRUE)); utils::unzip(path, exdir = exdir, junkpaths = TRUE, unzip = \"internal\") }"
    ∷ "function(path, exdir) { l <- utils::unzip(path, list = TRUE, unzip = \"internal\"); if (nrow(l)) { con <- unz(path, l$Name[1], open = \"rb\"); on.exit(close(con)); readBin(con, \"raw\", 65536L) } }"
    ∷ "function(path, exdir) { l <- utils::unzip(path, list = TRUE, unzip = \"internal\"); if (nrow(l)) { con <- unz(path, l$Name[1]); on.exit(close(con)); readLines(con, n = 1024L, warn = FALSE) } }"
    ∷ []

-- `path` and `exdir` are texts that are known once the scratch files are made.
abbrev pub calls : List Function → List Term
calls wrappers = map (λ w. lang w (text "path" & text "exdir" & nil)) wrappers

unfoldable pub init : Boot → Host → M (List Term)
init b h = booted b sources λ wrappers. do
  demand h (make_scratch_file "zip")
  demand h make_scratch_dir
  return (calls wrappers)

unfoldable pub run : Host → Bytes → M (Unit {0})
run h input =
    if ltb (length input) 2 || ltb max_input (length input)
    then finish
    else require h (write_scratch (drop 1 input)) (do
      b ← checked (get_elem? input 0)
      i ← checked (slot n_calls (b % n_calls))
      perform_ (eval_silent i))
