-- ===== src/Targets/Connections.antt =====
-- harnesses/connections.c: the connection layer as a reader of a scratch file.
use r_oss_fuzz.Base.{
  ℕ, ◌+◌, ◌*◌, ◌%◌, true, false, ◌||◌, List, [], ◌∷◌, ◌++◌, map, Bytes, length, get_elem?, drop,
  ltb, ◌==◌, if◌then◌else◌,
}
use Prim.Native.String.{String}
use r_oss_fuzz.Host.{
  set_raw_arg, write_scratch, eval_silent, make_scratch_file, demand, Host, M, ◌>>=◌, ◌>>◌, return,
  finish, fault, checked, require, perform_, slot,
}
use r_oss_fuzz.Host.Call.{Term, text, flag, raw, symbol_value, lang, closure, nil, ◌&◌}

abbrev pub max_input : ℕ
max_input = 1024 * 64

abbrev pub encodings : List String
encodings =
    "" ∷ "UTF-8" ∷ "latin1" ∷ "UTF-16LE" ∷ "UTF-16BE" ∷ "UTF-16" ∷ "UCS-2LE" ∷ "CP1252"
    ∷ "UTF-8-BOM" ∷ []

abbrev pub openers : List String
openers = "gzfile" ∷ "bzfile" ∷ "xzfile" ∷ "zstdfile" ∷ []

-- 6 * N_ENCODINGS + 2 * N_OPENERS + 4
abbrev pub n_calls : ℕ
n_calls = 6 * length encodings + 2 * length openers + 4

abbrev pub wrapper_lines : String
wrapper_lines =
    "function(x, path, enc, skip) {  con <- file(path, encoding = enc); on.exit(close(con));  readLines(con, n = 1000L, warn = FALSE, skipNul = skip) }"

abbrev pub wrapper_chars : String
wrapper_chars =
    "function(x, path, enc, ub) {  con <- file(path, 'r', encoding = enc); on.exit(close(con));  readChar(con, c(1L, 10L, 100L, 1000L), useBytes = ub) }"

abbrev pub wrapper_scan : String
wrapper_scan =
    "function(x, path, enc) {  con <- file(path, encoding = enc); on.exit(close(con));  scan(con, what = '', quiet = TRUE, nmax = 1000L) }"

abbrev pub wrapper_chunks : String
wrapper_chunks =
    "function(x, path, enc) {  con <- file(path, encoding = enc); open(con, 'rt'); on.exit(close(con));  a <- readLines(con, n = 2L, warn = FALSE); isIncomplete(con);  b <- readLines(con, n = 500L, warn = FALSE);  if (isSeekable(con)) seek(con, 0L);  list(a, b, readChar(con, 10L, useBytes = TRUE)) }"

abbrev pub wrapper_compressed_bin : String
wrapper_compressed_bin =
    "function(x, path, opener) {  con <- opener(path, 'rb'); on.exit(close(con));  readBin(con, 'raw', 65536L) }"

abbrev pub wrapper_compressed_text : String
wrapper_compressed_text =
    "function(x, path, opener) {  con <- opener(path, 'rt'); on.exit(close(con));  readLines(con, n = 1000L, warn = FALSE) }"

abbrev pub wrapper_gzcon : String
wrapper_gzcon =
    "function(x, path) {  con <- gzcon(file(path, 'rb')); on.exit(close(con));  readBin(con, 'raw', 65536L) }"

abbrev pub wrapper_raw : String
wrapper_raw =
    "function(x, path) {  con <- rawConnection(x); on.exit(close(con));  a <- readLines(con, n = 1000L, warn = FALSE);  isSeekable(con); seek(con, 3L);  b <- readChar(con, c(5L, 50L), useBytes = TRUE);  seek(con, 0L, 'start');  list(a, b, readBin(con, 'integer', 100L, size = 2L)) }"

abbrev pub wrapper_pushback : String
wrapper_pushback =
    "function(x, path) {  con <- rawConnection(x); on.exit(close(con));  l <- readLines(con, n = 20L, warn = FALSE);  tc <- textConnection(l); on.exit(close(tc), add = TRUE);  pushBack(rev(l), tc, newLine = FALSE); pushBack(l, tc);  pushBackLength(tc); a <- readLines(tc, n = 5L, warn = FALSE);  clearPushBack(tc); list(a, readLines(tc, warn = FALSE)) }"

abbrev pub wrapper_write : String
wrapper_write =
    "function(x, path) {  l <- readLines(rc <- rawConnection(x), n = 50L, warn = FALSE); close(rc);  out <- rawConnection(raw(0), 'w'); on.exit(close(out));  writeLines(l, out); writeChar(l, out, eos = NULL); writeBin(x, out);  seek(out, 0L); truncate(out); writeLines(l, out, sep = '\\r\\n');  v <- rawConnectionValue(out);  tc <- textConnection(NULL, 'w'); on.exit(close(tc), add = TRUE);  writeLines(l, tc); cat(l, file = tc, sep = '|'); t <- textConnectionValue(tc);  gz <- gzcon(rawConnection(raw(0), 'w')); writeBin(x, gz); close(gz);  list(v, t) }"

abbrev with_encoding : String → Term → String → Term
with_encoding w last enc = lang (closure w) (raw & text "path" & text enc & last & nil)

abbrev by_encoding : String → String → Term
by_encoding w enc = lang (closure w) (raw & text "path" & text enc & nil)

abbrev by_opener : String → String → Term
by_opener w opener = lang (closure w) (raw & text "path" & symbol_value opener & nil)

abbrev plain_call : String → Term
plain_call w = lang (closure w) (raw & text "path" & nil)

-- The loops and assignments of `calls[n++]`, in their order.
abbrev pub calls : List Term
calls =
    map (with_encoding wrapper_lines (flag false)) encodings
    ++ (map (with_encoding wrapper_lines (flag true)) encodings
        ++ (map (with_encoding wrapper_chars (flag true)) encodings
            ++ (map (with_encoding wrapper_chars (flag false)) encodings
                ++ (map (by_encoding wrapper_scan) encodings
                    ++ (map (by_encoding wrapper_chunks) encodings
                        ++ (map (by_opener wrapper_compressed_bin) openers
                            ++ (map (by_opener wrapper_compressed_text) openers
                                ++ map plain_call (
                                    wrapper_gzcon ∷ wrapper_raw ∷ wrapper_pushback ∷ wrapper_write
                                    ∷ []))))))))

-- `if (n != N_CALLS) abort();`
unfoldable pub init : Host → M (List Term)
init h = do
  demand h (make_scratch_file "connections")
  if length calls == n_calls then return calls else fault

unfoldable pub run : Host → Bytes → M (Unit {0})
run h input = if ltb (length input) 2 || ltb max_input (length input) then finish else do
  b ← checked (get_elem? input 0)
  i ← checked (slot n_calls (b % n_calls))
  require h (write_scratch (drop 1 input))
      (require h (set_raw_arg i (drop 1 input)) (perform_ (eval_silent i)))
