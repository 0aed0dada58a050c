-- ===== src/Targets/Format.antt =====
-- harnesses/format.c: number and string formatting, and printing to a null sink.
use r_oss_fuzz.Base.{
  ℕ, ◌+◌, ◌*◌, ◌%◌, ◌||◌, List, [], ◌∷◌, map, Bytes, length, get_elem?, drop, codes, ltb,
  if◌then◌else◌,
}
use Prim.Native.String.{String}
use r_oss_fuzz.Host.{
  Vec, x_str, digits, width, nsmall, native, set_string, set_element, set_integer, eval_silent,
  set_flag, sink, demand, Host, M, ◌>>=◌, ◌>>◌, return, finish, checked, require, perform_,
  has_byte, c_string, fill, slot,
}
use r_oss_fuzz.Host.Boot.{Boot, booted}
use r_oss_fuzz.Host.Call.{Term, Function, vec, lang, nil, ◌&◌}

abbrev pub max_input : ℕ
max_input = 1024 * 16

abbrev pub n_calls : ℕ
n_calls = 24

abbrev pub header : ℕ
header = 5

abbrev pub flag_values : List String
flag_values = "" ∷ "-" ∷ "0" ∷ "+" ∷ " " ∷ "#" ∷ "0-" ∷ "+#0" ∷ []

abbrev pub n_flags : ℕ
n_flags = 8

abbrev pub sources : List String
sources =
    "function(s, d, w, ns, fl) { format(s); format(s, width = w, justify = 'right');  format(s, justify = 'centre'); format(c(s, NA), na.encode = FALSE) }"
    ∷ "function(s, d, w, ns, fl) {n <- as.numeric(strsplit(s, '[ ,;\\t\\n]+', perl = TRUE)[[1]]); n <- n[seq_len(min(500L, length(n)))]; format(n); format(n, digits = d);  format(n, width = w) }"
    ∷ "function(s, d, w, ns, fl) {n <- as.numeric(strsplit(s, '[ ,;\\t\\n]+', perl = TRUE)[[1]]); n <- n[seq_len(min(500L, length(n)))]; format(n, digits = d, nsmall = ns);  format(n, nsmall = ns, width = w); format(NA_real_, nsmall = ns) }"
    ∷ "function(s, d, w, ns, fl) {n <- as.numeric(strsplit(s, '[ ,;\\t\\n]+', perl = TRUE)[[1]]); n <- n[seq_len(min(500L, length(n)))]; format(n, scientific = TRUE);  format(n, scientific = FALSE, digits = d); format(n, scientific = w - 20L) }"
    ∷ "function(s, d, w, ns, fl) {n <- as.numeric(strsplit(s, '[ ,;\\t\\n]+', perl = TRUE)[[1]]); n <- n[seq_len(min(500L, length(n)))]; format(n, big.mark = ',', small.mark = ' ',  small.interval = 2L); prettyNum(n, big.mark = \"'\", decimal.mark = ',');  prettyNum(s, big.mark = ',') }"
    ∷ "function(s, d, w, ns, fl) {n <- as.numeric(strsplit(s, '[ ,;\\t\\n]+', perl = TRUE)[[1]]); n <- n[seq_len(min(500L, length(n)))]; formatC(n, digits = d, width = w,  format = 'f', flag = fl) }"
    ∷ "function(s, d, w, ns, fl) {n <- as.numeric(strsplit(s, '[ ,;\\t\\n]+', perl = TRUE)[[1]]); n <- n[seq_len(min(500L, length(n)))]; formatC(n, digits = d, width = w,  format = 'e', flag = fl) }"
    ∷ "function(s, d, w, ns, fl) {n <- as.numeric(strsplit(s, '[ ,;\\t\\n]+', perl = TRUE)[[1]]); n <- n[seq_len(min(500L, length(n)))]; formatC(n, digits = d, width = w,  format = 'g', flag = fl); formatC(n, format = 'G', digits = d) }"
    ∷ "function(s, d, w, ns, fl) {n <- as.numeric(strsplit(s, '[ ,;\\t\\n]+', perl = TRUE)[[1]]); n <- n[seq_len(min(500L, length(n)))]; formatC(n, digits = d, width = w,  format = 'fg', flag = fl); formatC(n, format = 'fg', digits = d, flag = '#') }"
    ∷ "function(s, d, w, ns, fl) {n <- as.numeric(strsplit(s, '[ ,;\\t\\n]+', perl = TRUE)[[1]]); n <- n[seq_len(min(500L, length(n)))]; i <- as.integer(n); formatC(i, width = w,  format = 'd', flag = fl); formatC(n, format = 'd', big.mark = ',');  formatC(i, mode = 'integer', width = -w) }"
    ∷ "function(s, d, w, ns, fl) { formatC(s, width = w, flag = fl);  formatC(s, width = -w, format = 's'); formatC(s, mode = 'character',  width = w, flag = '-') }"
    ∷ "function(s, d, w, ns, fl) {n <- as.numeric(strsplit(s, '[ ,;\\t\\n]+', perl = TRUE)[[1]]); n <- n[seq_len(min(500L, length(n)))]; i <- as.integer(n); format(i);  format(i, width = w); format(i, big.mark = ','); toString(i, width = w) }"
    ∷ "function(s, d, w, ns, fl) {n <- as.numeric(strsplit(s, '[ ,;\\t\\n]+', perl = TRUE)[[1]]); n <- n[seq_len(min(500L, length(n)))]; z <- complex(real = n, imaginary = rev(n));  format(z); format(z, digits = d, nsmall = ns); format(as.complex(n), width = w) }"
    ∷ "function(s, d, w, ns, fl) {n <- as.numeric(strsplit(s, '[ ,;\\t\\n]+', perl = TRUE)[[1]]); n <- n[seq_len(min(500L, length(n)))]; i <- as.integer(n); i[is.na(i)] <- 0L;  format(as.raw(i %% 256L)); format(as.logical(n)); format(is.na(n), width = w);  format(list(s, n, i)) }"
    ∷ "function(s, d, w, ns, fl) {n <- as.numeric(strsplit(s, '[ ,;\\t\\n]+', perl = TRUE)[[1]]); n <- n[seq_len(min(500L, length(n)))]; toString(n); toString(s, width = w);  format(n, trim = TRUE, drop0trailing = TRUE); format(n, zero.print = '.') }"
    ∷ "function(s, d, w, ns, fl) {n <- as.numeric(strsplit(s, '[ ,;\\t\\n]+', perl = TRUE)[[1]]); n <- n[seq_len(min(500L, length(n)))]; print(n); print(n, digits = max(1L, d));  print(as.integer(n)); print(complex(real = n, imaginary = -n)) }"
    ∷ "function(s, d, w, ns, fl) { print(s, quote = FALSE); print(s);  print(noquote(s)); print(s, max = w); print(c(a = s)) }"
    ∷ "function(s, d, w, ns, fl) {n <- as.numeric(strsplit(s, '[ ,;\\t\\n]+', perl = TRUE)[[1]]); n <- n[seq_len(min(500L, length(n)))]; m <- matrix(n, nrow = max(1L, w %% 7L));  print(m); print(m, digits = max(1L, d)); print(t(m), quote = FALSE);  print(array(n, c(2L, 2L, max(1L, length(n) %/% 4L)))) }"
    ∷ "function(s, d, w, ns, fl) {n <- as.numeric(strsplit(s, '[ ,;\\t\\n]+', perl = TRUE)[[1]]); n <- n[seq_len(min(500L, length(n)))]; print(list(s, n, list(n, s)));  print(structure(n, names = rep_len(s, length(n))));  print(structure(n, class = 'nosuchclass')); utils::str(list(s, n)) }"
    ∷ "function(s, d, w, ns, fl) {n <- as.numeric(strsplit(s, '[ ,;\\t\\n]+', perl = TRUE)[[1]]); n <- n[seq_len(min(500L, length(n)))]; old <- options(OutDec = ',', digits = max(1L, d),  scipen = w - 20L); on.exit(options(old)); format(n); print(n); formatC(n);  format(n, nsmall = ns) }"
    ∷ "function(s, d, w, ns, fl) {n <- as.numeric(strsplit(s, '[ ,;\\t\\n]+', perl = TRUE)[[1]]); n <- n[seq_len(min(500L, length(n)))]; print(summary(n)); print(summary(s));  print(data.frame(a = n, b = rep_len(s, length(n)))) }"
    ∷ "function(s, d, w, ns, fl) {n <- as.numeric(strsplit(s, '[ ,;\\t\\n]+', perl = TRUE)[[1]]); n <- n[seq_len(min(500L, length(n)))]; cat(n, s, sep = ' ', fill = max(1L, w));  cat(s, fill = TRUE); cat(n, sep = '\\n'); cat(s, n, sep = ', ') }"
    ∷ "function(s, d, w, ns, fl) {n <- as.numeric(strsplit(s, '[ ,;\\t\\n]+', perl = TRUE)[[1]]); n <- n[seq_len(min(500L, length(n)))]; round(n, d - 10L); signif(n, max(1L, d));  format(round(n, d - 10L), nsmall = ns); formatC(signif(n, max(1L, d)), format = 'fg') }"
    ∷ "function(s, d, w, ns, fl) {n <- as.numeric(strsplit(s, '[ ,;\\t\\n]+', perl = TRUE)[[1]]); n <- n[seq_len(min(500L, length(n)))]; format(n, digits = d, width = w, justify = 'left');  format(c(n, NA), na.encode = TRUE); format(as.factor(s)); format(s, width = w,  justify = 'left', na.encode = FALSE); format(NULL); format(NA) }"
    ∷ []

abbrev pub calls : List Function → List Term
calls wrappers =
    map (λ w. lang w (vec x_str & vec digits & vec width & vec nsmall & vec Vec.flag & nil))
      wrappers

unfoldable pub init : Boot → Host → M (List Term)
init b h = booted b sources λ wrappers. do
  demand h sink
  perform_ (set_integer digits 7)
  perform_ (set_integer width 0)
  perform_ (set_integer nsmall 0)
  perform_ (set_flag 0)
  perform_ (set_element x_str native (codes "1.5 2 3"))
  return (calls wrappers)

unfoldable pub run : Host → Bytes → M (Unit {0})
run h input =
    if ltb (length input) (header + 1)
      || ltb max_input (length input)
      || has_byte 0 (drop header input)
    then finish
    else do
      d ← checked (get_elem? input 1)
      perform_ (set_integer digits (1 + d % 22))
      w ← checked (get_elem? input 2)
      perform_ (set_integer width (w % 41))
      ns ← checked (get_elem? input 3)
      perform_ (set_integer nsmall (ns % 21))
      f ← checked (get_elem? input 4)
      i ← checked (slot n_flags (f % n_flags))
      perform_ (set_flag i)
      buffer ← checked (fill max_input (drop header input))
      require h (set_string x_str native (c_string buffer)) (do
        b ← checked (get_elem? input 0)
        k ← checked (slot n_calls (b % n_calls))
        perform_ (eval_silent k))
