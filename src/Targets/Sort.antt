-- ===== src/Targets/Sort.antt =====
-- harnesses/sort.c: sorting, ordering, ranking and hashing of the input's lines.
use r_oss_fuzz.Base.{
  ℕ, zero, suc, ◌+◌, ◌*◌, ◌%◌, ◌||◌, none, some, List, [], ◌∷◌, map, Bytes, length, get_elem?, drop,
  ltb, ◌==◌, if◌then◌else◌,
}
use Prim.Native.String.{String}
use r_oss_fuzz.Host.{
  set_lines, eval_silent, Host, M, ◌>>=◌, return, finish, checked, require, perform_, has_byte,
  break_line, slot,
}
use r_oss_fuzz.Host.Boot.{Boot, booted}
use r_oss_fuzz.Host.Call.{Term, Function, raw, lang, nil, ◌&◌}

abbrev pub max_input : ℕ
max_input = 1024 * 16

abbrev pub n_calls : ℕ
n_calls = 22

abbrev pub max_lines : ℕ
max_lines = 2000

abbrev pub sources : List String
sources =
    "function(x) { sort(x, method = 'radix'); sort(x, method = 'radix',  decreasing = TRUE, na.last = TRUE) }"
    ∷ "function(x) { sort(x, method = 'shell'); sort(x, method = 'shell',  decreasing = TRUE, na.last = FALSE) }"
    ∷ "function(x) { n <- as.numeric(x); sort(n, method = 'quick');  sort(n, method = 'radix', na.last = TRUE); sort(n, method = 'shell') }"
    ∷ "function(x) { i <- as.integer(as.numeric(x)); sort(i, method = 'shell',  na.last = FALSE); sort(i, method = 'radix', decreasing = TRUE);  sort(i, method = 'quick') }"
    ∷ "function(x) { order(x, method = 'radix'); order(x, method = 'radix',  decreasing = TRUE, na.last = NA) }"
    ∷ "function(x) { n <- as.numeric(x); order(x, n, method = 'radix',  decreasing = c(TRUE, FALSE)); order(n, x, method = 'radix') }"
    ∷ "function(x) { n <- as.numeric(x); order(x, method = 'shell');  order(n, method = 'shell', na.last = NA); order(n, x) }"
    ∷ "function(x) { n <- as.numeric(x); rank(x, ties.method = 'min');  rank(n, ties.method = 'average'); rank(x, ties.method = 'first');  rank(n, ties.method = 'last', na.last = 'keep') }"
    ∷ "function(x) { xtfrm(x); xtfrm(factor(x)); xtfrm(as.numeric(x)) }"
    ∷ "function(x) { unique(x); duplicated(x); anyDuplicated(x);  unique(x, fromLast = TRUE); duplicated(x, fromLast = TRUE) }"
    ∷ "function(x) { n <- as.numeric(x); unique(n); duplicated(n);  anyDuplicated(n, fromLast = TRUE); i <- as.integer(n); unique(i);  duplicated(i); match(i, rev(i)); match(n, rev(n)) }"
    ∷ "function(x) { n <- as.numeric(x); z <- complex(real = n, imaginary = rev(n));  unique(z); duplicated(z); match(z, rev(z)); anyDuplicated(z) }"
    ∷ "function(x) { i <- as.integer(as.numeric(x)); i[is.na(i)] <- 0L;  r <- as.raw(i %% 256L); unique(r); duplicated(r); match(r, rev(r));  l <- as.logical(i %% 3L - 1L); unique(l); duplicated(l); match(l, rev(l)) }"
    ∷ "function(x) { l <- as.list(x); unique(l); duplicated(l); match(l, rev(l));  anyDuplicated(l) }"
    ∷ "function(x) { match(x, rev(x)); x %in% rev(x); charmatch(x, rev(x));  pmatch(x, rev(x), duplicates.ok = TRUE); pmatch(x, rev(x)) }"
    ∷ "function(x) { n <- as.numeric(x); n[is.na(n)] <- 0; rowsum(n, group = x);  rowsum(matrix(n, ncol = 1L), group = x, reorder = FALSE) }"
    ∷ "function(x) { if (length(x) >= 3L) { n <- as.numeric(x);  sort(n, partial = c(2L, 3L), na.last = TRUE); sort.int(as.integer(n), partial = 1L);  sort.int(n, partial = c(1L, 3L), na.last = TRUE) } }"
    ∷ "function(x) { n <- as.numeric(x); is.unsorted(x); is.unsorted(n);  is.unsorted(x, strictly = TRUE); is.unsorted(n, na.rm = TRUE) }"
    ∷ "function(x) { u <- x; Encoding(u) <- ifelse(validUTF8(u), 'UTF-8', 'unknown');  sort(u, method = 'radix'); order(u, method = 'radix'); unique(u);  match(u, x); duplicated(u) }"
    ∷ "function(x) { l <- x; Encoding(l) <- 'latin1'; sort(l, method = 'radix');  order(l, method = 'shell'); unique(l); match(l, x); duplicated(c(l, x)) }"
    ∷ "function(x) { f <- factor(x); sort(f); order(f, method = 'radix');  unique(f); duplicated(f); match(f, rev(f)); rank(f) }"
    ∷ "function(x) { sort(x, index.return = TRUE); rev(sort(x, decreasing = TRUE));  n <- as.numeric(x); sort(n, index.return = TRUE, method = 'radix');  h <- utils::hashtab('identical'); k <- x[seq_len(min(50L, length(x)))];  for (s in k) utils::sethash(h, s, nchar(s)); for (s in k) utils::gethash(h, s);  utils::numhash(h) }"
    ∷ []

-- Each call's argument is the vector of lines, which `set_lines` puts in with `SETCADR`.
abbrev pub calls : List Function → List Term
calls wrappers = map (λ w. lang w (raw & nil)) wrappers

unfoldable pub init : Boot → M (List Term)
init b = booted b sources λ wrappers. return (calls wrappers)

-- How many lines `set_lines` makes: the first loop, from `n` on.
unfoldable pub count_lines : ℕ → Bytes → ℕ
count_lines n [] = n
count_lines n (c ∷ l) =
    let rest = count_lines (if c == b'\n' then n + 1 else n) l in
    if ltb n max_lines then rest else n

-- The second loop, with the lines that are left to fill: the last one takes all that is left.
unfoldable pub split_lines : ℕ → Bytes → List Bytes
unfolding break_line
split_lines zero p = []
split_lines (suc zero) p = p ∷ []
split_lines (suc (suc n)) p = elim (break_line p) [
  | none ↦ p ∷ split_lines (suc n) []
  | some (line, rest) ↦ line ∷ split_lines (suc n) rest
]

unfoldable pub lines : Bytes → List Bytes
unfolding count_lines split_lines
lines p = split_lines (count_lines 1 p) p

unfoldable pub run : Host → Bytes → M (Unit {0})
run h input =
    if ltb (length input) 2 || ltb max_input (length input) || has_byte 0 (drop 1 input)
    then finish
    else require h (set_lines (lines (drop 1 input))) (do
      b ← checked (get_elem? input 0)
      i ← checked (slot n_calls (b % n_calls))
      perform_ (eval_silent i))
