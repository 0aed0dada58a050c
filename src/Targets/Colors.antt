-- ===== src/Targets/Colors.antt =====
-- harnesses/colors.c: colour strings and numeric colour construction.
use r_oss_fuzz.Base.{
  ℕ, ◌*◌, ◌%◌, ◌||◌, List, [], ◌∷◌, map, Bytes, length, get_elem?, drop, codes, ltb, if◌then◌else◌,
}
use Prim.Native.String.{String}
use r_oss_fuzz.Host.{
  x_str, native, set_string, set_element, eval_silent, Host, M, ◌>>=◌, ◌>>◌, return, finish,
  checked, require, perform_, for_each_slot, has_byte, c_string, fill, slot,
}
use r_oss_fuzz.Host.Boot.{Boot, booted}
use r_oss_fuzz.Host.Call.{Term, vec, lang, closure, nil, ◌&◌}

abbrev pub max_input : ℕ
max_input = 1024 * 16

abbrev pub n_calls : ℕ
n_calls = 16

abbrev pub sources : List String
sources =
    "function(x) { cols <- strsplit(x, \"\\n\", fixed = TRUE)[[1L]]; col2rgb(cols) }"
    ∷ "function(x) { cols <- strsplit(x, \"\\n\", fixed = TRUE)[[1L]]; col2rgb(cols, alpha = TRUE) }"
    ∷ "function(x) { cols <- strsplit(x, \"\\n\", fixed = TRUE)[[1L]]; on.exit(palette(\"default\")); palette(cols); list(palette(), col2rgb(seq_len(2L * length(cols))), col2rgb(cols)) }"
    ∷ "function(x) { cols <- strsplit(x, \"\\n\", fixed = TRUE)[[1L]]; adjustcolor(cols, alpha.f = 0.5, red.f = 1.5, offset = c(0.1, 0, -0.1, 0)) }"
    ∷ "function(x) { cols <- strsplit(x, \"\\n\", fixed = TRUE)[[1L]]; list(colorRamp(cols, space = \"Lab\")(seq(0, 1, length.out = 8L)), colorRampPalette(cols, bias = 2)(5L)) }"
    ∷ "function(x) { cols <- strsplit(x, \"\\n\", fixed = TRUE)[[1L]]; list(hcl.colors(8L, palette = cols[1L], rev = TRUE), rgb(t(col2rgb(cols, alpha = TRUE)), maxColorValue = 255, names = cols)) }"
    ∷ "function(x) { cols <- strsplit(x, \"\\n\", fixed = TRUE)[[1L]]; v <- suppressWarnings(as.numeric(cols)); w <- abs(v[is.finite(v)]); list(rgb(w %% 256, rev(w) %% 256, (w / 2) %% 256, maxColorValue = 255), rgb(v, rev(v), v / 2, maxColorValue = 255)) }"
    ∷ "function(x) { cols <- strsplit(x, \"\\n\", fixed = TRUE)[[1L]]; v <- suppressWarnings(as.numeric(cols)); w <- abs(v[is.finite(v)]); list(rgb(w %% 1, rev(w) %% 1, w %% 1, w %% 1), rgb(v, v, v, v, maxColorValue = max(v, 1, na.rm = TRUE))) }"
    ∷ "function(x) { cols <- strsplit(x, \"\\n\", fixed = TRUE)[[1L]]; v <- suppressWarnings(as.numeric(cols)); w <- abs(v[is.finite(v)]); list(hsv(w %% 1, rev(w) %% 1, w %% 1, alpha = w %% 1), hsv(v, v, v)) }"
    ∷ "function(x) { cols <- strsplit(x, \"\\n\", fixed = TRUE)[[1L]]; v <- suppressWarnings(as.numeric(cols)); w <- abs(v[is.finite(v)]); list(hcl(w, w * 10, w %% 100, fixup = TRUE), hcl(w, rev(w), w, alpha = w %% 1, fixup = FALSE), hcl(v, v, v)) }"
    ∷ "function(x) { cols <- strsplit(x, \"\\n\", fixed = TRUE)[[1L]]; v <- suppressWarnings(as.numeric(cols)); w <- abs(v[is.finite(v)]); list(gray(w %% 1, rev(w) %% 1), gray(v)) }"
    ∷ "function(x) { cols <- strsplit(x, \"\\n\", fixed = TRUE)[[1L]]; v <- suppressWarnings(as.numeric(cols)); w <- abs(v[is.finite(v)]); m <- matrix(rep_len(w %% 256, 3L * max(1L, length(w) %/% 3L)), nrow = 3L); list(rgb2hsv(m, maxColorValue = 255), convertColor(t(m) / 255, from = \"sRGB\", to = \"Lab\"), rgb2hsv(v, rev(v), v, maxColorValue = 255)) }"
    ∷ "function(x) { cols <- strsplit(x, \"\\n\", fixed = TRUE)[[1L]]; v <- suppressWarnings(as.numeric(cols)); w <- abs(v[is.finite(v)]); list(col2rgb(w %% 1e6), col2rgb(as.integer(w %% 1e6)), col2rgb(v), col2rgb(v > 0)) }"
    ∷ "function(x) { cols <- strsplit(x, \"\\n\", fixed = TRUE)[[1L]]; v <- suppressWarnings(as.numeric(cols)); w <- abs(v[is.finite(v)]); list(rgb2hsv(w %% 256, rev(w) %% 256, (w * 3) %% 256, maxColorValue = 255), rgb2hsv(v, rev(v), v %% 256, maxColorValue = 255)) }"
    ∷ "function(x) { b <- as.integer(charToRaw(x)); list(rgb(b, rev(b), (b * 7L) %% 256L, maxColorValue = 255), col2rgb(b), hsv(b / 255, 1, b / 255, alpha = rev(b) / 255)) }"
    ∷ "function(x) { b <- as.integer(charToRaw(x)); on.exit(palette(\"default\")); palette(gray(b / 255)); list(palette(), col2rgb(b), adjustcolor(b, alpha.f = 0.3)) }"
    ∷ []

abbrev pub calls : List Term
calls = map (λ s. lang (closure s) (vec x_str & nil)) sources

unfoldable pub init : Boot → M (List Term)
unfolding for_each_slot
init b = booted b sources λ wrappers. do
  perform_ (set_element x_str native (codes "red\n#FF000080\n3\n0.5\ntransparent"))
  for_each_slot eval_silent n_calls
  return (map (λ w. lang w (vec x_str & nil)) wrappers)

unfoldable pub run : Host → Bytes → M (Unit {0})
run h input =
    if ltb (length input) 2 || ltb max_input (length input) || has_byte 0 (drop 1 input)
    then finish
    else do
      buffer ← checked (fill max_input (drop 1 input))
      require h (set_string x_str native (c_string buffer)) (do
        b ← checked (get_elem? input 0)
        i ← checked (slot n_calls (b % n_calls))
        perform_ (eval_silent i))
