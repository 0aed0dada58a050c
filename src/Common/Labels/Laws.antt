-- ===== src/Common/Labels/Laws.antt =====
-- `fuzz_do_deparse` of harnesses/common.h stays within its buffer and keeps whole lines.
use r_oss_fuzz.Base.{
  ◌+◌, ◌^◌, ◌≤◌, ◌<◌, true, false, some, List, [], ◌∷◌, ◌++◌, Bytes, length, length-append, All,
  ◌≡◌, ◌⊎◌, inl, inr, refl, ap, sym, ◌∙◌, arith, dec_lt,
}
use mathlib.Core.List.{append_assoc, append-nil}
use r_oss_fuzz.Common.Labels.{
  label_max, indent, ellipsis, write_at_end, fuzz_label_append_line, fuzz_do_deparse,
}

abbrev pub indented : Bytes → Bytes
indented line = indent ++ (line ++ (b'\n' ∷ []))

abbrev pub body : List Bytes → Bytes
body [] = []
body (line ∷ lines) = indented line ++ body lines

-- No R string is longer.
abbrev pub IsShort : Bytes → Type 0
IsShort line = length line < 2 ^ 31

-- A text leaves room for the ellipsis, its NUL and one more byte.
abbrev pub Fits : Bytes → Type 0
Fits text = length text + length ellipsis + 1 < label_max

-- The header and all of the lines, or the header, the lines in front of one that does not fit, and the
-- ellipsis.
abbrev pub Shows : Bytes → List Bytes → Bytes → Type 0
Shows header lines out =
    ((out ≡ header ++ body lines) × Fits out)
    ⊎ ((shown : List Bytes) × (line : Bytes) × (rest : List Bytes) × (lines ≡ shown ++ line ∷ rest)
        × Fits (header ++ body shown)
        × (label_max ≤ length (header ++ body shown) + length (indented line) + length ellipsis + 1)
        × (out ≡ header ++ (body shown ++ ellipsis)))

module _ (text line : Bytes) (short : IsShort line) (small : length text < 4087) where
  append_full :
      4087 ≤ length text + 4 + length line + 1
      → fuzz_label_append_line text line ≡ some (false, text)
  unfolding fuzz_label_append_line
  append_full h = ground arith

  append_fits :
      length text + 4 + length line + 1 < 4087
      → fuzz_label_append_line text line ≡ some (true, text ++ indented line)
  unfolding fuzz_label_append_line
  append_fits h = ground (arith, length-append line (b'\n' ∷ []))

write_ellipsis :
    (text : Bytes) → length text < 4087 → write_at_end text ellipsis ≡ some (text ++ ellipsis)
write_ellipsis text h = ground arith

Shows-cons :
    (header line : Bytes) (lines : List Bytes) (out : Bytes)
    → Shows (header ++ indented line) lines out
    → Shows header (line ∷ lines) out
Shows-cons header line lines out (inl (e, f)) =
    inl (e ∙ append_assoc header (indented line) (body lines), f)
Shows-cons header line lines out (inr (shown, cut, rest, e, f, g, o)) = inr (
  line ∷ shown,
  cut,
  rest,
  ap (λ l. line ∷ l) e,
  rw (sym (append_assoc header (indented line) (body shown))) f,
  rw (sym (append_assoc header (indented line) (body shown))) g,
  o
      ∙ append_assoc header (indented line) (body shown ++ ellipsis)
      ∙ ap (λ x. header ++ x) (sym (append_assoc (indented line) (body shown) ellipsis)),
)

-- For a header that leaves room for the ellipsis and lines that are no longer than an R string can be,
-- no write passes the end of the buffer, the text and its NUL fit in 4096 bytes, and the text is the
-- header with all lines, or with those in front of the first one behind which there would be no room for
-- the ellipsis, its NUL and one more byte, and the ellipsis.
pub fuzz_do_deparse-Shows :
    (header : Bytes) (lines : List Bytes)
    → length header < 4087
    → All IsShort lines
    → (out : Bytes) × (fuzz_do_deparse header lines ≡ some out)
      × (length out < label_max)
      × Shows header lines out
unfolding fuzz_do_deparse
fuzz_do_deparse-Shows header [] h s =
    (header, refl, omega arith, inl (sym (append-nil header), omega arith))
fuzz_do_deparse-Shows header (line ∷ lines) h s =
    elim (dec_lt (length header + 4 + length line + 1) 4087) [
      | no full ↦ (
        header ++ ellipsis,
        rw (append_full header line s.0 h (omega arith), fuzz_do_deparse) (write_ellipsis header h),
        omega (arith, length-append header ellipsis),
        inr (
          [],
          line,
          lines,
          refl,
          rw (append-nil header) (omega arith),
          rw (append-nil header) (
              omega (
                arith,
                length-append indent (line ++ (b'\n' ∷ [])),
                length-append line (b'\n' ∷ []),
              )),
          refl,
        ),
      )
      | yes fits ↦
          let r =
            fuzz_do_deparse-Shows (header ++ indented line) lines
              (omega (
                arith,
                length-append header (indented line),
                length-append indent (line ++ (b'\n' ∷ [])),
                length-append line (b'\n' ∷ []),
              ))
              s.1 in
          (
            r.0,
            rw (append_fits header line s.0 h fits, fuzz_do_deparse) r.1,
            r.2,
            Shows-cons header line lines r.0 r.3,
          )
    ]
