-- ===== src/Targets/Character/Chartr/Chars.antt =====
-- A text as the characters that `fuzz_decode_utf8` of harnesses/character.c finds in it.
use r_oss_fuzz.Base.{
  ℕ, zero, suc, ◌+◌, ◌≤◌, some, List, [], ◌∷◌, ◌++◌, map, Bytes, length, length-append, take, drop,
  length-drop, Suffix, Suffix-drop, ◌≡◌, refl, ap, ◌∙◌, arith,
}
use mathlib.Core.Path.{subst}
use r_oss_fuzz.Targets.Character.Chartr.{decode_some}
use r_oss_fuzz.Targets.Character.Chartr.Front.{front, fuzz_decode_utf8-front, front_bounds}

-- The characters of a text by the lenient decoder, each with its width.
pub data Chars : Bytes → List (ℕ × ℕ) → Type 0 where
  done : Chars [] []
  char :
      {c : ℕ} {l l' : Bytes} {a : ℕ × ℕ} {cs : List (ℕ × ℕ)}
      → front c l ≡ a
      → drop a.1 (c ∷ l) ≡ l'
      → Chars l' cs
      → Chars (c ∷ l) (a ∷ cs)

abbrev pub points : List (ℕ × ℕ) → List ℕ
points cs = map (λ a. a.0) cs

-- The bytes that are left, with the NUL behind them.
abbrev pub Rest : Bytes → ℕ → Bytes → Type 0
Rest s i l = Suffix s i (l ++ 0 ∷ [])

drop_inside : (n : ℕ) (l : Bytes) → n ≤ length l → drop n (l ++ 0 ∷ []) ≡ drop n l ++ 0 ∷ []
drop_inside zero l h = refl
drop_inside (suc n) [] h = absurd (omega arith)
drop_inside (suc n) (c ∷ l) h = drop_inside n l (omega arith)

Rest-drop :
    (s : Bytes) (i n : ℕ) (l : Bytes) → n ≤ length l → Rest s i l → Rest s (i + n) (drop n l)
Rest-drop s i n l h f =
    rw (← drop_inside n l h)
      (Suffix-drop s i n (l ++ 0 ∷ []) (omega (arith, length-append l (0 ∷ []))) f)

-- Where a character ends, the next one starts.
pub record After (s : Bytes) (i : ℕ) (l : Bytes) (w : ℕ) (l' : Bytes) : Type 0 where
  pub rest : Rest s (i + w) l'
  pub moves : 1 ≤ w
  pub size : i + length l ≡ i + w + length l'

pub after :
    (s : Bytes) (i c : ℕ) (l : Bytes) (a : ℕ × ℕ) (l' : Bytes)
    → front c l ≡ a
    → drop a.1 (c ∷ l) ≡ l'
    → Rest s i (c ∷ l)
    → After s i (c ∷ l) a.1 l'
after s i c l a l' e q f = record {
  rest = subst (Rest s (i + a.1)) q (Rest-drop s i a.1 (c ∷ l) w.1 f);
  moves = w.0;
  size = omega (arith, w, ap length q, length-drop a.1 (c ∷ l));
}
  where
    w : (1 ≤ a.1) × (a.1 ≤ suc (length l))
    w = subst (λ x. (1 ≤ x.1) × (x.1 ≤ suc (length l))) e (front_bounds c l)

-- The characters that the inner loop decodes are the first ones that are left.
pub decode_some-take :
    (s : Bytes) (n j m : ℕ) {l : Bytes} {cs : List (ℕ × ℕ)}
    → Chars l cs
    → Rest s j l
    → n ≡ j + length l
    → decode_some s n j m ≡ some (take m cs)
unfolding decode_some
decode_some-take s n j zero c f h = refl
decode_some-take s n j (suc m) done f h = ground arith
decode_some-take s n j (suc m) (char {c} {l} {l'} {a} e q r) f h =
    let w = after s j c l a l' e q f in
    ground (
      arith,
      fuzz_decode_utf8-front s j c l f ∙ ap some e,
      decode_some-take s n (j + a.1) m r w.rest (h ∙ w.size),
    )
