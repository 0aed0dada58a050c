-- ===== src/Eval/Utf8/Laws.antt =====
-- `eval_valid_utf8` reads within its input, comes to an end, and decides well-formed UTF-8.
use r_oss_fuzz.Base.{
  ℕ, zero, suc, ◌+◌, ◌≤◌, ◌<◌, Bool, true, false, Option, none, some, [], ◌∷◌, ◌++◌, Bytes, length,
  length-append, get_elem?, drop, All, All-drop, Suffix, Suffix-drop, Option-cases, ◌≡◌, ◌⊎◌, ◌↔◌,
  inl, inr, refl, sym, ap, ◌∙◌, arith,
}
use mathlib.Core.Option.{some-injective}
use mathlib.Core.Path.{subst}
use r_oss_fuzz.Eval.Utf8.{next, reject, round, valid_from, eval_valid_utf8}
use r_oss_fuzz.Eval.Utf8.Encoding.{encode, encode_all, IsUtf8, IsByte}
use r_oss_fuzz.Eval.Utf8.Decode.{width, step_of, round-width}
use r_oss_fuzz.Eval.Utf8.Width.{Found, width-encode, width-decode}

drop-append : (a b : Bytes) → drop (length a) (a ++ b) ≡ b
drop-append [] b = refl
drop-append (x ∷ a) b = drop-append a b

encode-pos : (c : ℕ) → 0 < length (encode c)
encode-pos c = ground arith

Found-size : (l : Bytes) (n : ℕ) → Found l n → (0 < n) × (length l ≡ n + length (drop n l))
Found-size l n (c, (scalar, split, size)) = (
  omega (arith, encode-pos c, size),
  omega (arith, ap length split, length-append (encode c) (drop n l), size),
)

-- A text that begins with a sequence is well formed exactly when the rest is.
IsUtf8-cons : (l : Bytes) (n : ℕ) → Found l n → IsUtf8 (drop n l) → IsUtf8 l
unfolding encode_all
IsUtf8-cons l n (c, (scalar, split, size)) (cs, all, e) =
    (c ∷ cs, (scalar, all), split ∙ ap (λ r. encode c ++ r) e)

-- A text that is not empty and well formed begins with a sequence, and the rest is well formed.
IsUtf8-inv :
    (a : ℕ) (l : Bytes)
    → IsUtf8 (a ∷ l)
    → (n : ℕ) × (width (a ∷ l) ≡ some n) × IsUtf8 (drop n (a ∷ l))
unfolding encode_all
IsUtf8-inv a l ([], all, e) = cc
IsUtf8-inv a l (c ∷ cs, all, e) = (
  length (encode c),
  rw e (width-encode c (encode_all cs) all.0),
  (cs, all.1, rw e (drop-append (encode c) (encode_all cs))),
)

-- The loop from index `i` on decides whether what is left is well formed.
abbrev Decides : Option Bool → Bytes → Type 0
Decides r l = ((r ≡ some true) × IsUtf8 l) ⊎ ((r ≡ some false) × (¬ IsUtf8 l))

Decides-cons :
    (r : Option Bool) (a : ℕ) (l : Bytes) (n : ℕ)
    → All IsByte (a ∷ l)
    → width (a ∷ l) ≡ some n
    → Decides r (drop n (a ∷ l))
    → Decides r (a ∷ l)
Decides-cons r a l n h e (inl (t, good)) =
    inl (t, IsUtf8-cons (a ∷ l) n (width-decode (a ∷ l) h e) good)
Decides-cons r a l n h e (inr (f, bad)) = inr (
  f,
  λ good.
      let (m, em, rest) = IsUtf8-inv a l good in
      bad (subst (λ k. IsUtf8 (drop k (a ∷ l))) (some-injective m n (sym em ∙ e)) rest),
)

module _ (s : Bytes) (fuel i : ℕ) where
  valid_from-end : length s ≤ i → valid_from s (suc fuel) i ≡ some true
  unfolding valid_from
  valid_from-end h = ground arith

  valid_from-reject :
      i < length s → round s i ≡ some reject → valid_from s (suc fuel) i ≡ some false
  unfolding valid_from
  valid_from-reject h e = ground arith

  valid_from-next :
      (j : ℕ)
      → i < length s
      → round s i ≡ some (next j)
      → valid_from s (suc fuel) i ≡ valid_from s fuel j
  unfolding valid_from
  valid_from-next j h e = ground arith

nil-IsUtf8 : [] ≡ encode_all []
unfolding encode_all
nil-IsUtf8 = refl

none≢some : {n : ℕ} → ¬ (none ≡ some n)
none≢some e = cc

valid_from-Decides :
    (s : Bytes) (fuel i : ℕ) (l : Bytes)
    → length l < fuel
    → All IsByte l
    → Suffix s i l
    → Decides (valid_from s fuel i) l
valid_from-Decides s zero i l h b f = absurd (omega arith)
valid_from-Decides s (suc fuel) i [] h b f =
    inl (valid_from-end s fuel i (omega (arith, f.size)), ([], tt, nil-IsUtf8))
valid_from-Decides s (suc fuel) i (a ∷ l) h b f = elim (Option-cases (width (a ∷ l))) [
  | inl stop ↦ inr (
    valid_from-reject s fuel i inside (round-width s i a l f ∙ ap (step_of i) stop),
    λ good. let (n, e, rest) = IsUtf8-inv a l good in none≢some (sym stop ∙ e),
  )
  | inr (n, go) ↦
      let z : (0 < n) × (length (a ∷ l) ≡ n + length (drop n (a ∷ l))) =
        Found-size (a ∷ l) n (width-decode (a ∷ l) b go) in
      rw (valid_from-next s fuel i (i + n) inside (round-width s i a l f ∙ ap (step_of i) go)) (
        Decides-cons _ a l n b go (
          valid_from-Decides s fuel (i + n) (drop n (a ∷ l)) (omega arith)
            (All-drop IsByte n (a ∷ l) b) (Suffix-drop s i n (a ∷ l) (omega arith) f)))
]
  where
    inside : i < length s
    inside = omega (arith, f.size)

eval_valid_utf8-Decides : (s : Bytes) → All IsByte s → Decides (eval_valid_utf8 s) s
unfolding eval_valid_utf8
eval_valid_utf8-Decides s b =
    valid_from-Decides s (suc (length s)) 0 s (omega arith) b
      (record { size = omega arith; at = λ k. ap (get_elem? s) (omega arith) })

-- `eval_valid_utf8` never reads outside its input and returns, whatever the bytes are.
pub eval_valid_utf8_total : (s : Bytes) → All IsByte s → (b : Bool) × (eval_valid_utf8 s ≡ some b)
eval_valid_utf8_total s b = elim (eval_valid_utf8-Decides s b) [
  | inl (t, good) ↦ (true, t)
  | inr (f, bad) ↦ (false, f)
]

-- On bytes, `eval_valid_utf8` returns and reads none outside of its input, and it accepts exactly the
-- sequences that encode a list of Unicode scalar values in UTF-8: no overlong form, no surrogate, nothing
-- above U+10FFFF, nothing truncated.
pub eval_valid_utf8-IsUtf8 :
    (s : Bytes) → All IsByte s → (b : Bool) × (eval_valid_utf8 s ≡ some b) × ((b ≡ true) ↔ IsUtf8 s)
eval_valid_utf8-IsUtf8 s b = elim (eval_valid_utf8-Decides s b) [
  | inl (t, good) ↦ (true, t, (λ e. good, λ g. refl))
  | inr (f, bad) ↦ (false, f, (λ e. cc, λ g. absurd (bad g)))
]
