-- ===== src/Common/Labels/Table/Registers.antt =====
-- Lists of calls without repetition, up to the size of the table of labels of harnesses/common.h.
use r_oss_fuzz.Base.{
  arith, refl, sym, ap, ◌∙◌, ◌≡◌, ◌⊎◌, inl, inr, ◌≤◌, ℕ, suc, Bool, true, false, ◌||◌, Option, none,
  some, List, [], ◌∷◌, ◌++◌, length, ◌==◌, ==_iff, if◌then◌else◌, Bool-cases,
}
use r_oss_fuzz.Common.Labels.Table.{max_labels}

abbrev pub has : ℕ → List ℕ → Bool
has c [] = false
has c (x ∷ l) = x == c || has c l

abbrev pub asks : ℕ → List (Option ℕ) → Bool
asks c [] = false
asks c (none ∷ l) = asks c l
asks c (some x ∷ l) = x == c || asks c l

-- No call has two labels.
abbrev pub IsDistinct : List ℕ → Type 0
IsDistinct [] = Unit
IsDistinct (x ∷ l) = (has x l ≡ false) × IsDistinct l

-- What one registration makes of the calls that have a label.
abbrev pub register : Option ℕ → List ℕ → List ℕ
register none l = l
register (some c) l = if has c l then l else if length l == max_labels then l else l ++ (c ∷ [])

has-append : (c d : ℕ) (l : List ℕ) → has c (l ++ (d ∷ [])) ≡ (has c l || d == c)
has-append c d [] = ground arith
has-append c d (x ∷ l) = let i = has-append c d l in ground arith

length-append : (d : ℕ) (l : List ℕ) → length (l ++ (d ∷ [])) ≡ suc (length l)
length-append d [] = refl
length-append d (x ∷ l) = ap suc (length-append d l)

IsDistinct-append :
    (d : ℕ) (l : List ℕ) → has d l ≡ false → IsDistinct l → IsDistinct (l ++ (d ∷ []))
IsDistinct-append d [] h i = (refl, tt)
IsDistinct-append d (x ∷ l) h i =
    let k = has-append x d l in
    let j = i.0 in (ground arith, IsDistinct-append d l (ground arith) i.1)

register-IsDistinct : (o : Option ℕ) (l : List ℕ) → IsDistinct l → IsDistinct (register o l)
register-IsDistinct none l i = i
register-IsDistinct (some c) l i = elim (Bool-cases (has c l)) [
  | inl e ↦ rw e i
  | inr e ↦ elim (Bool-cases (length l == max_labels)) [
    | inl f ↦ rw (e, f) i
    | inr f ↦ rw (e, f) (IsDistinct-append c l e i)
  ]
]

register-le :
    (o : Option ℕ) (l : List ℕ) → length l ≤ max_labels → length (register o l) ≤ max_labels
register-le none l i = i
register-le (some c) l i = let k = length-append c l in ground arith

pub register-new :
    (c : ℕ) (l : List ℕ)
    → has c l ≡ false
    → register (some c) l ≡ (if length l == max_labels then l else l ++ (c ∷ []))
register-new c l e = rw e refl

-- The calls that have a label after some registrations.
abbrev pub register_all : List (Option ℕ) → List ℕ → List ℕ
register_all [] l = l
register_all (o ∷ os) l = register_all os (register o l)

pub register_all-IsDistinct :
    (os : List (Option ℕ)) (l : List ℕ) → IsDistinct l → IsDistinct (register_all os l)
register_all-IsDistinct [] l i = i
register_all-IsDistinct (o ∷ os) l i =
    register_all-IsDistinct os (register o l) (register-IsDistinct o l i)

pub register_all-le :
    (os : List (Option ℕ)) (l : List ℕ)
    → length l ≤ max_labels
    → length (register_all os l) ≤ max_labels
register_all-le [] l i = i
register_all-le (o ∷ os) l i = register_all-le os (register o l) (register-le o l i)

-- A table that is full stays so, and one that is not has taken every call.
register-full : (o : Option ℕ) (l : List ℕ) → length l ≡ max_labels → register o l ≡ l
register-full none l e = refl
register-full (some c) l e = elim (Bool-cases (has c l)) [
  | inl h ↦ rw h refl
  | inr h ↦
      register-new c l h
      ∙ ap (λ b. if b then l else l ++ (c ∷ [])) ((==_iff (length l) max_labels).1 e)
]

register_all-full :
    (os : List (Option ℕ)) (l : List ℕ) → length l ≡ max_labels → register_all os l ≡ l
register_all-full [] l e = refl
register_all-full (o ∷ os) l e =
    ap (register_all os) (register-full o l e) ∙ register_all-full os l e

or-false : (b : Bool) → b ≡ (b || false)
or-false true = refl
or-false false = refl

known : (d c : ℕ) (l : List ℕ) → has d l ≡ true → has c l ≡ (has c l || (d == c || false))
known d c l e = elim (Bool-cases (d == c)) [
  | inl f ↦ let k = ap (λ x. has x l) (sym ((==_iff d c).0 f)) ∙ e in ground arith
  | inr f ↦ ground arith
]

has-register :
    (o : Option ℕ) (c : ℕ) (l : List ℕ)
    → (length l ≡ max_labels) ⊎ (has c (register o l) ≡ (has c l || asks c (o ∷ [])))
has-register none c l = inr (ground arith)
has-register (some d) c l = elim (Bool-cases (has d l)) [
  | inl e ↦ inr (rw e (known d c l e))
  | inr e ↦ elim (Bool-cases (length l == max_labels)) [
    | inl f ↦ inl ((==_iff (length l) max_labels).0 f)
    | inr f ↦ inr (rw (e, f) (has-append c d l ∙ ap (λ b. has c l || b) (or-false (d == c))))
  ]
]

asks-cons :
    (b : Bool) (c : ℕ) (o : Option ℕ) (os : List (Option ℕ))
    → ((b || asks c (o ∷ [])) || asks c os) ≡ (b || asks c (o ∷ os))
asks-cons b c none os = ground arith
asks-cons b c (some x) os = ground arith

pub takes_all :
    (os : List (Option ℕ)) (c : ℕ) (l : List ℕ)
    → (length (register_all os l) ≡ max_labels)
      ⊎ (has c (register_all os l) ≡ (has c l || asks c os))
takes_all [] c l = inr (ground arith)
takes_all (o ∷ os) c l = elim (takes_all os c (register o l)) [
  | inl e ↦ inl e
  | inr e ↦ elim (has-register o c l) [
    | inl f ↦
        let g = register-full o l f in
        inl (ap length (register_all-full os (register o l) (ap length g ∙ f)) ∙ ap length g ∙ f)
    | inr f ↦ inr (e ∙ ap (λ b. b || asks c os) f ∙ asks-cons (has c l) c o os)
  ]
]
