-- ===== src/Common/Labels/Table/Finds.antt =====
-- Which calls the table of labels of harnesses/common.h holds, and that `fuzz_label_enter` finds them.
use r_oss_fuzz.Base.{
  some-eq, bind-some, arith, refl, sym, ap, ◌∙◌, ◌≡◌, ◌⊎◌, ◌≤◌, ℕ, suc, Bool, true, false, Option,
  none, some, List, [], ◌∷◌, ◌++◌, map, length, get_elem?, ◌==◌, ==_iff, if◌then◌else◌, ◌>>=◌,
  Bytes,
}
use r_oss_fuzz.Common.Labels.Table.{
  Printer, Label, max_labels, share, new_text, fuzz_label_call, fuzz_label_calls, fuzz_label_enter,
}
use r_oss_fuzz.Common.Labels.Table.Prints.{IsPrinter, label_calls-total}
use r_oss_fuzz.Common.Labels.Table.Registers.{
  has, asks, IsDistinct, register, register-new, register_all, register_all-IsDistinct,
  register_all-le, takes_all,
}

abbrev pub ids : List Label → List ℕ
ids = map (λ x. x.call)

length-ids : (l : List Label) → length (ids l) ≡ length l
length-ids [] = refl
length-ids (x ∷ l) = ap suc (length-ids l)

ids-append : (l : List Label) (x : Label) → ids (l ++ (x ∷ [])) ≡ (ids l ++ (x.call ∷ []))
ids-append [] x = refl
ids-append (y ∷ l) x = ap (λ k. y.call ∷ k) (ids-append l x)

-- The loop over the labels changes no call, and finds the call if it has a label.
abbrev IsShared : ℕ → List Label → Option (List Label) → Type 0
IsShared c l none = has c (ids l) ≡ false
IsShared c l (some r) = (ids r ≡ ids l) × (has c (ids l) ≡ true)

share-step :
    (b : Bool) (c : ℕ) (x : Label) (t : Bytes) (l : List Label) (o : Option (List Label))
    → (x.call == c) ≡ b
    → IsShared c l o
    → IsShared c (x ∷ l) (
        if b
        then some (record x { text = t } ∷ l)
        else elim o [ none ↦ none | some r ↦ some (x ∷ r) ])
share-step true c x t l o e i = (refl, ground arith)
share-step false c x t l none e i = ground arith
share-step false c x t l (some r) e i = (ap (λ k. x.call ∷ k) i.0, let j = i.1 in ground arith)

share-IsShared : (p : Printer) (slot c : ℕ) (l : List Label) → IsShared c l (share p slot c l)
unfolding share
share-IsShared p slot c [] = refl
share-IsShared p slot c (x ∷ l) =
    share-step (x.call == c) c x _ l (share p slot c l) refl (share-IsShared p slot c l)

new_label :
    (c : ℕ) (labels t : List Label) (o : Option Bytes)
    → (o >>= λ u. some (labels ++ (record { call = c; text = u } ∷ []))) ≡ some t
    → ids t ≡ (ids labels ++ (c ∷ []))
new_label c labels t none e = ground arith
new_label c labels t (some u) e =
    ap ids (sym (some-eq _ t e)) ∙ ids-append labels (record { call = c; text = u })

room-step :
    (c : ℕ) (full memory : Bool) (labels t : List Label) (o : Option Bytes)
    → memory ≡ true
    → (if full
        then some labels
        else if memory
        then (o >>= λ u. some (labels ++ (record { call = c; text = u } ∷ [])))
        else some labels)
      ≡ some t
    → ids t ≡ (if full then ids labels else ids labels ++ (c ∷ []))
room-step c true memory labels t o h e = ap ids (sym (some-eq labels t e))
room-step c false true labels t o h e = new_label c labels t o e
room-step c false false labels t o h e = ground arith

call-step :
    (p : Printer) (c slot n : ℕ) (labels t : List Label) (o : Option (List Label))
    → p.memory slot ≡ true
    → IsShared c labels o
    → elim o as (λ x. Option (List Label)) [
      | some shared ↦ some shared
      | none ↦
          if length labels == max_labels
          then some labels
          else if p.memory slot
          then (new_text p c slot n >>= λ u. some (labels ++ (record { call = c; text = u } ∷ [])))
          else some labels
    ]
      ≡ some t
    → ids t ≡ register (some c) (ids labels)
call-step p c slot n labels t (some r) h i e = rw i.1 (ap ids (sym (some-eq r t e)) ∙ i.0)
call-step p c slot n labels t none h i e =
    room-step c (length labels == max_labels) (p.memory slot) labels t (new_text p c slot n) h e
    ∙ ap (λ k. if k == max_labels then ids labels else ids labels ++ (c ∷ []))
        (sym (length-ids labels))
    ∙ sym (register-new c (ids labels) i)

call-register :
    (p : Printer) (o : Option ℕ) (slot n : ℕ) (labels t : List Label)
    → p.memory slot ≡ true
    → fuzz_label_call p o slot n labels ≡ some t
    → ids t ≡ register o (ids labels)
unfolding fuzz_label_call
call-register p none slot n labels t h e = ap ids (sym (some-eq labels t e))
call-register p (some c) slot n labels t h e =
    call-step p c slot n labels t (share p slot c labels) h (share-IsShared p slot c labels) e

calls-register :
    (p : Printer) (i n : ℕ) (os : List (Option ℕ)) (labels t : List Label)
    → ((k : ℕ) → p.memory k ≡ true)
    → fuzz_label_calls p i n os labels ≡ some t
    → ids t ≡ register_all os (ids labels)
unfolding fuzz_label_calls
calls-register p i n [] labels t h e = ap ids (sym (some-eq labels t e))
calls-register p i n (o ∷ os) labels t h e =
    let x = bind-some (fuzz_label_call p o i n labels) _ t e in
    calls-register p (suc i) n os x.0 t h x.2
    ∙ ap (register_all os) (call-register p o i n labels x.0 (h i) x.1)

-- The label at the place that `fuzz_label_enter` stores is one of the call; with none, there is none.
abbrev pub IsEntered : ℕ → List ℕ → Option ℕ → Type 0
IsEntered c l none = has c l ≡ false
IsEntered c l (some i) = get_elem? l i ≡ some c

enter-step :
    (b : Bool) (c : ℕ) (x : Label) (l : List Label) (o : Option ℕ)
    → (x.call == c) ≡ b
    → IsEntered c (ids l) o
    → IsEntered c
        (ids (x ∷ l))
        (if b then some 0 else elim o [ none ↦ none | some i ↦ some (suc i) ])
enter-step true c x l o e i = ap some ((==_iff x.call c).0 e)
enter-step false c x l none e i = ground arith
enter-step false c x l (some k) e i = i

pub enter-IsEntered : (c : ℕ) (l : List Label) → IsEntered c (ids l) (fuzz_label_enter c l)
unfolding fuzz_label_enter
enter-IsEntered c [] = refl
enter-IsEntered c (x ∷ l) =
    enter-step (x.call == c) c x l (fuzz_label_enter c l) refl (enter-IsEntered c l)

-- Where `malloc` succeeds and R deparses to its own strings, the registration of the calls of a target
-- writes past the end of no label; the table then holds at most 128 labels, no call has two of them,
-- every call of the target has one unless the table is full, and `fuzz_label_enter` finds the label of
-- any call that has one.
pub fuzz_label_calls-Finds :
    (p : Printer) (calls : List (Option ℕ)) (c : ℕ)
    → IsPrinter p
    → (t : List Label) × (fuzz_label_calls p 0 (length calls) calls [] ≡ some t)
      × (length (ids t) ≤ max_labels)
      × IsDistinct (ids t)
      × ((length (ids t) ≡ max_labels) ⊎ (has c (ids t) ≡ asks c calls))
      × IsEntered c (ids t) (fuzz_label_enter c t)
fuzz_label_calls-Finds p calls c i =
    let x = label_calls-total p i calls 0 (length calls) [] in
    let t = x.0 in
    let r = calls-register p 0 (length calls) calls [] t i.remembers x.1 in
    (
      t,
      x.1,
      rw r (register_all-le calls [] (omega arith)),
      rw r (register_all-IsDistinct calls [] tt),
      rw r (takes_all calls c []),
      enter-IsEntered c t,
    )
