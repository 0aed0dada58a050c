-- ===== src/Common/Labels/Table/Prints.antt =====
-- The registration of calls in harnesses/common.h never writes past the end of a label.
use r_oss_fuzz.Base.{
  arith, refl, ◌≡◌, ◌≤◌, ◌<◌, ℕ, suc, Bool, true, false, Option, none, some, List, [], ◌∷◌, ◌++◌,
  length, length-append, All, codes, ◌==◌, if◌then◌else◌, ◌>>=◌, Bytes,
}
use r_oss_fuzz.Common.Labels.{fuzz_do_deparse}
use r_oss_fuzz.Common.Labels.Laws.{IsShort, fuzz_do_deparse-Shows}
use r_oss_fuzz.Common.Labels.Table.{
  Printer, Label, max_labels, header, share, new_text, fuzz_label_call, fuzz_label_calls,
}

-- No line is longer than an R string can be.
abbrev pub AreShort : Option (List Bytes) → Type 0
AreShort none = Unit
AreShort (some lines) = All IsShort lines

-- `malloc` succeeds, an `int` has at most 11 characters, and the lines of a call are strings of R.
pub record IsPrinter (p : Printer) : Type 0 where
  pub remembers : (k : ℕ) → p.memory k ≡ true
  pub digits : (k : ℕ) → length (p.decimal k) ≤ 11
  pub lines : (c : ℕ) → AreShort (p.deparse c)

module _ (p : Printer) (i : IsPrinter p) where
  header-lt : (slot n : ℕ) → length (header p slot n) < 4087
  unfolding header
  header-lt slot n =
      let a = i.digits slot in
      let b = i.digits n in
      let c = length-append (p.decimal n) (codes ":\n") in
      let d = length-append (p.decimal slot) (codes " of " ++ (p.decimal n ++ codes ":\n")) in
      omega arith

  text-total :
      (o : Option (List Bytes)) (slot n : ℕ)
      → AreShort o
      → (t : Bytes) × (elim o as (λ x. Option Bytes) [
        | none ↦ some (header p slot n)
        | some lines ↦ fuzz_do_deparse (header p slot n) lines
      ]
          ≡ some t)
  text-total none slot n s = (header p slot n, refl)
  text-total (some lines) slot n s =
      let r = fuzz_do_deparse-Shows (header p slot n) lines (header-lt slot n) s in (r.0, r.1)

  new_text-total : (c slot n : ℕ) → (t : Bytes) × (new_text p c slot n ≡ some t)
  unfolding new_text
  new_text-total c slot n = text-total (p.deparse c) slot n (i.lines c)

  call-total :
      (c : ℕ) (labels : List Label) (o : Option (List Label)) (full memory : Bool)
      (u : Option Bytes)
      → (t : Bytes) × (u ≡ some t)
      → (t : List Label) × (elim o as (λ x. Option (List Label)) [
        | some shared ↦ some shared
        | none ↦
            if full
            then some labels
            else if memory
            then (u >>= λ t. some (labels ++ (record { call = c; text = t } ∷ [])))
            else some labels
      ]
          ≡ some t)
  call-total c labels (some shared) full memory u h = (shared, refl)
  call-total c labels none true memory u h = (labels, refl)
  call-total c labels none false true none h = absurd (let k = h.1 in ground arith)
  call-total c labels none false true (some t) h = (_, refl)
  call-total c labels none false false u h = (labels, refl)

  label_call-total :
      (o : Option ℕ) (slot n : ℕ) (labels : List Label)
      → (t : List Label) × (fuzz_label_call p o slot n labels ≡ some t)
  unfolding fuzz_label_call
  label_call-total none slot n labels = (labels, refl)
  label_call-total (some c) slot n labels =
      call-total c labels (share p slot c labels) (length labels == max_labels) (p.memory slot)
        (new_text p c slot n) (new_text-total c slot n)

  pub label_calls-total :
      (os : List (Option ℕ)) (slot n : ℕ) (labels : List Label)
      → (t : List Label) × (fuzz_label_calls p slot n os labels ≡ some t)
  unfolding fuzz_label_calls
  label_calls-total [] slot n labels = (labels, refl)
  label_calls-total (o ∷ os) slot n labels =
      let x = label_call-total o slot n labels in
      let y = label_calls-total os (suc slot) n x.0 in (y.0, rw (x.1, ◌>>=◌) y.1)
