-- ===== src/Common/Labels/Table.antt =====
-- The table of labels of harnesses/common.h: `fuzz_label_call`, `fuzz_label_calls` and
-- `fuzz_label_enter`. A call of R is the number of its address. What `deparse` gives for a call, the
-- decimal digits that `%d` prints, and whether `malloc` succeeds for a slot are parameters.
pub mod Registers
pub mod Finds
pub mod Prints
use r_oss_fuzz.Base.{
  ℕ, zero, suc, ◌+◌, Bool, true, false, ◌&&◌, Option, none, some, List, [], ◌∷◌, ◌++◌, Bytes, codes,
  length, take, ◌==◌, if◌then◌else◌, ◌>>=◌,
}
use r_oss_fuzz.Common.Labels.{fuzz_do_deparse}

pub record Printer : Type 0 where
  pub deparse : ℕ → Option (List Bytes)  -- none: an error of R
  pub decimal : ℕ → Bytes
  pub memory : ℕ → Bool

pub record Label : Type 0 where
  pub call : ℕ
  pub text : Bytes

abbrev pub max_labels : ℕ
max_labels = 128

unfoldable pub starts_with : Bytes → Bytes → Bool
starts_with [] l = true
starts_with (c ∷ p) [] = false
starts_with (c ∷ p) (b ∷ l) = c == b && starts_with p l

-- `strstr(old, " of ")`: what stands in front of it, and the text from there on.
unfoldable pub find_of : Bytes → Option (Bytes × Bytes)
unfolding starts_with
find_of [] = none
find_of (c ∷ l) =
    let rest = find_of l in
    if starts_with (codes " of ") (c ∷ l)
    then some ([], c ∷ l)
    else elim rest [ none ↦ none | some (front, of) ↦ some (c ∷ front, of) ]

module _ (p : Printer) where
  -- The text with one more slot, in a buffer of `strlen(old) + 32` bytes.
  unfoldable pub with_slot : ℕ → Bytes → Option Bytes
  unfolding find_of
  with_slot slot old = elim (find_of old) [
    | none ↦ none
    | some (front, of) ↦
        some (take (length old + 31) (front ++ (codes ", " ++ (p.decimal slot ++ of))))
  ]

  -- The loop over the labels: `none` where no label is of the call. The text stays where `malloc`
  -- fails, or where it has no " of ".
  unfoldable pub share : ℕ → ℕ → List Label → Option (List Label)
  unfolding with_slot
  share slot call [] = none
  share slot call (x ∷ l) =
      let rest = share slot call l in
      if x.call == call
      then some (
          record x {
            text = elim (if p.memory slot then with_slot slot x.text else none) [
              | none ↦ x.text
              | some t ↦ t
            ];
          }
          ∷ l)
      else elim rest [ none ↦ none | some r ↦ some (x ∷ r) ]

  unfoldable pub header : ℕ → ℕ → Bytes
  header slot n_slots =
      codes "==fuzz== slot "
      ++ (p.decimal slot ++ (codes " of " ++ (p.decimal n_slots ++ codes ":\n")))

  -- The text of a new label. `none` is a write past the end of its buffer.
  unfoldable pub new_text : ℕ → ℕ → ℕ → Option Bytes
  unfolding header fuzz_do_deparse
  new_text call slot n_slots = elim (p.deparse call) [
    | none ↦ some (header slot n_slots)
    | some lines ↦ fuzz_do_deparse (header slot n_slots) lines
  ]

  -- A call that is `NULL` or `R_NilValue` is `none`.
  unfoldable pub fuzz_label_call : Option ℕ → ℕ → ℕ → List Label → Option (List Label)
  unfolding share new_text
  fuzz_label_call none slot n_slots labels = some labels
  fuzz_label_call (some call) slot n_slots labels = elim (share slot call labels) [
    | some shared ↦ some shared
    | none ↦
        if length labels == max_labels
        then some labels
        else if p.memory slot
        then (new_text call slot n_slots >>= λ t.
            some (labels ++ (record { call = call; text = t } ∷ [])))
        else some labels
  ]

  -- The loop of `fuzz_label_calls`, from slot i on.
  unfoldable pub fuzz_label_calls : ℕ → ℕ → List (Option ℕ) → List Label → Option (List Label)
  unfolding fuzz_label_call
  fuzz_label_calls i n [] labels = some labels
  fuzz_label_calls i n (call ∷ calls) labels = do
    next ← fuzz_label_call call i n labels
    fuzz_label_calls (suc i) n calls next

-- What `fuzz_label_current` becomes: the place of the label, or none.
unfoldable pub fuzz_label_enter : ℕ → List Label → Option ℕ
fuzz_label_enter call [] = none
fuzz_label_enter call (x ∷ l) =
    let rest = fuzz_label_enter call l in
    if x.call == call then some 0 else elim rest [ none ↦ none | some i ↦ some (suc i) ]
