-- ===== src/Targets/Datetime/Probe.antt =====
-- `find_utf8_locale` of harnesses/datetime.c. The C library is a parameter: the names of LC_CTYPE that
-- it takes.
use r_oss_fuzz.Base.{
  Bool, true, false, Option, none, some, List, [], ◌∷◌, Bytes, codes, if◌then◌else◌, ◌≡◌, ◌⊎◌, inl,
  inr, refl, arith, Bool-cases,
}

-- `setlocale(LC_CTYPE, name)`: the locale behind it, and whether it is not NULL.
abbrev pub set_name : (Bytes → Bool) → Bytes → Bytes → Bytes × Bool
set_name has name current = if has name then (name, true) else (current, false)

abbrev pub candidates : List Bytes
candidates = codes "C.UTF-8" ∷ codes "en_US.UTF-8" ∷ []

-- The loop: the locale behind it, and `found`.
unfoldable pub probe : (Bytes → Bool) → List Bytes → Bytes → Bytes × Option Bytes
probe has [] current = (current, none)
probe has (name ∷ l) current =
    let set = set_name has name current in
    let rest = probe has l set.0 in if set.1 then (set.0, some name) else rest

-- The locale behind the call, and its result. `saved` is the locale in front of it.
unfoldable pub find_utf8_locale : (Bytes → Bool) → Bytes → Bytes × Option Bytes
unfolding probe
find_utf8_locale has saved =
    let tried = probe has candidates saved in ((set_name has saved tried.0).0, tried.1)

-- The first of the names that the C library takes.
abbrev pub FirstOf : (Bytes → Bool) → List Bytes → Option Bytes → Type 0
FirstOf has [] found = found ≡ none
FirstOf has (name ∷ l) found =
    ((has name ≡ true) × (found ≡ some name)) ⊎ ((has name ≡ false) × FirstOf has l found)

probe-FirstOf :
    (has : Bytes → Bool) (l : List Bytes) (current : Bytes) → FirstOf has l (probe has l current).1
unfolding probe
probe-FirstOf has [] current = refl
probe-FirstOf has (name ∷ l) current = elim (Bool-cases (has name)) [
  | inl yes_name ↦ inl (yes_name, ground arith)
  | inr no_name ↦ inr (no_name, ground (arith, probe-FirstOf has l current))
]

-- Where the C library takes the name of the locale it was in, the probe leaves it in that locale, and
-- finds the first candidate that the library takes, or none if it takes neither.
pub find_utf8_locale-FirstOf :
    (has : Bytes → Bool) (saved : Bytes)
    → has saved ≡ true
    → ((find_utf8_locale has saved).0 ≡ saved)
      × FirstOf has candidates (find_utf8_locale has saved).1
unfolding find_utf8_locale
find_utf8_locale-FirstOf has saved e = (ground arith, probe-FirstOf has candidates saved)
