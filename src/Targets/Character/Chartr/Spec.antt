-- ===== src/Targets/Character/Chartr/Spec.antt =====
-- What a `chartr` specification declares, as a list of characters.
use r_oss_fuzz.Base.{ℕ, ◌+◌, ◌-◌, List, [], ◌∷◌, leb, ◌==◌, if◌then◌else◌}

-- The entries of the table: a range `x-y` has one for each code point from x to y, and none if it
-- runs backwards; any other character has one.
unfoldable pub table_entries : List ℕ → ℕ
table_entries [] = 0
table_entries (x ∷ []) = 1
table_entries (x ∷ d ∷ []) = 2
table_entries (x ∷ d ∷ y ∷ cs) =
    let range = (if leb x y then y - x + 1 else 0) + table_entries cs in
    let single = 1 + table_entries (d ∷ y ∷ cs) in if d == b'-' then range else single
