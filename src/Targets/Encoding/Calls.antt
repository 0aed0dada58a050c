-- ===== src/Targets/Encoding/Calls.antt =====
-- `iconv_call` of harnesses/encoding.c on R's objects, with its protections.
pub mod Tags
pub mod Lives
use r_oss_fuzz.Base.{ℕ, Option, none, some, List, [], ◌∷◌, ◌++◌, Bytes, codes, map}
use r_oss_fuzz.Common.Objects.{
  Value, object, Collector, Action, ◌>>=◌, ◌>>◌, pure, install, mk_string, lang, protect, unprotect,
  set_tag,
}

-- `SET_TAG` at some places, each with the symbol that `Rf_install` gives.
unfoldable pub set_tags : Collector → ℕ → List (ℕ × Bytes) → Action (Unit {0})
set_tags k c [] = pure tt
set_tags k c ((n, s) ∷ l) = do v ← install k s; set_tag c n v; set_tags k c l

-- `extra` and `extra_name`, or NULL.
abbrev pub extra_value : Option (Bytes × ℕ) → List Value
extra_value none = []
extra_value (some (s, e)) = object e ∷ []

abbrev pub extra_tag : Option (Bytes × ℕ) → List (ℕ × Bytes)
extra_tag none = []
extra_tag (some (s, e)) = (5, s) ∷ []

abbrev pub tags : Option (Bytes × ℕ) → List (ℕ × Bytes)
tags extra = (2, codes "from") ∷ (3, codes "to") ∷ (4, codes "sub") ∷ extra_tag extra

abbrev pub arguments : ℕ → ℕ → ℕ → ℕ → Option (Bytes × ℕ) → List Value
arguments x from_string to_string sub extra =
    object x ∷ object from_string ∷ object to_string ∷ object sub ∷ extra_value extra

unfoldable pub make_iconv_call : Collector → ℕ → Bytes → Bytes → ℕ → Option (Bytes × ℕ) → Action ℕ
unfolding set_tags
make_iconv_call k x from to sub extra = do
  from_string ← mk_string k from
  protect from_string
  to_string ← mk_string k to
  protect to_string
  f ← install k (codes "iconv")
  c ← lang k (f ∷ arguments x from_string to_string sub extra)
  protect c
  set_tags k c (tags extra)
  unprotect 3
  pure c
