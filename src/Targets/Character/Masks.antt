-- ===== src/Targets/Character/Masks.antt =====
-- The masks of harnesses/character.c against the calls that they stand beside.
use r_oss_fuzz.Base.{ℕ, Bool, false, ◌&&◌, ◌||◌, none, some, List, [], ◌∷◌, Bytes, ◌==◌, codes}
use Prim.Native.String.{String}
use r_oss_fuzz.Host.{Vec, x_str, x_utf8, x_latin1, aux_string, aux_utf8}
use r_oss_fuzz.Host.Call.{Term, Args, lang, named, nil, arg, reads, same_text}
use r_oss_fuzz.Targets.Character.Slots.{
  need_x, need_xu, need_xl, need_aux, need_auxu, need_regex, need_chartr,
}

abbrev tag_of : Vec → ℕ
tag_of x_str = 1
tag_of x_utf8 = 2
tag_of x_latin1 = 3
tag_of aux_string = 4
tag_of aux_utf8 = 5
tag_of v = 0

abbrev is_vec : Vec → Vec → Bool
is_vec v w = tag_of v == tag_of w

unfoldable pub has_tag : Bytes → Args → Bool
unfolding same_text
has_tag s nil = false
has_tag s (arg none a l) = has_tag s l
has_tag s (arg (some u) a l) = same_text s (codes u) || has_tag s l

unfoldable pub calls_function : String → Term → Bool
unfolding same_text
calls_function s (lang (named f) l) = same_text (codes s) (codes f)
calls_function s t = false

-- A call that hands its split to a regular expression engine.
unfoldable pub splits_by_regex : Term → Bool
unfolding calls_function has_tag
splits_by_regex (lang f l) = calls_function "strsplit" (lang f l) && has_tag (codes "perl") l
splits_by_regex t = false

abbrev pub masks : List ℕ
masks = need_x ∷ need_xu ∷ need_xl ∷ need_aux ∷ need_auxu ∷ need_regex ∷ need_chartr ∷ []

-- What a call asks for, mask by mask: an object where it reads that, and a guard where it hands the
-- auxiliary string to the code that the guard is about.
unfoldable pub demands : Term → List Bool
unfolding splits_by_regex calls_function reads
demands call =
    reads (is_vec x_str) call
    ∷ reads (is_vec x_utf8) call
    ∷ reads (is_vec x_latin1) call
    ∷ reads (is_vec aux_string) call
    ∷ reads (is_vec aux_utf8) call
    ∷ splits_by_regex call
    ∷ calls_function "chartr" call
    ∷ []
