-- ===== src/Targets/Character/Slots.antt =====
-- The slots of harnesses/character.c: a call each, and the mask of what it needs.
use r_oss_fuzz.Base.{
  ℕ, Bool, true, not, Option, none, some, List, [], ◌∷◌, ◌++◌, map, ◌==◌, bit_and,
}
use Prim.Native.String.{String}
use Prim.Native.Nat.{bit_or}
use r_oss_fuzz.Host.{x_str, x_utf8, x_latin1, aux_string, aux_utf8}
use r_oss_fuzz.Host.Call.{Term, vec, text, number, flag, lang, named, nil, ◌&◌, with_tags}

abbrev pub need_x : ℕ
need_x = 0x01

abbrev pub need_xu : ℕ
need_xu = 0x02

abbrev pub need_xl : ℕ
need_xl = 0x04

abbrev pub need_aux : ℕ
need_aux = 0x08

abbrev pub need_auxu : ℕ
need_auxu = 0x10

abbrev pub need_regex : ℕ
need_regex = 0x20

abbrev pub need_chartr : ℕ
need_chartr = 0x40

-- `need & mask` as a condition.
abbrev pub wants : ℕ → ℕ → Bool
wants need mask = not (bit_and need mask == 0)

-- `calls[k]` before its tags, the tags, and `needs[k]`.
pub record Slot : Type 0 where
  pub call : Term
  pub tags : List (ℕ × String)
  pub need : ℕ

abbrev slot : Term → List (ℕ × String) → ℕ → Slot
slot call tags need = record { call = call; tags = tags; need = need }

abbrev native_string : Term
native_string = vec x_str

abbrev marked_utf8 : Term
marked_utf8 = vec x_utf8

abbrev marked_latin1 : Term
marked_latin1 = vec x_latin1

abbrev aux : Term
aux = vec aux_string

abbrev auxu : Term
auxu = vec aux_utf8

abbrev yes_flag : Term
yes_flag = flag true

abbrev to_raw : Term
to_raw = lang (named "charToRaw") (native_string & nil)

abbrev codepoints : Term
codepoints = lang (named "utf8ToInt") (native_string & nil)

abbrev scaled_bytes : Term
scaled_bytes = lang (named "*") (lang (named "as.integer") (to_raw & nil) & number 4099 & nil)

abbrev upper_aux : Term
upper_aux = lang (named "toupper") (aux & nil)

abbrev upper_aux_utf8 : Term
upper_aux_utf8 = lang (named "toupper") (auxu & nil)

abbrev pub fixed_slots : List Slot
fixed_slots =
    slot (lang (named "nchar") (native_string & text "bytes" & nil)) ((2, "type") ∷ []) need_x
    ∷ slot (lang (named "nchar") (native_string & text "chars" & nil)) ((2, "type") ∷ []) need_x
    ∷ slot (lang (named "nchar") (native_string & text "width" & nil)) ((2, "type") ∷ []) need_x
    ∷ slot (lang (named "substr") (native_string & number 1 & number 32 & nil)) [] need_x
    ∷ slot (lang (named "substring") (native_string & number 1 & number 32 & nil)) [] need_x
    ∷ slot (lang (named "strsplit") (native_string & text "" & yes_flag & nil)) ((3, "fixed") ∷ [])
        need_x
    ∷ slot (lang (named "encodeString") (native_string & text "\"" & text "none" & yes_flag & nil))
        ((2, "quote") ∷ (3, "justify") ∷ (4, "na.encode") ∷ []) need_x
    ∷ slot (lang (named "make.names") (native_string & yes_flag & nil)) ((2, "unique") ∷ []) need_x
    ∷ slot (lang (named "rawToChar") (to_raw & yes_flag & nil)) ((2, "multiple") ∷ []) need_x
    ∷ []

abbrev pub split_slots : List Slot
split_slots =
    slot (lang (named "strsplit") (native_string & aux & yes_flag & yes_flag & nil))
      ((3, "perl") ∷ (4, "useBytes") ∷ []) (bit_or (bit_or need_x need_aux) need_regex)
    ∷ slot (lang (named "strsplit") (native_string & aux & yes_flag & nil)) ((3, "perl") ∷ [])
        (bit_or (bit_or need_x need_aux) need_regex)
    ∷ slot (lang (named "strsplit") (native_string & aux & yes_flag & nil)) ((3, "fixed") ∷ [])
        (bit_or need_x need_aux)
    ∷ slot (lang (named "strsplit") (native_string & aux & yes_flag & yes_flag & nil))
        ((3, "fixed") ∷ (4, "useBytes") ∷ []) (bit_or need_x need_aux)
    ∷ slot (lang (named "strsplit") (marked_utf8 & auxu & yes_flag & yes_flag & nil))
        ((3, "perl") ∷ (4, "useBytes") ∷ []) (bit_or (bit_or need_xu need_auxu) need_regex)
    ∷ slot (lang (named "strsplit") (marked_utf8 & auxu & yes_flag & nil)) ((3, "perl") ∷ [])
        (bit_or (bit_or need_xu need_auxu) need_regex)
    ∷ slot (lang (named "strsplit") (marked_utf8 & auxu & yes_flag & nil)) ((3, "fixed") ∷ [])
        (bit_or need_xu need_auxu)
    ∷ []

abbrev pub mark_slots : List Slot
mark_slots =
    slot (lang (named "nchar") (marked_utf8 & text "chars" & yes_flag & nil))
      ((2, "type") ∷ (3, "allowNA") ∷ []) need_xu
    ∷ slot (lang (named "nchar") (marked_utf8 & text "width" & yes_flag & nil))
        ((2, "type") ∷ (3, "allowNA") ∷ []) need_xu
    ∷ slot (lang (named "nchar") (marked_latin1 & text "chars" & yes_flag & nil))
        ((2, "type") ∷ (3, "allowNA") ∷ []) need_xl
    ∷ slot (lang (named "chartr") (aux & upper_aux & native_string & nil)) []
        (bit_or (bit_or need_x need_aux) need_chartr)
    ∷ slot (lang (named "chartr") (auxu & upper_aux_utf8 & marked_utf8 & nil)) []
        (bit_or (bit_or need_xu need_auxu) need_chartr)
    ∷ []

abbrev pub number_slots : List Slot
number_slots =
    slot (lang (named "strtoi") (native_string & number 10 & nil)) [] need_x
    ∷ slot (lang (named "strtoi") (native_string & number 16 & nil)) [] need_x
    ∷ slot (lang (named "strtoi") (native_string & number 36 & nil)) [] need_x
    ∷ slot (lang (named "strtrim") (marked_utf8 & number 10 & nil)) [] need_xu
    ∷ slot (lang (named "toupper") (marked_utf8 & nil)) [] need_xu
    ∷ slot (lang (named "tolower") (marked_latin1 & nil)) [] need_xl
    ∷ slot (lang (named "abbreviate") (native_string & number 4 & nil)) ((2, "minlength") ∷ [])
        need_x
    ∷ slot (lang (named "substr<-") (marked_utf8 & number 2 & number 10 & auxu & nil)) []
        (bit_or need_xu need_auxu)
    ∷ slot (lang (named "strrep") (native_string & number 3 & nil)) [] need_x
    ∷ slot codepoints [] need_x
    ∷ slot (lang (named "intToUtf8") (codepoints & yes_flag & nil)) ((2, "multiple") ∷ []) need_x
    ∷ slot (lang (named "intToUtf8") (scaled_bytes & nil)) [] need_x
    ∷ slot (lang (named "substr") (marked_utf8 & number 2 & number 32 & nil)) [] need_xu
    ∷ []

abbrev pub slots : List Slot
slots = fixed_slots ++ split_slots ++ mark_slots ++ number_slots

abbrev pub needs : List ℕ
needs = map (λ s. s.need) slots

unfoldable pub build : List Slot → Option (List Term)
unfolding with_tags
build [] = some []
build (s ∷ l) = elim (with_tags s.tags s.call) [
  | none ↦ none
  | some c ↦ elim (build l) [ none ↦ none | some r ↦ some (c ∷ r) ]
]
