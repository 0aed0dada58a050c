-- ===== src/Targets/Datetime/Locale.antt =====
-- The locale in which harnesses/datetime.c evaluates its calls.
use r_oss_fuzz.Base.{
  Bool, true, false, ◌&&◌, Option, none, some, [], ◌∷◌, ◌++◌, leb, ◌≡◌, refl, ap, ◌∙◌,
}
use r_oss_fuzz.Host.{Op, eval_toplevel, eval_try, set_locale, Trace}
use r_oss_fuzz.Targets.Datetime.{first_utf8_call, is_current}

-- LC_CTYPE as the last switch left it; `none` is the runner's own locale.
abbrev pub after_op : Option Bool → Op → Option Bool
after_op l (set_locale u) = some u
after_op l op = l

abbrev pub locale_after : Option Bool → Trace → Option Bool
locale_after l [] = l
locale_after l (op ∷ t) = locale_after (after_op l op) t

-- A slot is evaluated in its own locale: UTF-8 from `first_utf8_call` on, where there is one, and C
-- otherwise.
abbrev pub Suits : Bool → Option Bool → Op → Type 0
Suits available l (eval_toplevel i) = l ≡ some (available && leb first_utf8_call i)
Suits available l (eval_try i) = l ≡ some (available && leb first_utf8_call i)
Suits available l op = Unit

abbrev pub InLocale : Bool → Option Bool → Trace → Type 0
InLocale available l [] = Unit
InLocale available l (op ∷ t) = Suits available l op × InLocale available (after_op l op) t

locale_after-append :
    (l : Option Bool) (t u : Trace) → locale_after l (t ++ u) ≡ locale_after (locale_after l t) u
locale_after-append l [] u = refl
locale_after-append l (op ∷ t) u = locale_after-append (after_op l op) t u

InLocale-append :
    (available : Bool) (l : Option Bool) (t u : Trace)
    → InLocale available l t
    → InLocale available (locale_after l t) u
    → InLocale available l (t ++ u)
InLocale-append available l [] u h k = k
InLocale-append available l (op ∷ t) u h k =
    (h.0, InLocale-append available (after_op l op) t u h.1 k)

-- The variable is the locale, and every evaluation so far was in its own.
pub record Sound (available : Bool) (ctype : Option Bool) (t : Trace) : Type 0 where
  pub tracks : locale_after none t ≡ ctype
  pub suited : InLocale available none t

-- More operations keep it so.
pub Sound-append :
    (available : Bool) (ctype : Option Bool) (t u : Trace)
    → Sound available ctype t
    → InLocale available ctype u
    → Sound available (locale_after ctype u) (t ++ u)
Sound-append available ctype t u s h = record {
  tracks = locale_after-append none t u ∙ ap (λ l. locale_after l u) s.tracks;
  suited = InLocale-append available none t u s.suited (rw s.tracks h);
}

pub is_current-eq :
    (want : Bool) (ctype : Option Bool) → is_current want ctype ≡ true → ctype ≡ some want
is_current-eq want none h = cc
is_current-eq true (some u) h = ap some h
is_current-eq false (some true) h = cc
is_current-eq false (some false) h = refl
