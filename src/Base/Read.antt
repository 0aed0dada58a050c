-- ===== src/Base/Read.antt =====
-- C expressions that read memory: `none` is a read outside the object. `||` and `&&` read their
-- right operand only where C does.
use Prim.Native.Nat.{ℕ, zero, suc, ◌<◌, bit_and}
use mathlib.Core.Path.{◌≡◌, refl, ap}
use mathlib.Core.Bool.{Bool, true, false, not, ◌&&◌}
use mathlib.Core.Option.{Option, none, some}
use native.Mathlib.Omega.{arith}
use r_oss_fuzz.Base.Tests.{ltb, leb, ◌==◌}

infixl 5 ◌>>=◌
abbrev pub ◌>>=◌ {ℓ κ} : {A : Type ℓ} {B : Type κ} → Option A → (A → Option B) → Option B
none >>= f = none
some a >>= f = f a

infixl 6 ◌or_else◌
abbrev pub ◌or_else◌ : Option Bool → Option Bool → Option Bool
none or_else m = none
some true or_else m = some true
some false or_else m = m

-- A test that holds at each of the numbers below a bound, which evaluation can decide.
pub holds_up_to : (ℕ → Bool) → ℕ → Bool
holds_up_to test zero = true
holds_up_to test (suc bound) = holds_up_to test bound && test bound

pub holds_up_to-lt :
    (test : ℕ → Bool) (bound i : ℕ) → holds_up_to test bound ≡ true → i < bound → test i ≡ true
unfolding holds_up_to
holds_up_to-lt test zero i all inside = absurd (omega arith)
holds_up_to-lt test (suc bound) i all inside = ground (arith, holds_up_to-lt test bound i)

-- `(b & 0xc0) == 0x80`: a UTF-8 continuation byte.
unfoldable pub is_continuation : ℕ → Bool
is_continuation b = bit_and b 0xc0 == 0x80

same : Bool → Bool → Bool
same true b = b
same false b = not b

same_eq : (a b : Bool) → same a b ≡ true → a ≡ b
unfolding same
same_eq a b h = ground arith

continuation_table :
    holds_up_to (λ b. same (is_continuation b) (leb 0x80 b && ltb b 0xc0)) 256 ≡ true
unfolding holds_up_to is_continuation same
continuation_table = refl

pub is_continuation_range : (b : ℕ) → b < 256 → is_continuation b ≡ (leb 0x80 b && ltb b 0xc0)
is_continuation_range b h = same_eq _ _ (holds_up_to-lt _ 256 b continuation_table h)

pub some-eq {ℓ} : {A : Type ℓ} (a b : A) → some a ≡ some b → a ≡ b
some-eq a b e = ap (λ o. elim o [ none ↦ a | some c ↦ c ]) e

-- A chain of partial steps that gives a result went through a result of its first step.
pub bind-some {ℓ κ} :
    {A : Type ℓ} {B : Type κ} (o : Option A) (f : A → Option B) (b : B)
    → (o >>= f) ≡ some b
    → (a : A) × (o ≡ some a) × (f a ≡ some b)
bind-some none f b e = ground arith
bind-some (some a) f b e = (a, refl, e)
