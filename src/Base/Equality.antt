-- ===== src/Base/Equality.antt =====
-- `===` on texts and numbers, as an instance, and the truth value of a text.
use Prim.Native.Nat.{ℕ}
use Prim.Native.String.{String}
use mathlib.Core.Path.{◌≡◌, refl}
use mathlib.Core.Logic.{◌↔◌, ◌≢◌}
use mathlib.Core.Bool.{Bool, true, false, not}
use mathlib.Core.Option.{Option, none, some}
use native.Mathlib.Omega.{arith}
use text.Mathlib.Text.{◌==◌ as str_eq}
use text.Mathlib.TextEquality.{eq_iff}
use react_ai_healthycare.Base.Tests.{eqb, eqb_iff}

pub record StrictEq {ℓ} (A : Type ℓ) : Type ℓ where
  pub test : (left right : A) → Bool
  pub test_iff : (left right : A) → (test left right ≡ true) ↔ (left ≡ right)

infix 50 ◌==◌
abbrev pub ◌==◌ {ℓ} : {A : Type ℓ} ⦃e : StrictEq A⦄ → A → A → Bool
◌==◌ ⦃e⦄ = e.test

-- on texts
instance abbrev pub string_eq : StrictEq String
string_eq = record { test = str_eq; test_iff = eq_iff }

-- on numbers
instance abbrev pub nat_eq : StrictEq ℕ
nat_eq = record { test = eqb; test_iff = eqb_iff }

module _ {ℓ} {A : Type ℓ} ⦃e : StrictEq A⦄ where
  pub ==_iff : (a b : A) → ((a == b) ≡ true) ↔ (a ≡ b)
  ==_iff a b = e.test_iff a b

  pub ==_refl : (a : A) → (a == a) ≡ true
  ==_refl a = (e.test_iff a a).1 refl

  pub ==_ne : (a b : A) → a ≢ b → (a == b) ≡ false
  ==_ne a b h = ground (arith, e.test_iff a b)

  -- `x === y` for a nullable `x`
  abbrev pub is_value : Option A → A → Bool
  is_value none y = false
  is_value (some x) y = x == y

-- The empty text is falsy, and so is null.
abbrev pub truthy : String → Bool
truthy s = not (str_eq s "")

-- `x || null` for a text
abbrev pub non_empty : String → Option String
non_empty s = elim (str_eq s "") [ true ↦ none | false ↦ some s ]

-- A nullable text that counts as false where it is empty.
abbrev pub truthy? : Option String → Option String
truthy? none = none
truthy? (some s) = non_empty s
