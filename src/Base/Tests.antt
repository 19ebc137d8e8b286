-- ===== src/Base/Tests.antt =====
-- Boolean tests, decidable equality as an interface, texts as lists of bytes.
use Prim.Native.Nat.{ℕ, compare, Ordering}
use Prim.Native.Char.{code}
use Prim.Native.String.{String}
use mathlib.Core.Path.{◌≡◌, refl}
use mathlib.Core.Logic.{◌⊎◌, inl, inr, ◌≢◌}
use mathlib.Core.Bool.{Bool, true, false}
use mathlib.Core.Option.{Option, none, some}
use mathlib.Core.List.{List, [], ◌∷◌}
use native.Mathlib.Decide.{ℕ_discrete}
use native.Mathlib.Omega.{arith}

infix 1 if◌then◌else◌
abbrev pub if◌then◌else◌ {ℓ} : {A : Type ℓ} → Bool → A → A → A
if true then x else y = x
if false then x else y = y

abbrev pub ltb : ℕ → ℕ → Bool
ltb a b = elim (compare a b) [ Ordering.lt ↦ true | _ ↦ false ]

abbrev pub leb : ℕ → ℕ → Bool
leb a b = elim (compare a b) [ Ordering.gt ↦ false | _ ↦ true ]

-- Types whose values Go compares by `==`.
pub record DecEq {ℓ} (A : Type ℓ) : Type ℓ where
  pub eq : Discrete A

-- The Boolean that a decision computes to.
abbrev pub does {ℓ} : {A : Type ℓ} → Dec A → Bool
does (yes _) = true
does (no _) = false

infix 50 ◌==◌
abbrev pub ◌==◌ {ℓ} : {A : Type ℓ} ⦃e : DecEq A⦄ → A → A → Bool
◌==◌ ⦃e⦄ a b = does (e.eq a b)

module _ {ℓ} {A : Type ℓ} ⦃e : DecEq A⦄ where
  pub ==→≡ : (a b : A) → (a == b) ≡ true → a ≡ b
  ==→≡ a b h = ground arith

  pub ≡→== : (a b : A) → a ≡ b → (a == b) ≡ true
  ≡→== a b h = ground arith

  pub ≢→== : (a b : A) → a ≢ b → (a == b) ≡ false
  ≢→== a b h = ground arith

  pub ==→≢ : (a b : A) → (a == b) ≡ false → a ≢ b
  ==→≢ a b h p = ground arith

  pub ==_refl : (a : A) → (a == a) ≡ true
  ==_refl a = ≡→== a a refl

abbrev pub Text : Type 0
Text = List ℕ

unfoldable pub Text-discrete : Discrete Text
unfolding ℕ_discrete
Text-discrete = hlevel ℕ_discrete

instance abbrev pub nat_DecEq : DecEq ℕ
nat_DecEq = record { eq = ℕ_discrete }

instance abbrev pub text_DecEq : DecEq Text
text_DecEq = record { eq = Text-discrete }

-- The bytes of an ASCII literal.
abbrev pub codes : String → Text
codes String.[] = []
codes (String.◌∷◌ c s) = code c ∷ codes s

pub Bool-cases : (b : Bool) → (b ≡ true) ⊎ (b ≡ false)
Bool-cases true = inl refl
Bool-cases false = inr refl

pub Option-cases {ℓ} : {A : Type ℓ} (o : Option A) → (o ≡ none) ⊎ ((a : A) × (o ≡ some a))
Option-cases none = inl refl
Option-cases (some a) = inr (a, refl)
