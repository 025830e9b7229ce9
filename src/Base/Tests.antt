-- ===== src/Base/Tests.antt =====
-- Tests: booleans, and `==` and `is` as decisions of equality.
use Prim.Native.Nat.{ℕ, compare, Ordering}
use Prim.Native.String.{String}
use mathlib.Core.Path.{◌≡◌, refl}
use mathlib.Core.Logic.{◌↔◌, ◌⊎◌, inl, inr}
use mathlib.Core.Bool.{Bool, true, false, false≢true}
use mathlib.Core.List.{List, [], ◌∷◌}
use mathlib.Core.Option.{Option, none, some}
use native.Mathlib.Decide.{ℕ_discrete}
use text.Mathlib.Text.{◌==◌ as str_eq}
use text.Mathlib.TextEquality.{eq_iff}

infix 1 if◌then◌else◌
abbrev pub if◌then◌else◌ {ℓ} : {A : Type ℓ} → Bool → A → A → A
if true then x else y = x
if false then x else y = y

abbrev pub leb : ℕ → ℕ → Bool
leb a b = elim (compare a b) [ Ordering.gt ↦ false | _ ↦ true ]

-- To split on a computed value and keep the equation.
pub Bool-cases : (b : Bool) → (b ≡ true) ⊎ (b ≡ false)
Bool-cases true = inl refl
Bool-cases false = inr refl

pub Option-cases {ℓ} : {A : Type ℓ} (o : Option A) → (o ≡ none) ⊎ ((a : A) × (o ≡ some a))
Option-cases none = inl refl
Option-cases (some a) = inr (a, refl)

pub List-cases {ℓ} :
    {A : Type ℓ} (xs : List A) → (xs ≡ []) ⊎ ((x : A) × (ys : List A) × (xs ≡ x ∷ ys))
List-cases [] = inl refl
List-cases (x ∷ xs) = inr (x, xs, refl)

-- A type whose values the code compares.
pub record Eq {ℓ} (A : Type ℓ) : Type ℓ where
  pub dec_eq : Discrete A

infix 50 ◌≟◌
abbrev pub ◌≟◌ {ℓ} : {A : Type ℓ} ⦃e : Eq A⦄ (a b : A) → Dec (a ≡ b)
◌≟◌ ⦃e⦄ = e.dec_eq

pub true_of_false {ℓ} : {A : Type ℓ} → false ≡ true → A
true_of_false h = absurd (false≢true h)

abbrev dec_of_iff : {P : Type 0} (b : Bool) → (b ≡ true) ↔ P → Dec P
dec_of_iff true h = yes (h.0 refl)
dec_of_iff false h = no (λ p. true_of_false (h.1 p))

unfoldable pub string_discrete : Discrete String
string_discrete a b = dec_of_iff (str_eq a b) (eq_iff a b)

instance abbrev pub nat_eq : Eq ℕ
nat_eq = record { dec_eq = ℕ_discrete }

instance abbrev pub string_eq : Eq String
string_eq = record { dec_eq = string_discrete }
