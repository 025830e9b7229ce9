-- ===== src/Base/Lists.antt =====
-- Python's lists and tuples, with native lengths.
use Prim.Native.Nat.{ℕ, zero, suc, ◌+◌, ◌≤◌}
use mathlib.Core.Path.{◌≡◌, refl, sym}
use mathlib.Core.Logic.{ite}
use mathlib.Core.Bool.{Bool, true, false, ◌||◌}
use mathlib.Core.Option.{Option, none, some}
use mathlib.Core.List.{List, [], ◌∷◌, ◌++◌}
use native.Mathlib.Omega.{arith}
use python_xtr_messenger.Base.Tests.{Eq, ◌≟◌, if◌then◌else◌}

module _ {ℓ} {A : Type ℓ} where
  abbrev pub length : List A → ℕ
  length [] = 0
  length (x ∷ xs) = suc (length xs)

  pub length-append : (xs ys : List A) → length (xs ++ ys) ≡ length xs + length ys
  length-append [] ys = omega arith
  length-append (x ∷ xs) ys = omega (arith, length-append xs ys)

  abbrev pub get_elem? : List A → ℕ → Option A
  get_elem? [] i = none
  get_elem? (x ∷ xs) zero = some x
  get_elem? (x ∷ xs) (suc i) = get_elem? xs i

  -- `xs[i:]`
  unfoldable pub drop : ℕ → List A → List A
  drop zero xs = xs
  drop (suc i) [] = []
  drop (suc i) (x ∷ xs) = drop i xs

  pub get_elem?_of_drop-nil : (i : ℕ) (xs : List A) → drop i xs ≡ [] → get_elem? xs i ≡ none
  unfolding drop
  get_elem?_of_drop-nil zero [] h = refl
  get_elem?_of_drop-nil zero (x ∷ xs) h = cc
  get_elem?_of_drop-nil (suc i) [] h = refl
  get_elem?_of_drop-nil (suc i) (x ∷ xs) h = get_elem?_of_drop-nil i xs h

  pub drop-suc :
      (i : ℕ) (xs ys : List A) (y : A)
      → drop i xs ≡ y ∷ ys
      → (get_elem? xs i ≡ some y) × (drop (suc i) xs ≡ ys)
  unfolding drop
  drop-suc zero [] ys y h = cc
  drop-suc zero (x ∷ xs) ys y h = (cc, cc)
  drop-suc (suc i) [] ys y h = cc
  drop-suc (suc i) (x ∷ xs) ys y h = drop-suc i xs ys y h

  -- `(x for x in xs if p(x))`
  unfoldable pub select : (A → Bool) → List A → List A
  select p [] = []
  select p (x ∷ xs) = let rest = select p xs in if p x then x ∷ rest else rest

  -- `xs[-1] if xs else None`
  unfoldable pub last? : List A → Option A
  last? [] = none
  last? (x ∷ []) = some x
  last? (x ∷ y ∷ xs) = last? (y ∷ xs)

  pub select-append :
      (p : A → Bool) (xs ys : List A) → select p (xs ++ ys) ≡ select p xs ++ select p ys
  unfolding select
  select-append p [] ys = refl
  select-append p (x ∷ xs) ys = ground (arith, select-append p xs ys)

  pub last?-snoc : (xs : List A) (x : A) → last? (xs ++ x ∷ []) ≡ some x
  unfolding last?
  last?-snoc [] x = refl
  last?-snoc (y ∷ []) x = refl
  last?-snoc (y ∷ z ∷ xs) x = last?-snoc (z ∷ xs) x

module _ {ℓ} {A : Type ℓ} where
  -- The first value that is there.
  abbrev pub or_else : Option A → Option A → Option A
  or_else none o = o
  or_else (some a) o = some a

  or_else-last? : (y : A) (ys : List A) (o : Option A) → or_else (last? (y ∷ ys)) o ≡ last? (y ∷ ys)
  unfolding last?
  or_else-last? y [] o = refl
  or_else-last? y (z ∷ ys) o = or_else-last? z ys o

  pub last?-append : (xs ys : List A) → last? (xs ++ ys) ≡ or_else (last? ys) (last? xs)
  unfolding last?
  last?-append [] [] = refl
  last?-append [] (y ∷ ys) = sym (or_else-last? y ys none)
  last?-append (x ∷ []) [] = refl
  last?-append (x ∷ []) (y ∷ ys) = sym (or_else-last? y ys (some x))
  last?-append (x ∷ z ∷ xs) ys = last?-append (z ∷ xs) ys

module _ {ℓ} {A : Type ℓ} (p : A → Bool) where
  pub length-select-le : (xs : List A) → length (select p xs) ≤ length xs
  unfolding select
  length-select-le [] = omega arith
  length-select-le (x ∷ xs) = ground (arith, length-select-le xs)

  -- A selection that drops nothing is the list itself.
  pub select_of_length : (xs : List A) → length (select p xs) ≡ length xs → select p xs ≡ xs
  unfolding select
  select_of_length [] h = refl
  select_of_length (x ∷ xs) h = ground (arith, length-select-le xs, select_of_length xs)

module _ {ℓ} {A : Type ℓ} (p q : A → Bool) where
  pub select_comm : (xs : List A) → select p (select q xs) ≡ select q (select p xs)
  unfolding select
  select_comm [] = refl
  select_comm (x ∷ xs) = ground (arith, select_comm xs)

  -- A selection for a test that the second implies is not felt behind it.
  pub select-select_of_implies :
      ((x : A) → q x ≡ true → p x ≡ true) → (xs : List A) → select q (select p xs) ≡ select q xs
  unfolding select
  select-select_of_implies h [] = refl
  select-select_of_implies h (x ∷ xs) = ground (arith, h x, select-select_of_implies h xs)

module _ {ℓ κ} {A : Type ℓ} (P : A → Type κ) where
  abbrev pub All : List A → Type κ
  All [] = Unit
  All (x ∷ xs) = P x × All xs

  pub All-append : (xs ys : List A) → All xs → All ys → All (xs ++ ys)
  All-append [] ys hx hy = hy
  All-append (x ∷ xs) ys hx hy = (hx.0, All-append xs ys hx.1 hy)

  pub All-left : (xs ys : List A) → All (xs ++ ys) → All xs
  All-left [] ys h = tt
  All-left (x ∷ xs) ys h = (h.0, All-left xs ys h.1)

  pub All-right : (xs ys : List A) → All (xs ++ ys) → All ys
  All-right [] ys h = h
  All-right (x ∷ xs) ys h = All-right xs ys h.1

  pub All-of : ((a : A) → P a) → (xs : List A) → All xs
  All-of h [] = tt
  All-of h (x ∷ xs) = (h x, All-of h xs)

module _ {ℓ κ} {A : Type ℓ} (P Q : A → Type κ) where
  pub All-map : ((a : A) → P a → Q a) → (xs : List A) → All P xs → All Q xs
  All-map f [] h = tt
  All-map f (x ∷ xs) h = (f x h.0, All-map f xs h.1)

module _ {ℓ} {A : Type ℓ} ⦃e : Eq A⦄ where
  -- `a in xs`
  unfoldable pub contains : List A → A → Bool
  contains [] a = false
  contains (x ∷ xs) a = ite (x ≟ a) true (contains xs a)

  pub contains-append :
      (xs ys : List A) (a : A) → contains (xs ++ ys) a ≡ (contains xs a || contains ys a)
  unfolding contains
  contains-append [] ys a = refl
  contains-append (x ∷ xs) ys a = ground (arith, contains-append xs ys a)

  -- No value twice.
  abbrev pub IsDistinct : List A → Type 0
  IsDistinct [] = Unit
  IsDistinct (x ∷ xs) = (contains xs x ≡ false) × IsDistinct xs

  pub IsDistinct-snoc :
      (xs : List A) (a : A) → IsDistinct xs → contains xs a ≡ false → IsDistinct (xs ++ a ∷ [])
  unfolding contains
  IsDistinct-snoc [] a h k = (refl, tt)
  IsDistinct-snoc (x ∷ xs) a h k =
      (ground (arith, contains-append xs (a ∷ []) x), IsDistinct-snoc xs a h.1 (ground arith))
