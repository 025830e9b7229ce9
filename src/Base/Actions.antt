-- ===== src/Base/Actions.antt =====
-- Exceptions, and actions: a method that may raise and changes state takes the state and returns
-- its outcome with the state it leaves, which an exception does not roll back.
use mathlib.Core.Path.{◌≡◌, refl}
use mathlib.Core.Logic.{◌⊎◌, inl, inr}

pub data Result {ℓ} (E A : Type ℓ) : Type ℓ where
  ok : A → Result E A
  raise : E → Result E A

pub Result-cases {ℓ} :
    {E A : Type ℓ} (r : Result E A) → ((a : A) × (r ≡ ok a)) ⊎ ((e : E) × (r ≡ raise e))
Result-cases (ok a) = inl (a, refl)
Result-cases (raise e) = inr (e, refl)

abbrev pub Exec : Type 0 → Type 0 → Type 0 → Type 0
Exec E S A = S → Result E A × S

module _ {E S : Type 0} where
  abbrev pub pure : {A : Type 0} → A → Exec E S A
  pure a s = (ok a, s)

  abbrev pub throw : {A : Type 0} → E → Exec E S A
  throw e s = (raise e, s)

  infixl 5 ◌>>=◌ ◌>>◌
  abbrev pub ◌>>=◌ : {A B : Type 0} → Exec E S A → (A → Exec E S B) → Exec E S B
  ◌>>=◌ m f s = let (r, s') = m s in elim r [ ok a ↦ f a s' | raise e ↦ (raise e, s') ]

  abbrev pub ◌>>◌ : {B : Type 0} → Exec E S (Unit {0}) → Exec E S B → Exec E S B
  m >> k = m >>= λ _. k

  -- a pure part that may raise
  abbrev pub lift : {A : Type 0} → Result E A → Exec E S A
  lift r s = (r, s)

-- What both parts of a sequence keep, the sequence keeps, whichever part raises.
pub >>=-keeps {ℓ} :
    {E S A B : Type 0} (P : S → Type ℓ) (m : Exec E S A) (f : A → Exec E S B) (s : S)
    → P (m s).1
    → ((a : A) (t : S) → P t → P (f a t).1)
    → P ((m >>= f) s).1
>>=-keeps {E} {S} {A} {B} P m f s h k = go (m s) h
  where
    go : (o : Result E A × S) → P o.1 → P (◌>>=◌ {S = S} (λ _. o) f s).1
    go (ok a, t) h' = k a t h'
    go (raise e, t) h' = h'
