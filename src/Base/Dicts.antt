-- ===== src/Base/Dicts.antt =====
-- Python's `dict`: keys in the order of their first insertion; an assignment to a present key
-- keeps its place.
use mathlib.Core.Path.{◌≡◌, refl, ◌∙◌}
use mathlib.Core.Logic.{ite, if_pos, if_neg}
use mathlib.Core.Bool.{Bool, true, false}
use mathlib.Core.Option.{Option, none, some}
use mathlib.Core.List.{List, [], ◌∷◌, ◌++◌}
use native.Mathlib.Omega.{arith}
use python_xtr_messenger.Base.Tests.{Eq, ◌≟◌, if◌then◌else◌}
use python_xtr_messenger.Base.Lists.{contains}

abbrev pub Dict {ℓ} : Type ℓ → Type ℓ → Type ℓ
Dict K V = List (K × V)

module _ {ℓ} {K V : Type ℓ} where
  -- `tuple(d)`
  unfoldable pub keys : Dict K V → List K
  keys [] = []
  keys ((k, v) ∷ d) = k ∷ keys d

  -- `tuple(d.values())`
  unfoldable pub values : Dict K V → List V
  values [] = []
  values ((k, v) ∷ d) = v ∷ values d

module _ {ℓ} {K V : Type ℓ} ⦃e : Eq K⦄ where
  -- `d.get(k)`
  unfoldable pub get : K → Dict K V → Option V
  get k [] = none
  get k ((j, v) ∷ d) = ite (j ≟ k) (some v) (get k d)

  -- `d[k] = v`
  unfoldable pub put : K → V → Dict K V → Dict K V
  put k v [] = (k, v) ∷ []
  put k v ((j, w) ∷ d) = ite (j ≟ k) ((j, v) ∷ d) ((j, w) ∷ put k v d)

  -- `d.pop(k, None)`, without the value
  unfoldable pub remove : K → Dict K V → Dict K V
  remove k [] = []
  remove k ((j, w) ∷ d) = let rest = remove k d in ite (j ≟ k) rest ((j, w) ∷ rest)

  pub get-put :
      (j k : K) (v : V) (d : Dict K V) → get j (put k v d) ≡ ite (k ≟ j) (some v) (get j d)
  unfolding get put
  get-put j k v [] = refl
  get-put j k v ((i, w) ∷ d) = ground (arith, get-put j k v d)

  pub get-remove : (j k : K) (d : Dict K V) → get j (remove k d) ≡ ite (k ≟ j) none (get j d)
  unfolding get remove
  get-remove j k [] = ground arith
  get-remove j k ((i, w) ∷ d) = ground (arith, get-remove j k d)

  pub keys-put :
      (k : K) (v : V) (d : Dict K V)
      → keys (put k v d) ≡ (if contains (keys d) k then keys d else keys d ++ k ∷ [])
  unfolding keys put contains
  keys-put k v [] = refl
  keys-put k v ((i, w) ∷ d) = elim (i ≟ k) [
    | yes p ↦ rw (if_pos _ p, if_pos _ p)
    | no p ↦ rw (if_neg _ p, if_neg _ p, keys-put k v d) (rebuild (contains (keys d) k))
  ]
    where
      rebuild :
          (b : Bool)
          → i ∷ (if b then keys d else keys d ++ k ∷ [])
            ≡ (if b then i ∷ keys d else i ∷ (keys d ++ k ∷ []))
      rebuild true = refl
      rebuild false = refl

module _ {ℓ} {K V : Type ℓ} ⦃e : Eq K⦄ where
  -- `k in d`
  abbrev pub Has : K → Dict K V → Type ℓ
  Has k d = (v : V) × (get k d ≡ some v)

  pub Has-put : (j k : K) (v : V) (d : Dict K V) → Has j d → Has j (put k v d)
  Has-put j k v d (u, h) = elim (k ≟ j) [
    | yes p ↦ (v, get-put j k v d ∙ if_pos (k ≟ j) p _ _)
    | no p ↦ (u, get-put j k v d ∙ if_neg (k ≟ j) p _ _ ∙ h)
  ]

  pub Has-put_self : (k : K) (v : V) (d : Dict K V) → Has k (put k v d)
  Has-put_self k v d = (v, get-put k k v d ∙ if_pos (k ≟ k) refl _ _)

pub ruleset dict_laws = (get-put, get-remove)
