-- ===== src/Base/Pigeons.antt =====
-- A list of distinct values that all stand in another list is no longer than that list. At one
-- universe, since the proofs split on a test of the values beside one of booleans.
use Prim.Native.Nat.{suc, ◌≤◌}
use mathlib.Core.Bool.{true, false}
use mathlib.Core.List.{List, [], ◌∷◌}
use mathlib.Core.Logic.{ite, if_pos, if_neg, ◌≢◌}
use mathlib.Core.Path.{◌≡◌, sym}
use native.Mathlib.Omega.{arith}
use python_xtr_messenger.Base.Tests.{Eq, ◌≟◌, true_of_false}
use python_xtr_messenger.Base.Lists.{length, contains, IsDistinct, All}

module _ {A : Type 0} ⦃e : Eq A⦄ where
  -- The list without the first occurrence of a value.
  drop_one : A → List A → List A
  drop_one a [] = []
  drop_one a (x ∷ xs) = ite (x ≟ a) xs (x ∷ drop_one a xs)

  length-drop_one :
      (a : A) (xs : List A) → contains xs a ≡ true → length xs ≡ suc (length (drop_one a xs))
  unfolding drop_one contains
  length-drop_one a [] h = cc
  length-drop_one a (x ∷ xs) h = ground (arith, length-drop_one a xs)

  contains-drop_one :
      (a b : A) (xs : List A) → b ≢ a → contains xs b ≡ true → contains (drop_one a xs) b ≡ true
  unfolding drop_one contains
  contains-drop_one a b [] ne h = h
  contains-drop_one a b (x ∷ xs) ne h = ground (arith, contains-drop_one a b xs)

  All-drop_one :
      (a : A) (ys xs : List A)
      → contains xs a ≡ false
      → All (λ x. contains ys x ≡ true) xs
      → All (λ x. contains (drop_one a ys) x ≡ true) xs
  unfolding contains
  All-drop_one a ys [] h k = tt
  All-drop_one a ys (x ∷ xs) h (k, ks) = elim (x ≟ a) [
    | yes p ↦ true_of_false (sym (rw (if_pos (x ≟ a) p) at h))
    | no p ↦ (contains-drop_one a x ys p k, All-drop_one a ys xs (rw (if_neg (x ≟ a) p) at h) ks)
  ]

  pub length_of_distinct :
      (xs ys : List A) → IsDistinct xs → All (λ x. contains ys x ≡ true) xs → length xs ≤ length ys
  length_of_distinct [] ys d h = omega arith
  length_of_distinct (x ∷ xs) ys d h = omega (
    arith,
    length-drop_one x ys h.0,
    length_of_distinct xs (drop_one x ys) d.1 (All-drop_one x ys xs d.0 h.1),
  )
