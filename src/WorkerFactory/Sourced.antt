-- ===== src/WorkerFactory/Sourced.antt =====
-- Whence the receivers of a worker come.
use python_xtr_messenger.Base.{
  All, Dict, Has, get-put, List, Option, Result, String, [], get, if_neg, if_pos, inl, inr, ite,
  length, string_eq, none, ok, put, raise, refl, some, subst, sym, ℕ, ℕ_discrete, ◌∙◌, ◌∷◌, ◌≟◌,
  ◌≡◌, ◌⊎◌,
}
use python_xtr_messenger.Config.{update}
use python_xtr_messenger.Errors.{Error}
use python_xtr_messenger.Transport.Factories.{FactoryWorld}
use python_xtr_messenger.WorkerFactory.{Configured}
use python_xtr_messenger.WorkerFactory.Built.{
  WorkerSources, consumable, create_parts, receive_rest, receivers_of, update_found,
}

-- Every name is in one of two dictionaries.
abbrev pub AllIn : {A B : Type 0} → Dict String A → Dict String B → List String → Type 0
AllIn d e ns = All (λ n. Has n d ⊎ Has n e) ns

abbrev pub IsAmong : {B : Type 0} → B → List B → Type 0
IsAmong a [] = ⊥
IsAmong a (x ∷ xs) = (a ≡ x) ⊎ IsAmong a xs

module _ {A : Type 0} where
  module _ (P : String × A → Type 0) where
    pub All-put : (k : String) (v : A) (d : Dict String A) → All P d → P (k, v) → All P (put k v d)
    unfolding put
    All-put k v [] h p = (p, tt)
    All-put k v ((i, w) ∷ d) h p = elim (i ≟ k) [
      | yes e ↦ subst (All P) (sym (if_pos (i ≟ k) e _ _)) (subst (λ x. P (x, v)) (sym e) p, h.1)
      | no e ↦ subst (All P) (sym (if_neg (i ≟ k) e _ _)) (h.0, All-put k v d h.1 p)
    ]

    pub All-get : (n : String) (r : A) (d : Dict String A) → All P d → get n d ≡ some r → P (n, r)
    unfolding get
    All-get n r [] h e = cc e
    All-get n r ((k, v) ∷ d) h e = elim (k ≟ n) [
      | yes q ↦
          let found : some v ≡ some r = sym (if_pos (k ≟ n) q _ _) ∙ e in
          let same : v ≡ r = cc found in subst (λ x. P (n, x)) same (subst (λ x. P (x, v)) q h.0)
      | no q ↦ All-get n r d h.1 (sym (if_neg (k ≟ n) q _ _) ∙ e)
    ]

    pub All-update : (d more : Dict String A) → All P d → All P more → All P (update d more)
    unfolding update
    All-update d [] h g = h
    All-update d ((k, v) ∷ more) h g = All-update (put k v d) more (All-put k v d h g.0) g.1

    -- What is under a name after more was put.
    after_update :
        (n : String) (d more : Dict String A)
        → ((r : A) → get n d ≡ some r → P (n, r))
        → All P more
        → (r : A) → get n (update d more) ≡ some r
        → P (n, r)
    unfolding update
    after_update n d [] h g r e = h r e
    after_update n d ((k, v) ∷ more) h g r e =
        after_update n (put k v d) more (λ s q. go s (sym (get-put n k v d) ∙ q)) g.1 r e
      where
        go : (s : A) → ite (k ≟ n) (some v) (get n d) ≡ some s → P (n, s)
        go s q = elim (k ≟ n) [
          | yes same ↦
              let found : some v ≡ some s = sym (if_pos (k ≟ n) same _ _) ∙ q in
              let same_value : v ≡ s = cc found in
              subst (λ x. P (n, x)) same_value (subst (λ x. P (x, v)) same g.0)
          | no other ↦ h s (sym (if_neg (k ≟ n) other _ _) ∙ q)
        ]

    -- A name that more has is given by more.
    pub newly_put :
        (n : String) (d more : Dict String A)
        → Has n more
        → All P more
        → (r : A) → get n (update d more) ≡ some r
        → P (n, r)
    unfolding update get
    newly_put n d [] (a, h) g r e = cc h
    newly_put n d ((k, v) ∷ more) (a, h) g r e = elim (k ≟ n) [
      | yes same ↦
          after_update n (put k v d) more (λ s q. go same s (sym (get-put n k v d) ∙ q)) g.1 r e
      | no other ↦ newly_put n (put k v d) more (a, sym (if_neg (k ≟ n) other _ _) ∙ h) g.1 r e
    ]
      where
        go : k ≡ n → (s : A) → ite (k ≟ n) (some v) (get n d) ≡ some s → P (n, s)
        go same s q =
            let found : some v ≡ some s = sym (if_pos (k ≟ n) same _ _) ∙ q in
            let same_value : v ≡ s = cc found in
            subst (λ x. P (n, x)) same_value (subst (λ x. P (x, v)) same g.0)

  All-consumable :
      (P : String × A → Type 0) (made : Dict String (Option A))
      → ((n : String) (r : A) → IsAmong (n, some r) made → P (n, r))
      → All P (consumable made)
  unfolding consumable
  All-consumable P [] h = tt
  All-consumable P ((n, none) ∷ made) h = All-consumable P made (λ k r i. h k r (inr i))
  All-consumable P ((n, some r) ∷ made) h =
      (h n r (inl refl), All-consumable P made (λ k s i. h k s (inr i)))

  All-receivers_of :
      (P : String × A → Type 0) (made : Dict String (Option A)) (found : Dict String A)
      → receivers_of made ≡ ok found
      → All P (consumable made)
      → All P found
  unfolding receivers_of
  All-receivers_of P made found h k = elim (ℕ_discrete (length (consumable made)) (length made)) [
    | yes e ↦
        let same : ◌≡◌ {A = Result Error (Dict String A)} (ok (consumable made)) (ok found) =
          sym (if_pos (ℕ_discrete (length (consumable made)) (length made)) e _ _) ∙ h in
        let same_found : consumable made ≡ found = cc same in subst (All P) same_found k
    | no e ↦ cc (sym (if_neg (ℕ_discrete (length (consumable made)) (length made)) e _ _) ∙ h)
  ]

module _ {R : Type 0} (f : WorkerSources R) where
  -- The receive half of a transport that a factory creates under this name with others.
  abbrev pub IsCreated : String × R → Type 0
  IsCreated (n, r) =
      (m : ℕ) × (part : Configured) × (w : FactoryWorld) × (w' : FactoryWorld) × (made : Dict String
        (Option R))
      × (f.create_receiving m part w ≡ (ok made, w'))
      × IsAmong (n, some r) made

  abbrev pub AllCreated : Result Error (Dict String R) → Type 0
  AllCreated (raise e) = Unit
  AllCreated (ok found) = All IsCreated found

  pub create_parts-AllCreated :
      (served : List (ℕ × Configured)) (found : Dict String R) (w : FactoryWorld)
      → All IsCreated found
      → AllCreated (create_parts f served found w).0
  unfolding create_parts
  create_parts-AllCreated [] found w h = h
  create_parts-AllCreated ((m, part) ∷ served) found w h =
      go (f.create_receiving m part w) refl (create_parts-AllCreated served)
    where
      Rest : Type 0
      Rest =
          (found' : Dict String R) (w' : FactoryWorld)
          → All IsCreated found'
          → AllCreated (create_parts f served found' w').0

      received :
          (made : Dict String (Option R)) (r : Result Error (Dict String R)) (w' : FactoryWorld)
          → receivers_of made ≡ r
          → All IsCreated (consumable made)
          → Rest
          → AllCreated (update_found f (create_parts f served) found r w').0
      received made (raise e) w' r k ih = tt
      received made (ok more) w' r k ih =
          ih (update found more) w'
            (All-update IsCreated found more h (All-receivers_of IsCreated made more r k))

      go :
          (o : Result Error (Dict String (Option R)) × FactoryWorld)
          → f.create_receiving m part w ≡ o
          → Rest
          → AllCreated (receive_rest f (create_parts f served) found o).0
      go (raise e, w') same ih = tt
      go (ok made, w') same ih =
          received made (receivers_of made) w' refl
            (All-consumable IsCreated made (λ n r i. (m, part, w, w', made, same, i))) ih

  -- Of a configured transport, what a factory created; else the receiver that was registered.
  abbrev pub Comes : Configured → String × R → Type 0
  Comes transports (n, r) =
      (Has n transports × IsCreated (n, r))
      ⊎ ((get n transports ≡ none) × (get n f.receivers ≡ some r))
