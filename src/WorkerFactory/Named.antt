-- ===== src/WorkerFactory/Named.antt =====
-- What the parts of a worker's transports are made into.
use python_xtr_messenger.Base.{
  Dict, Has, List, Option, Result, String, [], ap, arith, get, if_neg, if_pos, inl, inr, length,
  map, nat_eq, none, ok, raise, refl, some, string_eq, subst, sym, ℕ, ℕ_discrete, ◌∙◌, ◌∷◌, ◌≟◌,
  ◌≡◌, ◌≤◌, ◌⊎◌,
}
use python_xtr_messenger.Config.{update}
use python_xtr_messenger.Errors.{Error}
use python_xtr_messenger.Transport.Factories.{FactoryWorld, serving}
use python_xtr_messenger.WorkerFactory.{Configured}
use python_xtr_messenger.WorkerFactory.Built.{
  WorkerSources, and_served, consumable, create_parts, receive_rest, receivers_of, serve_parts,
  serve_rest, update_found,
}
use python_xtr_messenger.WorkerFactory.Consumed.{Has-update_new, Has-update_old, InParts}

-- The interface of transport factories: what is created has the names of the group.
abbrev pub CreatesAll : {R : Type 0} → WorkerSources R → Type 0
CreatesAll {R} f =
    (m : ℕ) (part : Configured) (w w' : FactoryWorld) (made : Dict String (Option R))
    → f.create_receiving m part w ≡ (ok made, w')
    → (n : String) → Has n part
    → Has n made

module _ {R : Type 0} where
  length-consumable : (made : Dict String (Option R)) → length (consumable made) ≤ length made
  unfolding consumable
  length-consumable [] = omega arith
  length-consumable ((n, none) ∷ made) = omega (arith, length-consumable made)
  length-consumable ((n, some r) ∷ made) = omega (arith, length-consumable made)

  Has-consumable :
      (n : String) (made : Dict String (Option R))
      → length (consumable made) ≡ length made
      → Has n made
      → Has n (consumable made)
  unfolding consumable get
  Has-consumable n [] h (a, e) = cc e
  Has-consumable n ((k, none) ∷ made) h (a, e) = absurd (omega (arith, length-consumable made))
  Has-consumable n ((k, some r) ∷ made) h (a, e) = elim (k ≟ n) [
    | yes f ↦ (r, if_pos (k ≟ n) f _ _)
    | no f ↦
        let (b, g) = Has-consumable n made (omega arith) (a, sym (if_neg (k ≟ n) f _ _) ∙ e) in
        (b, if_neg (k ≟ n) f _ _ ∙ g)
  ]

  Has-receivers_of :
      (n : String) (made : Dict String (Option R)) (found : Dict String R)
      → receivers_of made ≡ ok found
      → Has n made
      → Has n found
  unfolding receivers_of
  Has-receivers_of n made found h k = elim (ℕ_discrete (length (consumable made)) (length made)) [
    | yes e ↦
        let same : ◌≡◌ {A = Result Error (Dict String R)} (ok (consumable made)) (ok found) =
          sym (if_pos (ℕ_discrete (length (consumable made)) (length made)) e _ _) ∙ h in
        let same_found : consumable made ≡ found = cc same in
        subst (λ d. Has n d) same_found (Has-consumable n made e k)
    | no e ↦ cc (sym (if_neg (ℕ_discrete (length (consumable made)) (length made)) e _ _) ∙ h)
  ]

  module _ (f : WorkerSources R) where
    -- What serves the parts leaves them as they are.
    abbrev pub ServesParts : List Configured → Result Error (List (ℕ × Configured)) → Type 0
    ServesParts parts (raise e) = Unit
    ServesParts parts (ok served) = map (λ p. p.1) served ≡ parts

    pub serve_parts-ServesParts :
        (parts : List Configured) (w : FactoryWorld) → ServesParts parts (serve_parts f parts w).0
    unfolding serve_parts
    serve_parts-ServesParts [] w = refl
    serve_parts-ServesParts (part ∷ parts) w =
        go (serving f.kinds f.installed f.urls f.factory part w) (serve_parts-ServesParts parts)
      where
        then_rest :
            (n : ℕ) (o : Result Error (List (ℕ × Configured)) × FactoryWorld)
            → ServesParts parts o.0
            → ServesParts (part ∷ parts) (and_served f n part o).0
        then_rest n (raise e, w') h = tt
        then_rest n (ok served, w') h = ap (◌∷◌ part) h

        go :
            (o : Result Error ℕ × FactoryWorld)
            → ((w' : FactoryWorld) → ServesParts parts (serve_parts f parts w').0)
            → ServesParts (part ∷ parts) (serve_rest f part (serve_parts f parts) o).0
        go (raise e, w') ih = tt
        go (ok n, w') ih = then_rest n (serve_parts f parts w') (ih w')

    -- What is found stays found, and every transport of a part that is created is.
    abbrev pub Finds : Dict String R → List (ℕ × Configured) → Result Error (Dict String R) → Type 0
    Finds found served (raise e) = Unit
    Finds found served (ok all_found) =
        (n : String) → (Has n found ⊎ InParts n (map (λ p. p.1) served)) → Has n all_found

    pub create_parts-Finds :
        CreatesAll f
        → (served : List (ℕ × Configured)) (found : Dict String R) (w : FactoryWorld)
        → Finds found served (create_parts f served found w).0
    unfolding create_parts
    create_parts-Finds contract [] found w = λ n h. elim h [ inl k ↦ k | inr k ↦ absurd k ]
    create_parts-Finds contract ((m, part) ∷ served) found w =
        go (f.create_receiving m part w) refl (create_parts-Finds contract served)
      where
        widen :
            (made : Dict String (Option R)) (more : Dict String R)
            (o : Result Error (Dict String R))
            → ((n : String) → Has n part → Has n made)
            → receivers_of made ≡ ok more
            → Finds (update found more) served o
            → Finds found ((m, part) ∷ served) o
        widen made more (raise e) has_all r h = tt
        widen made more (ok all_found) has_all r h = λ n x. elim x [
          | inl old ↦ h n (inl (Has-update_old n found more old))
          | inr (inl new) ↦
              h n
                (inl (Has-update_new n found more (Has-receivers_of n made more r (has_all n new))))
          | inr (inr later) ↦ h n (inr later)
        ]

        received :
            (made : Dict String (Option R)) (r : Result Error (Dict String R)) (w' : FactoryWorld)
            → receivers_of made ≡ r
            → ((n : String) → Has n part → Has n made)
            → ((found' : Dict String R) (w'' : FactoryWorld)
                → Finds found' served (create_parts f served found' w'').0)
            → Finds found ((m, part) ∷ served) (update_found f (create_parts f served) found r w').0
        received made (raise e) w' r has_all ih = tt
        received made (ok more) w' r has_all ih =
            widen made more (create_parts f served (update found more) w').0 has_all r
              (ih (update found more) w')

        go :
            (o : Result Error (Dict String (Option R)) × FactoryWorld)
            → f.create_receiving m part w ≡ o
            → ((found' : Dict String R) (w' : FactoryWorld)
                → Finds found' served (create_parts f served found' w').0)
            → Finds found ((m, part) ∷ served) (receive_rest f (create_parts f served) found o).0
        go (raise e, w') same ih = tt
        go (ok made, w') same ih =
            received made (receivers_of made) w' refl (contract m part w w' made same) ih
