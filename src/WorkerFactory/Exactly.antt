-- ===== src/WorkerFactory/Exactly.antt =====
-- The transports of a worker, in the order of their names.
use python_xtr_messenger.Base.{
  All, All-map, Dict, Has, List, Option, Result, String, [], ap, inl, inr, keys, map, nat_eq, none,
  not, ok, raise, refl, some, string_eq, subst, sym, values, ℕ, ◌++◌, ◌∙◌, ◌∷◌, ◌≡◌, ◌⊎◌,
}
use python_xtr_messenger.Config.{connection_of, update}
use python_xtr_messenger.Errors.{Error}
use python_xtr_messenger.Transport.Factories.{FactoryWorld}
use python_xtr_messenger.WorkerFactory.{
  Configured, by_connection, choose, missing_names, select_transports, select_unless,
}
use python_xtr_messenger.WorkerFactory.Built.{
  Built, WorkerSources, build_served, build_worker, create_parts, finish_loop, first_providing,
  looping, names_served, ordered_from, parts_then, provide_unless, provided, registered_among,
  selected_then, serve_parts, served_then,
}
use python_xtr_messenger.WorkerFactory.Consumed.{
  Has-update_new, Has-update_old, InParts, InParts-by_connection, names-ordered_from,
}
use python_xtr_messenger.WorkerFactory.Ordered.{
  AllChosen, AllConfigured, choose-AllConfigured, only_name_lem, ordered_from-Comes,
  registered_among-IsRegistered, sole,
}
use python_xtr_messenger.WorkerFactory.Sourced.{
  AllCreated, AllIn, Comes, IsCreated, create_parts-AllCreated,
}
use python_xtr_messenger.WorkerFactory.Named.{
  CreatesAll, Finds, ServesParts, create_parts-Finds, serve_parts-ServesParts,
}
use python_xtr_messenger.WorkerFactory.Chosen.{
  choose-AllChosen, choose-AllIn, none_missing, registered_among-AllIn,
}

module _ {R : Type 0} (f : WorkerSources R) (transports : Configured) (names : List String) where
  -- A worker that loops consumes all the names, in order, each by the receiver that is its own.
  abbrev Consumes : Result Error (Built R) → Type 0
  Consumes (raise e) = Unit
  Consumes (ok (provided m group)) = Unit
  Consumes (ok (looping ordered only)) =
      (map (λ p. p.0) ordered ≡ names) × All (Comes f transports) ordered × (only ≡ sole names)

  -- What is found and what is registered come whence they should.
  abbrev GivesOwn : Dict String R → Type 0
  GivesOwn registered =
      (found : Dict String R)
      → All (IsCreated f) found
      → All (Comes f transports) (ordered_from (update found registered) names)

  module _ (group : Configured) (registered : Dict String R) (all_in : AllIn group registered names)
      (own : GivesOwn registered) where
    Consumes-finish :
        (o : Result Error (Dict String R) × FactoryWorld)
        → ((found : Dict String R) → o.0 ≡ ok found → (n : String) → Has n group → Has n found)
        → AllCreated f o.0
        → Consumes (finish_loop f names registered o).0
    Consumes-finish (raise e, w) h c = tt
    Consumes-finish (ok found, w) h c =
        let same = names-ordered_from (update found registered) names (
          All-map (λ n. Has n group ⊎ Has n registered) (λ n. Has n (update found registered))
            (λ n x. elim x [
              | inl k ↦ Has-update_old n found registered (h found refl n k)
              | inr k ↦ Has-update_new n found registered k
            ])
            names all_in) in
        (
          same,
          own found c,
          only_name_lem (ordered_from (update found registered) names) ∙ ap sole same,
        )

    module _ (contract : CreatesAll f) (parts : Dict String Configured)
        (grouped : by_connection (connection_of f.urls) group ≡ ok parts) where
      found_all :
          (served : List (ℕ × Configured)) (o : Result Error (Dict String R))
          → map (λ p. p.1) served ≡ values parts
          → Finds f [] served o
          → (found : Dict String R) → o ≡ ok found
          → (n : String) → Has n group
          → Has n found
      found_all served (raise e) same finds found e' n h = cc e'
      found_all served (ok all_found) same finds found e n h =
          let same_found : all_found ≡ found = cc e in
          subst (λ d. Has n d) same_found
            (finds n (
              inr (
                subst (λ ps. InParts n ps) (sym same)
                  (InParts-by_connection (connection_of f.urls) n group parts grouped h))))

      Consumes-served :
          (o : Result Error (List (ℕ × Configured)) × FactoryWorld)
          → ServesParts f (values parts) o.0
          → Consumes (served_then f names group registered o).0
      Consumes-served (raise e, w) h = tt
      Consumes-served (ok served, w) h = go (first_providing f.provides served)
        where
          provided_only :
              (m : ℕ) (brokered others : List String)
              → Consumes (provide_unless f m group brokered others)
          provided_only m brokered [] = tt
          provided_only m brokered (x ∷ xs) = tt

          go : (o : Option ℕ) → Consumes (build_served f names group registered served o w).0
          go (some m) =
              provided_only m (names_served f.provides served)
                (names_served (λ k. not (f.provides k)) served ++ keys registered)
          go none =
              Consumes-finish (create_parts f served [] w)
                (found_all served (create_parts f served [] w).0 h
                  (create_parts-Finds f contract served [] w))
                (create_parts-AllCreated f served [] w tt)

  Consumes-parts :
      CreatesAll f
      → (group : Configured) (registered : Dict String R)
        (r : Result Error (Dict String Configured)) (w : FactoryWorld)
      → AllIn group registered names
      → GivesOwn registered
      → by_connection (connection_of f.urls) group ≡ r
      → Consumes (parts_then f names group registered r w).0
  Consumes-parts contract group registered (raise e) w all_in own grouped = tt
  Consumes-parts contract group registered (ok parts) w all_in own grouped =
      Consumes-served group registered all_in own contract parts grouped
        (serve_parts f (values parts) w) (serve_parts-ServesParts f (values parts) w)

  Consumes-selected :
      CreatesAll f
      → (r : Result Error Configured) (w : FactoryWorld)
      → ((group : Configured)
          → r ≡ ok group
          → AllIn group f.receivers names × (group ≡ choose transports names []))
      → Consumes (selected_then f names r w).0
  Consumes-selected contract (raise e) w h = tt
  Consumes-selected contract (ok group) w h =
      Consumes-parts contract group (registered_among f.receivers group names [])
        (by_connection (connection_of f.urls) group) w
        (registered_among-AllIn f.receivers group names [] (h group refl).0)
        (own group (h group refl)) refl
    where
      own :
          (group : Configured)
          → AllIn group f.receivers names × (group ≡ choose transports names [])
          → GivesOwn (registered_among f.receivers group names [])
      own group (all_in, same) = λ found created.
          ordered_from-Comes f transports group (registered_among f.receivers group names []) found
            (subst (AllConfigured f transports) (sym same)
              (choose-AllConfigured f transports names [] tt))
            (registered_among-IsRegistered f transports group names [] tt) created names
            (subst (λ g. AllChosen f transports g names) (sym same)
              (choose-AllChosen f.receivers f transports names []))
            (registered_among-AllIn f.receivers group names [] all_in)

  selected_all :
      (group : Configured)
      → select_transports transports (keys f.receivers) names ≡ ok group
      → AllIn group f.receivers names × (group ≡ choose transports names [])
  unfolding select_transports
  selected_all group h = go (missing_names (keys transports) (keys f.receivers) names) refl h
    where
      go :
          (missing : List String)
          → missing_names (keys transports) (keys f.receivers) names ≡ missing
          → select_unless transports (keys f.receivers) names missing ≡ ok group
          → AllIn group f.receivers names × (group ≡ choose transports names [])
      go [] e h' =
          let same : choose transports names [] ≡ group = cc h' in
          (
            subst (λ d. AllIn d f.receivers names) same
                (choose-AllIn f.receivers transports names []
                  (none_missing f.receivers transports names e)),
            sym same,
          )
      go (x ∷ xs) e h' = cc h'

  -- If what an adapter's factory creates for a group has all its names, a worker that is the
  -- library's own consumes exactly the names that it was built for, in the order in which they were
  -- given: under the name of a configured transport what a factory created under that name, and
  -- under another name the receiver that is registered for it. It gives its messages the name that
  -- it was built for when there is one alone, and no name when there are more.
  pub build_worker-names :
      CreatesAll f
      → (w w' : FactoryWorld) (ordered : List (String × R)) (only : Option String)
      → build_worker f transports names w ≡ (ok (looping ordered only), w')
      → (map (λ p. p.0) ordered ≡ names) × All (Comes f transports) ordered × (only ≡ sole names)
  unfolding build_worker
  build_worker-names contract w w' ordered only h = subst Consumes (ap (λ o. o.0) h) (
      Consumes-selected contract (select_transports transports (keys f.receivers) names) w
        selected_all)
