-- ===== src/WorkerFactory/Ordered.antt =====
-- The receivers of a worker, in the order of their names.
use python_xtr_messenger.Base.{
  All, Dict, Has, List, Option, Option-cases, String, [], get, inl, inr, map, none, put, refl, some,
  string_eq, sym, ◌∙◌, ◌∷◌, ◌≡◌, ◌⊎◌,
}
use python_xtr_messenger.Config.{TransportConfig, update}
use python_xtr_messenger.WorkerFactory.{Configured, choose}
use python_xtr_messenger.WorkerFactory.Built.{
  WorkerSources, only_name, ordered_from, registered_among,
}
use python_xtr_messenger.WorkerFactory.Sourced.{
  All-get, All-put, All-update, AllIn, Comes, IsCreated, newly_put,
}

-- The name, if there is no other.
abbrev pub sole : List String → Option String
sole [] = none
sole (n ∷ []) = some n
sole (n ∷ m ∷ ns) = none

pub only_name_lem :
    {R : Type 0} (ordered : List (String × R)) → only_name ordered ≡ sole (map (λ p. p.0) ordered)
only_name_lem [] = refl
only_name_lem ((n, r) ∷ []) = refl
only_name_lem ((n, r) ∷ (m, s) ∷ ordered) = refl

module _ {R : Type 0} (f : WorkerSources R) (transports : Configured) where
  -- Of the names, those that are configured are in the group.
  abbrev pub AllChosen : Configured → List String → Type 0
  AllChosen group ns = All (λ n. Has n transports → Has n group) ns

  abbrev pub AllConfigured : Configured → Type 0
  AllConfigured group = All (λ p. Has p.0 transports) group

  pub choose-AllConfigured :
      (ns : List String) (chosen : Configured)
      → AllConfigured chosen
      → AllConfigured (choose transports ns chosen)
  choose-AllConfigured [] chosen h = h
  choose-AllConfigured (n ∷ ns) chosen h =
      choose-AllConfigured ns
        (elim (get n transports) [ none ↦ chosen | some config ↦ put n config chosen ])
        (go (get n transports) refl)
    where
      go :
          (o : Option TransportConfig)
          → get n transports ≡ o
          → AllConfigured (elim o [ none ↦ chosen | some config ↦ put n config chosen ])
      go none e = h
      go (some config) e = All-put (λ p. Has p.0 transports) n config chosen h (config, e)

  -- A registered receiver under a name that is not in the group.
  abbrev pub IsRegistered : Configured → String × R → Type 0
  IsRegistered group p = (get p.0 group ≡ none) × (get p.0 f.receivers ≡ some p.1)

  pub registered_among-IsRegistered :
      (group : Configured) (ns : List String) (chosen : Dict String R)
      → All (IsRegistered group) chosen
      → All (IsRegistered group) (registered_among f.receivers group ns chosen)
  unfolding registered_among
  registered_among-IsRegistered group [] chosen h = h
  registered_among-IsRegistered group (n ∷ ns) chosen h =
      registered_among-IsRegistered group ns
        (elim (get n group) [
          | some config ↦ chosen
          | none ↦ elim (get n f.receivers) [ none ↦ chosen | some r ↦ put n r chosen ]
        ])
        (go (get n group) (get n f.receivers) refl refl)
    where
      go :
          (o : Option TransportConfig) (q : Option R)
          → get n group ≡ o
          → get n f.receivers ≡ q
          → All (IsRegistered group) (elim o [
            | some config ↦ chosen
            | none ↦ elim q [ none ↦ chosen | some r ↦ put n r chosen ]
          ])
      go (some config) q e e' = h
      go none none e e' = h
      go none (some r) e e' = All-put (IsRegistered group) n r chosen h (e, e')

  module _ (group : Configured) (registered found : Dict String R)
      (configured : AllConfigured group) (is_registered : All (IsRegistered group) registered)
      (created : All (IsCreated f) found) where
    abbrev Kept : String × R → Type 0
    Kept p = IsCreated f p ⊎ (get p.0 group ≡ none)

    All-weaker :
        (P : String × R → Type 0)
        → ((p : String × R) → P p → Kept p)
        → (d : Dict String R) → All P d
        → All Kept d
    All-weaker P w [] h = tt
    All-weaker P w (p ∷ d) h = (w p h.0, All-weaker P w d h.1)

    kept : All Kept (update found registered)
    kept =
        All-update Kept found registered (All-weaker (IsCreated f) (λ p c. inl c) found created)
          (All-weaker (IsRegistered group) (λ p c. inr c.0) registered is_registered)

    name-Comes :
        (n : String) (r : R)
        → (Has n transports → Has n group)
        → (Has n group ⊎ Has n registered)
        → get n (update found registered) ≡ some r
        → Comes f transports (n, r)
    name-Comes n r chosen is_in e = elim (Option-cases (get n transports)) [
      | inr (config, has_config) ↦
          let (kept_config, is_kept) = chosen (config, has_config) in
          elim (All-get Kept n r (update found registered) kept e) [
            | inl c ↦ inl ((config, has_config), c)
            | inr empty ↦ cc (sym is_kept ∙ empty)
          ]
      | inl empty ↦ elim is_in [
        | inl (config, k) ↦
            let (c, is_configured) =
              All-get (λ p. Has p.0 transports) n config group configured k in
            cc (sym is_configured ∙ empty)
        | inr has_registered ↦ inr (
          empty,
          (newly_put (IsRegistered group) n found registered has_registered is_registered r e).1,
        )
      ]
    ]

    pub ordered_from-Comes :
        (ns : List String)
        → AllChosen group ns
        → AllIn group registered ns
        → All (Comes f transports) (ordered_from (update found registered) ns)
    unfolding ordered_from
    ordered_from-Comes [] h g = tt
    ordered_from-Comes (n ∷ ns) h g =
        go (get n (update found registered)) refl (ordered_from-Comes ns h.1 g.1)
      where
        go :
            (o : Option R)
            → get n (update found registered) ≡ o
            → All (Comes f transports) (ordered_from (update found registered) ns)
            → All (Comes f transports) (elim o [
              | none ↦ ordered_from (update found registered) ns
              | some r ↦ (n, r) ∷ ordered_from (update found registered) ns
            ])
        go none e rest = rest
        go (some r) e rest = (name-Comes n r h.0 g.0 e, rest)
