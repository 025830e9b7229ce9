-- ===== src/WorkerFactory/Consumed.antt =====
-- Where the transports of a worker are found.
use python_xtr_messenger.Base.{
  All, Dict, Has, Has-put, Has-put_self, List, Option, Result, String, [], ap, contains, get,
  if_neg, if_pos, inl, inr, keys, map, none, ok, put, raise, refl, some, string_eq, subst, sym,
  true, true_of_false, values, ◌∙◌, ◌∷◌, ◌≟◌, ◌≡◌, ◌⊎◌,
}
use python_xtr_messenger.Config.{TransportConfig, update}
use python_xtr_messenger.Errors.{Error}
use python_xtr_messenger.WorkerFactory.{
  Configured, add_by, add_part, by_connection, part_of, parts_from,
}
use python_xtr_messenger.WorkerFactory.Built.{ordered_from}
use python_xtr_messenger.WorkerFactory.Parts.{by_connection-served_by, on_server, served_by}

module _ {A : Type 0} where
  pub Has-update_old : (n : String) (d more : Dict String A) → Has n d → Has n (update d more)
  unfolding update
  Has-update_old n d [] h = h
  Has-update_old n d ((k, v) ∷ more) h = Has-update_old n (put k v d) more (Has-put n k v d h)

  pub Has-update_new : (n : String) (d more : Dict String A) → Has n more → Has n (update d more)
  unfolding update get
  Has-update_new n d [] (a, h) = cc h
  Has-update_new n d ((k, v) ∷ more) (a, h) = elim (k ≟ n) [
    | yes e ↦
        Has-update_old n (put k v d) more (subst (λ x. Has x (put k v d)) e (Has-put_self k v d))
    | no f ↦ Has-update_new n (put k v d) more (a, sym (if_neg (k ≟ n) f _ _) ∙ h)
  ]

  -- what a dictionary has, one of its names is
  pub contains-keys-Has : (d : Dict String A) (n : String) → contains (keys d) n ≡ true → Has n d
  unfolding contains keys get
  contains-keys-Has [] n h = true_of_false h
  contains-keys-Has ((k, v) ∷ d) n h = elim (k ≟ n) [
    | yes e ↦ (v, if_pos (k ≟ n) e _ _)
    | no f ↦
        let (a, g) = contains-keys-Has d n (sym (if_neg (k ≟ n) f _ _) ∙ h) in
        (a, if_neg (k ≟ n) f _ _ ∙ g)
  ]

  -- Where every name has a receiver, all are taken, in order.
  pub names-ordered_from :
      (found : Dict String A) (ns : List String)
      → All (λ n. Has n found) ns
      → map (λ p. p.0) (ordered_from found ns) ≡ ns
  unfolding ordered_from
  names-ordered_from found [] h = refl
  names-ordered_from found (n ∷ ns) ((a, e), h) =
      rw (map, e) (ap (◌∷◌ n) (names-ordered_from found ns h))

-- A name is in one of the parts.
abbrev pub InParts : String → List Configured → Type 0
InParts n [] = ⊥
InParts n (part ∷ parts) = Has n part ⊎ InParts n parts

InParts-values :
    (n c : String) (parts : Dict String Configured)
    → Has n (part_of c parts)
    → InParts n (values parts)
unfolding part_of values get
InParts-values n c [] (config, h) = cc h
InParts-values n c ((d, part) ∷ parts) h = elim (d ≟ c) [
  | yes e ↦ inl (subst (λ p. Has n p) (ap (part_from) (if_pos (d ≟ c) e _ _)) h)
  | no f ↦
      inr
        (InParts-values n c parts (subst (λ p. Has n p) (ap (part_from) (if_neg (d ≟ c) f _ _)) h))
]
  where
    part_from : Option Configured → Configured
    part_from o = elim o [ none ↦ [] | some p ↦ p ]

module _ (connection : TransportConfig → Result Error String) where
  -- What a part has under a name, it keeps something under.
  served_by-some :
      (c n : String) (group : Configured) (o : Option TransportConfig)
      → ((config : TransportConfig) × (o ≡ some config))
      → (config : TransportConfig) × (served_by connection c n group o ≡ some config)
  served_by-some c n [] o h = h
  served_by-some c n ((name, config) ∷ group) o h =
      served_by-some c n group (on_server connection c n (connection config) name config o)
        (go (connection config))
    where
      go :
          (r : Result Error String)
          → (kept : TransportConfig) × (on_server connection c n r name config o ≡ some kept)
      go (raise e) = h
      go (ok d) = elim (d ≟ c) [
        | yes e ↦ elim (name ≟ n) [
          | yes f ↦ (config, if_pos (d ≟ c) e _ _ ∙ if_pos (name ≟ n) f _ _)
          | no f ↦ (h.0, if_pos (d ≟ c) e _ _ ∙ if_neg (name ≟ n) f _ _ ∙ h.1)
        ]
        | no e ↦ (h.0, if_neg (d ≟ c) e _ _ ∙ h.1)
      ]

  -- Some server has a transport of that name, whatever it had before.
  abbrev SomeServer : String → Configured → Type 0
  SomeServer n group =
      (c : String) × ((o : Option TransportConfig)
        → (config : TransportConfig) × (served_by connection c n group o ≡ some config))

  SomeServer-next :
      (n name : String) (config : TransportConfig) (group : Configured) (d : String)
      → connection config ≡ ok d
      → (¬ (name ≡ n) → SomeServer n group)
      → SomeServer n ((name, config) ∷ group)
  SomeServer-next n name config group d same ih = elim (name ≟ n) [
    | yes e ↦ (
      d,
      λ o. served_by-some d n group (on_server connection d n (connection config) name config o) (
        config,
        ap (λ r. on_server connection d n r name config o) same
            ∙ if_pos (d ≟ d) refl _ _
            ∙ if_pos (name ≟ n) e _ _,
      ),
    )
    | no f ↦
        let (c, k) = ih f in
        (c, λ o. k (on_server connection c n (connection config) name config o))
  ]

  served_by-Has :
      (n : String) (group : Configured) (acc parts : Dict String Configured)
      → parts_from connection group acc ≡ ok parts
      → Has n group
      → SomeServer n group
  unfolding parts_from get
  served_by-Has n [] acc parts h (a, e) = cc e
  served_by-Has n ((name, config) ∷ group) acc parts h (a, e) =
      go (connection config) refl h (λ acc'. served_by-Has n group acc' parts)
    where
      go :
          (r : Result Error String)
          → connection config ≡ r
          → add_by connection (parts_from connection group) name config r acc ≡ ok parts
          → ((acc' : Dict String Configured)
              → parts_from connection group acc' ≡ ok parts
              → Has n group
              → SomeServer n group)
          → SomeServer n ((name, config) ∷ group)
      go (raise x) same h' ih = cc h'
      go (ok d) same h' ih =
          SomeServer-next n name config group d same
            (λ f. ih (add_part d name config acc) h' (a, sym (if_neg (name ≟ n) f _ _) ∙ e))

  -- Every transport of a group is in one of its parts.
  pub InParts-by_connection :
      (n : String) (group : Configured) (parts : Dict String Configured)
      → by_connection connection group ≡ ok parts
      → Has n group
      → InParts n (values parts)
  InParts-by_connection n group parts h has_n =
      let (c, k) = served_by-Has n group [] parts h has_n in
      let (config, e) = k none in
      InParts-values n c parts (config, by_connection-served_by connection group parts h c n ∙ e)
