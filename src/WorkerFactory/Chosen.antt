-- ===== src/WorkerFactory/Chosen.antt =====
-- Which of the names of a worker are configured, and which are registered.
use python_xtr_messenger.Base.{
  Bool, Dict, Has, Has-put, Has-put_self, List, Option, Option-cases, String, [], contains, false,
  get, if◌then◌else◌, inl, inr, keys, nat_eq, none, not, put, refl, select, some, string_eq, true,
  ◌||◌, ◌∷◌, ◌≡◌,
}
use python_xtr_messenger.Config.{TransportConfig}
use python_xtr_messenger.WorkerFactory.{Configured, choose, missing_names}
use python_xtr_messenger.WorkerFactory.Built.{WorkerSources, registered_among}
use python_xtr_messenger.WorkerFactory.Consumed.{contains-keys-Has}
use python_xtr_messenger.WorkerFactory.Ordered.{AllChosen}
use python_xtr_messenger.WorkerFactory.Sourced.{AllIn}

module _ {R : Type 0} (receivers : Dict String R) where
  choose-Has :
      (transports : Configured) (ns : List String) (chosen : Configured) (n : String)
      → Has n chosen
      → Has n (choose transports ns chosen)
  choose-Has transports [] chosen n h = h
  choose-Has transports (m ∷ ns) chosen n h = elim (Option-cases (get m transports)) [
    | inl e ↦ rw e (choose-Has transports ns chosen n h)
    | inr (config, e) ↦
        rw e (choose-Has transports ns (put m config chosen) n (Has-put n m config chosen h))
  ]

  pub choose-AllChosen :
      (f : WorkerSources R) (transports : Configured) (ns : List String) (chosen : Configured)
      → AllChosen f transports (choose transports ns chosen) ns
  choose-AllChosen f transports [] chosen = tt
  choose-AllChosen f transports (n ∷ ns) chosen = (
    λ (config, e).
        rw e (choose-Has transports ns (put n config chosen) n (Has-put_self n config chosen)),
    choose-AllChosen f transports ns
        (elim (get n transports) [ none ↦ chosen | some config ↦ put n config chosen ]),
  )

  pub choose-AllIn :
      (transports : Configured) (ns : List String) (chosen : Configured)
      → AllIn transports receivers ns
      → AllIn (choose transports ns chosen) receivers ns
  choose-AllIn transports [] chosen h = tt
  choose-AllIn transports (n ∷ ns) chosen (h, hs) = (
    elim h [
      | inl (config, e) ↦
          inl
            (rw e (choose-Has transports ns (put n config chosen) n (Has-put_self n config chosen)))
      | inr r ↦ inr r
    ],
    choose-AllIn transports ns
        (elim (get n transports) [ none ↦ chosen | some config ↦ put n config chosen ]) hs,
  )

  registered_among-Has :
      (group : Configured) (ns : List String) (chosen : Dict String R) (n : String)
      → Has n chosen
      → Has n (registered_among receivers group ns chosen)
  unfolding registered_among
  registered_among-Has group [] chosen n h = h
  registered_among-Has group (m ∷ ns) chosen n h =
      registered_among-Has group ns
        (elim (get m group) [
          | some config ↦ chosen
          | none ↦ elim (get m receivers) [ none ↦ chosen | some r ↦ put m r chosen ]
        ])
        n (go (get m group) (get m receivers))
    where
      go :
          (o : Option TransportConfig) (p : Option R)
          → Has n (elim o [
            | some config ↦ chosen
            | none ↦ elim p [ none ↦ chosen | some r ↦ put m r chosen ]
          ])
      go (some config) p = h
      go none none = h
      go none (some r) = Has-put n m r chosen h

  pub registered_among-AllIn :
      (group : Configured) (ns : List String) (chosen : Dict String R)
      → AllIn group receivers ns
      → AllIn group (registered_among receivers group ns chosen) ns
  unfolding registered_among
  registered_among-AllIn group [] chosen h = tt
  registered_among-AllIn group (n ∷ ns) chosen (h, hs) = (
    elim (Option-cases (get n group)) [
      | inr (config, e) ↦ inl (config, e)
      | inl e ↦ elim h [
        | inl (config, e') ↦ inl (config, e')
        | inr (r, e') ↦ inr (
            rw (e, e') (registered_among-Has group ns (put n r chosen) n (Has-put_self n r chosen)))
      ]
    ],
    registered_among-AllIn group ns
        (elim (get n group) [
          | some config ↦ chosen
          | none ↦ elim (get n receivers) [ none ↦ chosen | some r ↦ put n r chosen ]
        ])
        hs,
  )

  pub none_missing :
      (transports : Configured) (ns : List String)
      → missing_names (keys transports) (keys receivers) ns ≡ []
      → AllIn transports receivers ns
  unfolding select
  none_missing transports [] h = tt
  none_missing transports (n ∷ ns) h =
      go (contains (keys transports) n) (contains (keys receivers) n) refl refl h
        (none_missing transports ns)
    where
      rest : List String
      rest = missing_names (keys transports) (keys receivers) ns

      go :
          (a b : Bool)
          → contains (keys transports) n ≡ a
          → contains (keys receivers) n ≡ b
          → (if not (a || b) then n ∷ rest else rest) ≡ []
          → (rest ≡ [] → AllIn transports receivers ns)
          → AllIn transports receivers (n ∷ ns)
      go true b e e' h' ih = (inl (contains-keys-Has transports n e), ih h')
      go false true e e' h' ih = (inr (contains-keys-Has receivers n e'), ih h')
      go false false e e' h' ih = cc h'
