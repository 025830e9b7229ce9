-- ===== src/StampRegistry/Lookup.antt =====
-- What a registered stamp class is found under.
use python_xtr_messenger.Base.{
  Option-cases, String, ap, arith, get-put, inl, inr, none, ok, raise, refl, some, string_eq, ◌≟◌,
  ◌≡◌, ◌≢◌, ◌⊎◌,
}
use python_xtr_messenger.Errors.{name_taken}
use python_xtr_messenger.StampRegistry.{
  StampRegistry, bind_stamp, register_stamp, stamp_name, stamp_type_for,
}
use python_xtr_messenger.Stamps.{StampType, stamp_type_eq}

module _ (names : StampType → String) (t : StampType) (r : StampRegistry) where
  bind_stamp-own :
      stamp_type_for names r (stamp_name names t) ≡ none
      → stamp_type_for names (bind_stamp names t r) (stamp_name names t) ≡ some t
  unfolding stamp_type_for
  bind_stamp-own e =
      ground (arith, get-put (stamp_name names t) (stamp_name names t) t r.declared_by_name)

  bind_stamp-other :
      (name : String)
      → name ≢ stamp_name names t
      → stamp_type_for names (bind_stamp names t r) name ≡ stamp_type_for names r name
  unfolding stamp_type_for
  bind_stamp-other name ne = ground (arith, get-put name (stamp_name names t) t r.declared_by_name)

  bound :
      stamp_type_for names r (stamp_name names t) ≡ none
      → register_stamp names t r ≡ (ok tt, bind_stamp names t r)
  unfolding register_stamp
  bound e = ground arith

  kept :
      (u : StampType)
      → stamp_type_for names r (stamp_name names t) ≡ some u
      → u ≡ t
      → register_stamp names t r ≡ (ok tt, r)
  unfolding register_stamp
  kept u e p = ground arith

  refused :
      (u : StampType)
      → stamp_type_for names r (stamp_name names t) ≡ some u
      → u ≢ t
      → register_stamp names t r ≡ (raise (name_taken (stamp_name names t)), r)
  unfolding register_stamp
  refused u e p = ground arith

  -- Registering either leaves the class under its name, with every other name as it was, or is
  -- refused since another class has the name, with nothing changed.
  pub register_stamp-outcome :
      (((register_stamp names t r).0 ≡ ok tt)
        × (stamp_type_for names (register_stamp names t r).1 (stamp_name names t) ≡ some t)
        × ((name : String)
            → name ≢ stamp_name names t
            → stamp_type_for names (register_stamp names t r).1 name ≡ stamp_type_for names r name))
      ⊎ ((register_stamp names t r ≡ (raise (name_taken (stamp_name names t)), r))
          × ((u : StampType) × (stamp_type_for names r (stamp_name names t) ≡ some u) × (u ≢ t)))
  register_stamp-outcome = elim (Option-cases (stamp_type_for names r (stamp_name names t))) [
    | inl e ↦ rw (bound e) (inl (refl, bind_stamp-own e, bind_stamp-other))
    | inr (u, e) ↦ elim (u ≟ t) [
      | yes p ↦ rw (kept u e p) (inl (refl, rw e (ap some p), λ name ne. refl))
      | no p ↦ inr (refused u e p, (u, e, p))
    ]
  ]
