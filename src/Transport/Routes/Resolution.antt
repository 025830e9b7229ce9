-- ===== src/Transport/Routes/Resolution.antt =====
-- `SendersLocator.__init__` and `SendersLocator._transport_names` together: what an accepted table
-- guarantees.
use python_xtr_messenger.Base.{
  All, All-append, Dict, List, Option-cases, Result, String, [], ap, arith, contains, get, if_neg,
  if_pos, inl, inr, keys, none, ok, raise, refl, some, string_eq, sym, values, ◌∙◌, ◌∷◌, ◌≟◌, ◌≡◌,
  ◌≢◌,
}
use python_xtr_messenger.Classes.{Classes}
use python_xtr_messenger.Envelope.{Envelope, MessageType, last, message_type_eq, type_of_message}
use python_xtr_messenger.Errors.{Error, unknown_transport}
use python_xtr_messenger.Registry.{Registry, transports_of}
use python_xtr_messenger.Stamps.{transport_names_stamp}
use python_xtr_messenger.Transport.Routes.{
  RouteKey, SendersLocator, Table, check_routes, first_unknown, matched, names_for,
  new_senders_locator, or_names, override_of, route, route_key_eq, senders_for, type_key, wildcard,
}
use python_xtr_messenger.Transport.Routes.Fanout.{
  aliases, contains-aliases, ended, ended-yield_senders, KnownBy,
}
use python_xtr_messenger.Transport.Sender.{Sender}

module _ {W : Type 0} (senders : Dict String (Sender W)) where
  first_unknown_here :
      (n : String) (ns : List String)
      → get n senders ≡ none
      → first_unknown senders (n ∷ ns) ≡ some n
  unfolding first_unknown
  first_unknown_here n ns g = rw (g, first_unknown)

  first_unknown_later :
      (n : String) (ns : List String) (s : Sender W)
      → get n senders ≡ some s
      → first_unknown senders (n ∷ ns) ≡ first_unknown senders ns
  unfolding first_unknown
  first_unknown_later n ns s g = rw (g, first_unknown)

  known_of_first_unknown :
      (ns : List String) → first_unknown senders ns ≡ none → All (KnownBy senders) ns
  known_of_first_unknown [] h = tt
  known_of_first_unknown (n ∷ ns) h = elim (Option-cases (get n senders)) [
    | inl g ↦ absurd (cc (h, first_unknown_here n ns g))
    | inr (s, g) ↦
        (λ g'. cc (g, g'), known_of_first_unknown ns (sym (first_unknown_later n ns s g) ∙ h))
  ]

  abbrev Accepted : List (List String) → Type 0
  Accepted nss = check_routes senders nss ≡ ok tt

  refused_here :
      (ns : List String) (more : List (List String)) (n : String)
      → first_unknown senders ns ≡ some n
      → check_routes senders (ns ∷ more) ≡ raise (unknown_transport (n ∷ []) (keys senders))
  unfolding check_routes
  refused_here ns more n f = rw (f, check_routes)

  refused_later :
      (ns : List String) (more : List (List String))
      → first_unknown senders ns ≡ none
      → check_routes senders (ns ∷ more) ≡ check_routes senders more
  unfolding check_routes
  refused_later ns more f = rw (f, check_routes)

  Accepted-head :
      (ns : List String) (more : List (List String))
      → Accepted (ns ∷ more)
      → (first_unknown senders ns ≡ none) × Accepted more
  Accepted-head ns more h = elim (Option-cases (first_unknown senders ns)) [
    | inl f ↦ (f, sym (refused_later ns more f) ∙ h)
    | inr (n, f) ↦ absurd (cc (h, refused_here ns more n f))
  ]

  route_of_get : (key : RouteKey) (d e : Table) → get key d ≡ get key e → route key d ≡ route key e
  unfolding route
  route_of_get key d e h = rw (h, route)

  route_here :
      (key k : RouteKey) (ns : List String) (d : Table) → k ≡ key → route key ((k, ns) ∷ d) ≡ ns
  unfolding route get
  route_here key k ns d p =
      ap (λ o. elim o [ none ↦ [] | some found ↦ found ]) (if_pos (k ≟ key) p (some ns) (get key d))

  route_later :
      (key k : RouteKey) (ns : List String) (d : Table)
      → k ≢ key
      → route key ((k, ns) ∷ d) ≡ route key d
  unfolding get
  route_later key k ns d p =
      route_of_get key ((k, ns) ∷ d) d (if_neg (k ≟ key) p (some ns) (get key d))

  known_of_Accepted :
      (d : Table) (key : RouteKey) → Accepted (values d) → All (KnownBy senders) (route key d)
  unfolding values route get
  known_of_Accepted [] key h = tt
  known_of_Accepted ((k, ns) ∷ d) key h = elim (k ≟ key) [
    | yes p ↦
        rw (route_here key k ns d p) (known_of_first_unknown ns (Accepted-head ns (values d) h).0)
    | no p ↦
        rw (route_later key k ns d p) (known_of_Accepted d key (Accepted-head ns (values d) h).1)
  ]

  known_of_matched :
      (d : Table) (ts : List MessageType)
      → Accepted (values d)
      → All (KnownBy senders) (matched d ts)
  unfolding matched
  known_of_matched d [] h = tt
  known_of_matched d (t ∷ ts) h =
      All-append (KnownBy senders) (route (type_key t) d) (matched d ts)
        (known_of_Accepted d (type_key t) h) (known_of_matched d ts h)

  known_of_or :
      (xs ys : List String)
      → All (KnownBy senders) xs
      → All (KnownBy senders) ys
      → All (KnownBy senders) (or_names xs ys)
  known_of_or [] ys hx hy = hy
  known_of_or (x ∷ xs) ys hx hy = hx

module _ (k : Classes) (r : Registry) where
  names_for_default :
      (d : Table) (env : Envelope)
      → override_of (last env transport_names_stamp) ≡ none
      → names_for k r d env
        ≡ or_names
            (matched d (k.mro (type_of_message env.message)))
            (or_names (route wildcard d) (transports_of k r (type_of_message env.message)))
  unfolding names_for
  names_for_default d env h = rw (h, names_for)

module _ {W : Type 0} (k : Classes) (r : Registry) where
  new_senders_locator-IsAccepted :
      (d : Table) (senders : Dict String (Sender W)) (l : SendersLocator W)
      → new_senders_locator d senders ≡ ok l
      → Accepted senders (values d) × (l ≡ record { routes = d; senders = senders })
  unfolding new_senders_locator
  new_senders_locator-IsAccepted d senders l h = go (check_routes senders (values d)) h
    where
      go :
          (o : Result Error (Unit {0}))
          → (elim o [ ok _ ↦ ok (record { routes = d; senders = senders }) | raise e ↦ raise e ])
            ≡ ok l
          → (o ≡ ok tt) × (l ≡ record { routes = d; senders = senders })
      go (ok tt) h = (refl, cc)
      go (raise e) h = cc

  names_for-AreKnown :
      (d : Table) (senders : Dict String (Sender W)) (env : Envelope)
      → Accepted senders (values d)
      → override_of (last env transport_names_stamp) ≡ none
      → All (KnownBy senders) (transports_of k r (type_of_message env.message))
      → All (KnownBy senders) (names_for k r d env)
  names_for-AreKnown d senders env h o t = rw (names_for_default k r d env o) (
      known_of_or senders (matched d (k.mro (type_of_message env.message)))
        (or_names (route wildcard d) (transports_of k r (type_of_message env.message)))
        (known_of_matched senders d (k.mro (type_of_message env.message)) h)
        (known_of_or senders (route wildcard d) (transports_of k r (type_of_message env.message))
          (known_of_Accepted senders d wildcard h) t))

  -- A locator that was accepted sends an envelope without a transport override, whose class
  -- declares only transports that it has, to every transport that the routing names and to no
  -- other, and it raises nothing.
  pub senders_for-names_for :
      (d : Table) (senders : Dict String (Sender W)) (l : SendersLocator W) (env : Envelope)
      → new_senders_locator d senders ≡ ok l
      → override_of (last env transport_names_stamp) ≡ none
      → All (KnownBy senders) (transports_of k r (type_of_message env.message))
      → (ended (senders_for k r l env) ≡ none)
        × ((a : String)
            → contains (aliases (senders_for k r l env)) a ≡ contains (names_for k r d env) a)
  unfolding senders_for contains
  senders_for-names_for d senders l env h o t =
      let (checked, same) = new_senders_locator-IsAccepted d senders l h in
      let known = names_for-AreKnown d senders env checked o t in
      rw same (
        ended-yield_senders senders [] (names_for k r d env) known,
        λ a. ground (arith, contains-aliases senders [] (names_for k r d env) a known),
      )
