-- ===== src/Registry/Names.antt =====
-- Wire names: what a class is sent under resolves to that class.
use python_xtr_messenger.Base.{
  >>=-keeps, List, Option, Option-cases, String, [], arith, get, get-put, inl, inr, none, ok, put,
  raise, refl, some, string_eq, ◌↔◌, ◌∷◌, ◌≟◌, ◌≡◌, ◌≢◌, ◌⊎◌,
}
use python_xtr_messenger.Classes.{Classes, default_name}
use python_xtr_messenger.Envelope.{MessageType, message_type_eq}
use python_xtr_messenger.Errors.{name_taken}
use python_xtr_messenger.Registry.{
  Declaration, Registry, as_message, as_tuple, bind_name, claim, claim_name, declare_all,
  empty_registry, name_of, register_message, set_transports, type_for_name,
}

-- A class's own name resolves to it.
pub record IsConsistent (r : Registry) : Type 0 where
  pub resolves :
      (t : MessageType) (name : String)
      → get t r.name_by_type ≡ some name
      → get name r.type_by_name ≡ some t

bind_name-IsConsistent :
    (name : String) (t : MessageType) (r : Registry)
    → IsConsistent r
    → ((u : MessageType) → get name r.type_by_name ≡ some u → u ≡ t)
    → IsConsistent (bind_name name t r)
bind_name-IsConsistent name t r h free = record {
  resolves = λ u n e. ground (
    arith,
    get-put u t name r.name_by_type,
    get-put n name t r.type_by_name,
    h.resolves u n,
    free u,
  );
}

-- A name is claimed when no other class has it, and refused otherwise.
pub claim-cases :
    (name : String) (t : MessageType) (r : Registry)
    → ((claim name t r ≡ (ok tt, bind_name name t r))
        × ((u : MessageType) → get name r.type_by_name ≡ some u → u ≡ t))
      ⊎ ((claim name t r ≡ (raise (name_taken name), r))
          × ((u : MessageType) × (get name r.type_by_name ≡ some u) × (u ≢ t)))
unfolding claim
claim-cases name t r = elim (Option-cases (get name r.type_by_name)) [
  | inl e ↦ inl (ground arith, λ u p. cc)
  | inr (c, e) ↦ elim (c ≟ t) [
    | yes p ↦ inl (ground arith, λ u q. cc)
    | no p ↦ inr (ground arith, (c, e, p))
  ]
]

claim-IsConsistent :
    (name : String) (t : MessageType) (r : Registry)
    → IsConsistent r
    → IsConsistent (claim name t r).1
claim-IsConsistent name t r h = elim (claim-cases name t r) [
  | inl (e, free) ↦ rw e (bind_name-IsConsistent name t r h free)
  | inr (e, taken) ↦ rw e h
]

claim_name-IsConsistent :
    (k : Classes) (t : MessageType) (name : Option String) (r : Registry)
    → IsConsistent r
    → IsConsistent (claim_name k t name r).1
unfolding claim_name
claim_name-IsConsistent k t (some name) r h = claim-IsConsistent name t r h
claim_name-IsConsistent k t none r h = elim (Option-cases (get t r.name_by_type)) [
  | inl e ↦ rw (e, claim_name) (claim-IsConsistent (default_name k t) t r h)
  | inr (n, e) ↦ rw (e, claim_name) h
]

set_transports-IsConsistent :
    (t : MessageType) (ns : List String) (r : Registry)
    → IsConsistent r
    → IsConsistent (set_transports t ns r).1
unfolding set_transports
set_transports-IsConsistent t [] r h = h
set_transports-IsConsistent t (n ∷ ns) r h = record { resolves = h.resolves }

-- Registration keeps a class's own name resolving to it, whether it succeeds or is refused.
pub register_message-IsConsistent :
    (k : Classes) (t : MessageType) (name : Option String) (ns : List String) (r : Registry)
    → IsConsistent r
    → IsConsistent (register_message k t name ns r).1
unfolding register_message
register_message-IsConsistent k t name ns r h =
    >>=-keeps IsConsistent (claim_name k t name) (λ _. set_transports t ns) r
      (claim_name-IsConsistent k t name r h) (λ _. set_transports-IsConsistent t ns)

declare_all-IsConsistent :
    (k : Classes) (ds : List Declaration) (r : Registry)
    → IsConsistent r
    → IsConsistent (declare_all k ds r)
unfolding declare_all as_message
declare_all-IsConsistent k [] r h = h
declare_all-IsConsistent k (d ∷ ds) r h =
    declare_all-IsConsistent k ds (as_message k d r).1
      (register_message-IsConsistent k d.message_type d.name (as_tuple d.transport) r h)

-- After any declarations, accepted or refused, a class that has a wire name is the class that
-- this name resolves to.
pub type_for_name-name_of :
    (k : Classes) (ds : List Declaration) (t : MessageType) (name : String)
    → get t (declare_all k ds empty_registry).name_by_type ≡ some name
    → type_for_name
        (declare_all k ds empty_registry)
        (name_of k (declare_all k ds empty_registry) t)
      ≡ ok t
unfolding type_for_name name_of
type_for_name-name_of k ds t name e =
    let start : IsConsistent empty_registry = record { resolves = λ u n p. unfold get in cc } in
    ground (arith, (declare_all-IsConsistent k ds empty_registry start).resolves t name e)

abbrev Resolves : String → MessageType → Registry → Type 0
Resolves n u r = get n r.type_by_name ≡ some u

claim-Resolves :
    (name : String) (t : MessageType) (r : Registry) (n : String) (u : MessageType)
    → Resolves n u r
    → Resolves n u (claim name t r).1
claim-Resolves name t r n u e = elim (claim-cases name t r) [
  | inl (c, free) ↦ rw c (ground (arith, get-put n name t r.type_by_name, free u))
  | inr (c, taken) ↦ rw c e
]

claim_name-Resolves :
    (k : Classes) (t : MessageType) (name : Option String) (r : Registry) (n : String)
    (u : MessageType)
    → Resolves n u r
    → Resolves n u (claim_name k t name r).1
unfolding claim_name
claim_name-Resolves k t (some name) r n u h = claim-Resolves name t r n u h
claim_name-Resolves k t none r n u h = elim (Option-cases (get t r.name_by_type)) [
  | inl e ↦ rw (e, claim_name) (claim-Resolves (default_name k t) t r n u h)
  | inr (_, e) ↦ rw (e, claim_name) h
]

set_transports-Resolves :
    (t : MessageType) (ns : List String) (r : Registry) (n : String) (u : MessageType)
    → Resolves n u r
    → Resolves n u (set_transports t ns r).1
unfolding set_transports
set_transports-Resolves t [] r n u h = h
set_transports-Resolves t (m ∷ ms) r n u h = h

type_for_name_iff :
    (r : Registry) (n : String) (u : MessageType) → (type_for_name r n ≡ ok u) ↔ Resolves n u r
unfolding type_for_name
type_for_name_iff r n u = elim (Option-cases (get n r.type_by_name)) [
  | inl e ↦ (λ h. ground arith, λ h. ground arith)
  | inr (v, e) ↦ (λ h. ground arith, λ h. ground arith)
]

-- A name once taken stays with its class: no later declaration, accepted or refused, moves it.
pub type_for_name-register_message :
    (k : Classes) (t : MessageType) (name : Option String) (ns : List String) (r : Registry)
    (n : String) (u : MessageType)
    → type_for_name r n ≡ ok u
    → type_for_name (register_message k t name ns r).1 n ≡ ok u
unfolding register_message
type_for_name-register_message k t name ns r n u h = (type_for_name_iff _ n u).1 (
    >>=-keeps (Resolves n u) (claim_name k t name) (λ _. set_transports t ns) r
      (claim_name-Resolves k t name r n u ((type_for_name_iff r n u).0 h))
      (λ _ r'. set_transports-Resolves t ns r' n u))

module _ (k : Classes) (t : MessageType) (name : String) (ns : List String) (r : Registry) where
  register_message-accepted :
      claim name t r ≡ (ok tt, bind_name name t r)
      → register_message k t (some name) ns r ≡ set_transports t ns (bind_name name t r)
  unfolding register_message claim_name
  register_message-accepted e = ground arith

  register_message-refused :
      claim name t r ≡ (raise (name_taken name), r)
      → register_message k t (some name) ns r ≡ (raise (name_taken name), r)
  unfolding register_message claim_name
  register_message-refused e = ground arith

set_transports-names :
    (t : MessageType) (ns : List String) (r : Registry)
    → ((set_transports t ns r).0 ≡ ok tt)
      × ((set_transports t ns r).1.name_by_type ≡ r.name_by_type)
      × ((set_transports t ns r).1.type_by_name ≡ r.type_by_name)
unfolding set_transports
set_transports-names t [] r = (refl, refl, refl)
set_transports-names t (n ∷ ns) r = (refl, refl, refl)

-- A declaration with a name is refused exactly when another class has the name; refused, it
-- changes nothing, and accepted, it makes the name the class's own.
pub register_message-outcome :
    (k : Classes) (t : MessageType) (name : String) (ns : List String) (r : Registry)
    → ((register_message k t (some name) ns r ≡ (raise (name_taken name), r))
        × ((u : MessageType) × (type_for_name r name ≡ ok u) × (u ≢ t)))
      ⊎ (((register_message k t (some name) ns r).0 ≡ ok tt)
          × (name_of k (register_message k t (some name) ns r).1 t ≡ name)
          × (type_for_name (register_message k t (some name) ns r).1 name ≡ ok t)
          × ((u : MessageType) → type_for_name r name ≡ ok u → u ≡ t))
unfolding name_of
register_message-outcome k t name ns r = elim (claim-cases name t r) [
  | inl (e, free) ↦
      let (fine, same_names, same_types) = set_transports-names t ns (bind_name name t r) in
      let own : get t (put t name r.name_by_type) ≡ some name =
        ground (arith, get-put t t name r.name_by_type) in
      let back : get name (put name t r.type_by_name) ≡ some t =
        ground (arith, get-put name name t r.type_by_name) in
      rw (register_message-accepted k t name ns r e) (
        inr (
          fine,
          ground arith,
          (type_for_name_iff _ name t).1 (ground arith),
          λ u p. free u ((type_for_name_iff r name u).0 p),
        ))
  | inr (e, (u, found, other)) ↦
      inl
        (register_message-refused k t name ns r e, (u, (type_for_name_iff r name u).1 found, other))
]
