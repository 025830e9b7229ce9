-- ===== src/Redispatch/Routed.antt =====
-- What a redispatched message is to the routing middleware.
use python_xtr_messenger.Base.{
  List, String, [], ap, last?, none, refl, select, some, string_eq, true, ◌∙◌, ◌∷◌, ◌≡◌,
}
use python_xtr_messenger.Classes.{Classes}
use python_xtr_messenger.Envelope.{Envelope, Subject, all, last, with_stamps, wrap}
use python_xtr_messenger.Envelope.Laws.{all-without_stamps_subclass, last-with_stamps}
use python_xtr_messenger.Redispatch.{redispatch_stamps, redispatched}
use python_xtr_messenger.Registry.{Registry}
use python_xtr_messenger.Stamps.{
  StampType, StampType-discrete, is_non_sendable, is_subclass, isinstance,
  non_sendable_stamp_interface, received_stamp, stamp_type_eq, transport_names,
  transport_names_stamp, type_of,
}
use python_xtr_messenger.Transport.Routes.{Table, names_for, override_of}

module _ (s : Subject) where
  -- The envelope that the bus wraps.
  abbrev pub outgoing : List String → Envelope
  outgoing transports = with_stamps (redispatched s) (redispatch_stamps transports)

  all-redispatched : (t : StampType) → is_non_sendable t ≡ true → all (redispatched s) t ≡ []
  unfolding redispatched is_subclass
  all-redispatched t h = all-without_stamps_subclass (wrap s []) non_sendable_stamp_interface t h

  last-redispatched : (t : StampType) → is_non_sendable t ≡ true → last (redispatched s) t ≡ none
  unfolding last last?
  last-redispatched t h = ap last? (all-redispatched t h)

  last-outgoing : (transports : List String) → last (outgoing transports) received_stamp ≡ none
  unfolding select isinstance last? is_non_sendable is_subclass type_of StampType-discrete
      with_stamps
  last-outgoing [] = last-redispatched received_stamp refl
  last-outgoing (n ∷ ns) =
      last-with_stamps (redispatched s) (transport_names (n ∷ ns) ∷ []) received_stamp
      ∙ last-redispatched received_stamp refl

  override-outgoing :
      (n : String) (ns : List String)
      → override_of (last (outgoing (n ∷ ns)) transport_names_stamp) ≡ some (n ∷ ns)
  unfolding select isinstance last? is_subclass type_of StampType-discrete override_of
  override-outgoing n ns =
      ap override_of
        (last-with_stamps (redispatched s) (transport_names (n ∷ ns) ∷ []) transport_names_stamp)

  names_for_override :
      (k : Classes) (r : Registry) (d : Table) (env : Envelope) (ns : List String)
      → override_of (last env transport_names_stamp) ≡ some ns
      → names_for k r d env ≡ ns
  unfolding names_for
  names_for_override k r d env ns h = rw (h, names_for)

  -- What a redispatch message carries goes out as new, even if it was received: the routing
  -- middleware does not take it for received, and routes it to exactly the transports that the
  -- redispatch names, whatever the table and the message class say.
  pub names_for-outgoing :
      (k : Classes) (r : Registry) (d : Table) (n : String) (ns : List String)
      → (last (outgoing (n ∷ ns)) received_stamp ≡ none)
        × (names_for k r d (outgoing (n ∷ ns)) ≡ n ∷ ns)
  names_for-outgoing k r d n ns = (
    last-outgoing (n ∷ ns),
    names_for_override k r d (outgoing (n ∷ ns)) (n ∷ ns) (override-outgoing n ns),
  )
