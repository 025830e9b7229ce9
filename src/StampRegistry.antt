-- ===== src/StampRegistry.antt =====
-- src/xtr_messenger/stamp_registry.py: the stamp classes that serializers restore. The names of
-- an application's stamp classes are a parameter.
pub mod Lookup
use python_xtr_messenger.Base.{
  Dict, Exec, List, Option, String, [], get, ite, none, ok, or_else, put, raise, some,
  string_discrete, string_eq, values, ◌∷◌, ◌≟◌,
}
use python_xtr_messenger.Errors.{Error, name_taken, names}
use python_xtr_messenger.Stamps.{
  StampType, StampType-discrete, ack_receipt_stamp, delay_stamp, dispatch_after_current_bus_stamp,
  error_details_stamp, handled_stamp, non_sendable_stamp_interface, received_stamp,
  redelivery_stamp, sent_stamp, stamp_interface, stamp_type_eq, transport_message_id_stamp,
  transport_names_stamp,
}

-- `stamp_type.__name__`
unfoldable pub stamp_name : (StampType → String) → StampType → String
stamp_name names stamp_interface = "StampInterface"
stamp_name names non_sendable_stamp_interface = "NonSendableStampInterface"
stamp_name names ack_receipt_stamp = "AckReceiptStamp"
stamp_name names delay_stamp = "DelayStamp"
stamp_name names dispatch_after_current_bus_stamp = "DispatchAfterCurrentBusStamp"
stamp_name names error_details_stamp = "ErrorDetailsStamp"
stamp_name names handled_stamp = "HandledStamp"
stamp_name names received_stamp = "ReceivedStamp"
stamp_name names redelivery_stamp = "RedeliveryStamp"
stamp_name names sent_stamp = "SentStamp"
stamp_name names transport_message_id_stamp = "TransportMessageIdStamp"
stamp_name names transport_names_stamp = "TransportNamesStamp"
stamp_name names t = names t

-- `DEFAULT_STAMP_TYPES` of src/xtr_messenger/stamp/__init__.py
abbrev pub default_stamp_types : List StampType
default_stamp_types =
    delay_stamp ∷ error_details_stamp ∷ redelivery_stamp ∷ transport_message_id_stamp
    ∷ transport_names_stamp ∷ []

-- the classes by their names, after those that are there
unfoldable pub named_from :
    (StampType → String) → List StampType → Dict String StampType → Dict String StampType
unfolding stamp_name put string_discrete
named_from names [] d = d
named_from names (t ∷ ts) d = named_from names ts (put (stamp_name names t) t d)

-- `{t.__name__: t for t in types}`: of two classes of one name, the last
unfoldable pub by_name : (StampType → String) → List StampType → Dict String StampType
unfolding named_from
by_name names types = named_from names types []

-- `_DECLARED_BY_NAME`
pub record StampRegistry : Type 0 where
  pub declared_by_name : Dict String StampType

abbrev pub empty_stamp_registry : StampRegistry
empty_stamp_registry = record { declared_by_name = [] }

abbrev pub bind_stamp : (StampType → String) → StampType → StampRegistry → StampRegistry
bind_stamp names t r = record r { declared_by_name = put (stamp_name names t) t r.declared_by_name }

module _ (names : StampType → String) where
  unfoldable pub stamp_type_for : StampRegistry → String → Option StampType
  unfolding by_name
  stamp_type_for r name =
      or_else (get name (by_name names default_stamp_types)) (get name r.declared_by_name)

  unfoldable pub register_stamp : StampType → Exec Error StampRegistry (Unit {0})
  unfolding stamp_name StampType-discrete
  register_stamp t r = elim (stamp_type_for r (stamp_name names t)) [
    | none ↦ (ok tt, record r { declared_by_name = put (stamp_name names t) t r.declared_by_name })
    | some claimed ↦ ite (claimed ≟ t) (ok tt, r) (raise (name_taken (stamp_name names t)), r)
  ]

unfoldable pub declared_stamps : StampRegistry → List StampType
declared_stamps r = values r.declared_by_name
