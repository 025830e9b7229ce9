-- ===== src/Stamps.antt =====
-- The stamps of src/xtr_messenger/stamp/: a class for each kind, and the values of each class.
-- An application's own stamp classes are told apart by a number; each derives straight from
-- `StampInterface` or from `NonSendableStampInterface`.
use python_xtr_messenger.Base.{
  Bool, Eq, List, String, false, ite, nat_eq, string_discrete, string_eq, true, ℕ, ℕ_discrete, ℤ,
  ℤ_discrete, ◌≟◌,
}

-- A value of Python that the bus carries and never inspects.
pub data Value : Type 0 where
  null : Value
  num : ℕ → Value
  text : String → Value

pub data StampType : Type 0 where
  stamp_interface non_sendable_stamp_interface : StampType
  ack_receipt_stamp delay_stamp dispatch_after_current_bus_stamp error_details_stamp : StampType
  handled_stamp received_stamp redelivery_stamp sent_stamp : StampType
  transport_message_id_stamp transport_names_stamp : StampType
  custom_stamp custom_non_sendable_stamp : ℕ → StampType

pub data Stamp : Type 0 where
  ack_receipt : ℕ → Stamp
  delay : ℤ → Stamp
  dispatch_after_current_bus : Stamp
  error_details : String → String → Stamp
  handled : String → Value → Stamp
  received : String → Stamp
  redelivery : ℤ → Stamp
  sent : String → String → Stamp
  transport_message_id : String → Stamp
  transport_names : List String → Stamp
  custom custom_non_sendable : ℕ → Value → Stamp

-- `type(stamp)`
unfoldable pub type_of : Stamp → StampType
type_of (ack_receipt _) = ack_receipt_stamp
type_of (delay _) = delay_stamp
type_of dispatch_after_current_bus = dispatch_after_current_bus_stamp
type_of (error_details _ _) = error_details_stamp
type_of (handled _ _) = handled_stamp
type_of (received _) = received_stamp
type_of (redelivery _) = redelivery_stamp
type_of (sent _ _) = sent_stamp
type_of (transport_message_id _) = transport_message_id_stamp
type_of (transport_names _) = transport_names_stamp
type_of (custom c _) = custom_stamp c
type_of (custom_non_sendable c _) = custom_non_sendable_stamp c

-- Whether a class derives from `NonSendableStampInterface`.
unfoldable pub is_non_sendable : StampType → Bool
is_non_sendable non_sendable_stamp_interface = true
is_non_sendable ack_receipt_stamp = true
is_non_sendable dispatch_after_current_bus_stamp = true
is_non_sendable handled_stamp = true
is_non_sendable received_stamp = true
is_non_sendable sent_stamp = true
is_non_sendable (custom_non_sendable_stamp _) = true
is_non_sendable _ = false

unfoldable pub StampType-discrete : Discrete StampType
StampType-discrete = hlevel ℕ_discrete

unfoldable pub Value-discrete : Discrete Value
Value-discrete = hlevel (ℕ_discrete, string_discrete)

unfoldable pub Stamp-discrete : Discrete Stamp
Stamp-discrete = hlevel (ℕ_discrete, ℤ_discrete, string_discrete, Value-discrete)

instance abbrev pub stamp_type_eq : Eq StampType
stamp_type_eq = record { dec_eq = StampType-discrete }

instance abbrev pub stamp_eq : Eq Stamp
stamp_eq = record { dec_eq = Stamp-discrete }

-- `issubclass(c, base)`
unfoldable pub is_subclass : StampType → StampType → Bool
is_subclass c stamp_interface = true
is_subclass c non_sendable_stamp_interface = is_non_sendable c
is_subclass c base = ite (c ≟ base) true false

-- `isinstance(stamp, t)`
unfoldable pub isinstance : Stamp → StampType → Bool
unfolding is_subclass is_non_sendable type_of StampType-discrete
isinstance stamp t = is_subclass (type_of stamp) t
