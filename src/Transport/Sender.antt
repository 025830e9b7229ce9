-- ===== src/Transport/Sender.antt =====
-- src/xtr_messenger/transport/sender/sender_interface.py and senders_locator_interface.py.
use python_xtr_messenger.Base.{Exec, List, String, string_eq}
use python_xtr_messenger.Envelope.{Envelope}
use python_xtr_messenger.Errors.{Error}

-- `class_name` is `type(sender).__name__`; `W` is the state that sending changes.
pub record Sender (W : Type 0) : Type 0 where
  pub class_name : String
  pub send : Envelope → Exec Error W Envelope

-- What a generator yields, one value after the other, until it returns or raises.
pub data Yields {ℓ} (A : Type ℓ) : Type ℓ where
  done : Yields A
  yield : A → Yields A → Yields A
  fails : Error → Yields A

-- `SendersLocatorInterface`
pub record Senders (W : Type 0) : Type 0 where
  pub senders_for : Envelope → Yields (String × Sender W)
  pub routed_type_names : List String
