-- ===== src/Tests/Sample.antt =====
-- Two message classes, an envelope, and what the tests build on.
use python_xtr_messenger.Base.{
  pos, Dict, Exec, List, String, [], nat_eq, ok, raise, string_eq, suc, zero, ℕ, ◌∷◌,
}
use python_xtr_messenger.Classes.{Classes}
use python_xtr_messenger.Envelope.{
  Envelope, MessageType, declared, message_type_eq, object, plain, with_stamps,
}
use python_xtr_messenger.Errors.{Error, handler_error}
use python_xtr_messenger.Stamps.{StampType, delay, num, stamp_type_eq, transport_message_id}
use python_xtr_messenger.Transport.Sender.{Sender}
use python_xtr_messenger.Transport.Sync.{sync_transport}

abbrev pub order_placed : MessageType
order_placed = declared 1

abbrev sample_mro : MessageType → List MessageType
sample_mro object = object ∷ []
sample_mro t = t ∷ object ∷ []

abbrev sample_qual_name : MessageType → String
sample_qual_name (declared (suc zero)) = "OrderPlaced"
sample_qual_name _ = "Other"

abbrev pub sample_classes : Classes
sample_classes = record {
  mro = sample_mro;
  module_name = λ _. "app.messages";
  qual_name = sample_qual_name;
}

abbrev pub order : Envelope
order = record { message = plain 1 (num 7); stamps = [] }

abbrev pub delayed_order : Envelope
delayed_order = record { message = plain 1 (num 7); stamps = delay (pos 3) ∷ [] }

-- What the rest of a chain does in the tests: it counts the call and returns the envelope.
abbrev pub count_call : Envelope → Exec Error ℕ Envelope
count_call env n = (ok env, suc n)

-- A sender that counts and returns the envelope with a message id, and one that is broken.
abbrev pub queue_sender : Sender ℕ
queue_sender = record {
  class_name = "QueueSender";
  send = λ env n. (ok (with_stamps env (transport_message_id "m-1" ∷ [])), suc n);
}

abbrev pub broken_sender : Sender ℕ
broken_sender = record {
  class_name = "BrokenSender";
  send = λ env n. (raise (handler_error "OSError" "gone"), n);
}

abbrev pub sample_senders : Dict String (Sender ℕ)
sample_senders = ("queue", queue_sender) ∷ ("broken", broken_sender) ∷ ("sync", sync_transport) ∷ []

abbrev pub no_stamp_names : StampType → String
no_stamp_names _ = "AppStamp"
