-- ===== src/Taskiq/Publishing.antt =====
-- src/xtr_messenger/bridge/taskiq/taskiq_sender.py.
use python_xtr_messenger.Base.{
  Bool, Dict, Exec, Option, Result, String, [], if◌then◌else◌, lift, none, ok, pos, pure, raise,
  some, string_eq, ◌++◌, ◌>>=◌, ◌>>◌, ◌∷◌,
}
use python_xtr_messenger.Envelope.{Envelope, last, type_of_message, with_stamps}
use python_xtr_messenger.Errors.{Error, unsupported_stamp}
use python_xtr_messenger.Registry.{name_of}
use python_xtr_messenger.Stamps.{Stamp, delay, delay_stamp, stamp_eq, transport_message_id}
use python_xtr_messenger.Taskiq.{
  Delivery, Json, Label, Runtime, delay_label, headers_label, milliseconds, number, queue_label,
  retries_label, words,
}
use python_xtr_messenger.Transport.Serialization.{EncodedEnvelope, SerializerInterface}

-- A `TaskiqSender`. `ensure_started` opens the connection of its broker, and `kiq` publishes a
-- delivery for a task and returns the task's id.
pub record TaskiqSender (S : Type 0) : Type 0 where
  pub serializer : SerializerInterface
  pub queue : Option String
  pub supports_delay : Bool
  pub ensure_started : Exec Error S Unit
  pub kiq : String → Delivery → Exec Error S String

abbrev pub queue_entry : Option String → Dict String Label
queue_entry none = []
queue_entry (some queue) = (queue_label, words queue) ∷ []

-- the label of a delay, if the broker can hold a message back
unfoldable pub delay_entry : Bool → Option Stamp → Result Error (Dict String Label)
delay_entry supports_delay (some (delay ms)) =
    if supports_delay
    then ok ((delay_label, milliseconds ms) ∷ [])
    else raise (unsupported_stamp "DelayStamp" "amqp")
delay_entry supports_delay _ = ok []

-- the labels that every delivery has, and the queue
abbrev pub own_labels : Json → Option String → Dict String String → Dict String Label
own_labels json queue headers =
    (retries_label, number (pos 0))
    ∷ (headers_label, words (json.dumps headers))
    ∷ queue_entry queue

abbrev pub and_labels :
    Dict String Label → Result Error (Dict String Label) → Result Error (Dict String Label)
and_labels labels (raise e) = raise e
and_labels labels (ok more) = ok (labels ++ more)

module _ {S : Type 0} (rt : Runtime) (sender : TaskiqSender S) where
  -- `_labels`
  unfoldable pub labels_for : Envelope → Dict String String → Result Error (Dict String Label)
  unfolding delay_entry last
  labels_for env headers =
      and_labels (own_labels rt.json sender.queue headers)
        (delay_entry sender.supports_delay (last env delay_stamp))

  abbrev pub publish : Envelope → EncodedEnvelope → Exec Error S Envelope
  publish env encoded = lift (labels_for env encoded.headers) >>= λ labels.
      sender.kiq (name_of rt.classes rt.registry (type_of_message env.message))
        (record { body = encoded.body; labels = labels })
      >>= λ task_id. pure (with_stamps env (transport_message_id task_id ∷ []))

  -- `send`
  unfoldable pub send_taskiq : Envelope → Exec Error S Envelope
  unfolding labels_for name_of type_of_message with_stamps
  send_taskiq env = lift (sender.serializer.encode env) >>= λ encoded.
      (sender.ensure_started >> publish env encoded)
