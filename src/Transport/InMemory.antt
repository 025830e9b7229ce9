-- ===== src/Transport/InMemory.antt =====
-- src/xtr_messenger/transport/in_memory/in_memory_transport.py. `str(uuid4())` is an argument.
pub mod Stamping
pub mod Factory
pub mod Queue
use python_xtr_messenger.Base.{
  Exec, List, Option, Result, String, [], length, map, nat_eq, none, ok, raise, some, string_eq,
  suc, ℕ, ◌++◌, ◌∷◌,
}
use python_xtr_messenger.Envelope.{Envelope, Message, all, last, with_stamps}
use python_xtr_messenger.Errors.{Error, unsupported_stamp}
use python_xtr_messenger.Stamps.{
  Stamp, ack_receipt, delay_stamp, isinstance, received, stamp_eq, transport_message_id,
  transport_message_id_stamp,
}
use python_xtr_messenger.Transport.Serialization.{SerializerInterface}
use python_xtr_messenger.Transport.Serialization.Json.{decode, encode}

-- An `InMemoryTransport`, apart from its serializer: `_sent`, `_queue` and `_rejected`.
pub record InMemory : Type 0 where
  pub sent_log : List Envelope
  pub queue : List Envelope
  pub rejected_log : List Envelope

abbrev pub new_in_memory : InMemory
new_in_memory = record { sent_log = []; queue = []; rejected_log = [] }

-- `messages`
unfoldable pub messages : InMemory → List Message
messages t = map (λ env. env.message) t.sent_log

-- `pending`
unfoldable pub pending_count : InMemory → ℕ
pending_count t = length t.queue

unfoldable pub clear : InMemory → InMemory
clear t = record t { sent_log = []; queue = []; rejected_log = [] }

-- `self._serializer.decode(self._serializer.encode(envelope))`
abbrev pub round_trip : SerializerInterface → Envelope → Result Error Envelope
round_trip c env = elim (c.encode env) [ ok encoded ↦ c.decode encoded | raise e ↦ raise e ]

-- the envelope to record
unfoldable pub recorded_of : Option SerializerInterface → Envelope → Result Error Envelope
recorded_of none env = ok env
recorded_of (some c) env = round_trip c env

-- the recording of an envelope, and what its sender gets back
unfoldable pub record_sent : String → Envelope → Envelope → InMemory → Envelope × InMemory
unfolding all with_stamps isinstance
record_sent id env recorded t =
    let stamped = with_stamps recorded (transport_message_id id ∷ []) in
    (
      with_stamps env (all stamped transport_message_id_stamp),
      record t { sent_log = t.sent_log ++ stamped ∷ []; queue = t.queue ++ stamped ∷ [] },
    )

-- what follows the test for a delay
abbrev pub send_recorded :
    String → Envelope → Result Error Envelope → InMemory → Result Error Envelope × InMemory
send_recorded id env (raise e) t = (raise e, t)
send_recorded id env (ok recorded) t =
    let (returned, t') = record_sent id env recorded t in (ok returned, t')

-- what follows the look for a delay
abbrev pub send_unless :
    Option Stamp → Option SerializerInterface → String → Envelope → Exec Error InMemory Envelope
send_unless (some _) codec id env t = (raise (unsupported_stamp "DelayStamp" "in-memory"), t)
send_unless none codec id env t = send_recorded id env (recorded_of codec env) t

-- `send`
unfoldable pub send_in_memory :
    Option SerializerInterface → String → Envelope → Exec Error InMemory Envelope
unfolding recorded_of last
send_in_memory codec id env = send_unless (last env delay_stamp) codec id env

-- what follows the test of the queue
abbrev pub get_from : List Envelope → ℕ → InMemory → Option Envelope × ℕ × InMemory
get_from [] receipt t = (none, receipt, t)
get_from (env ∷ rest) receipt t = (
  some (with_stamps env (received "in-memory" ∷ ack_receipt (suc receipt) ∷ [])),
  suc receipt,
  record t { queue = rest },
)

-- One resumption of `get`, whose `receipt` counts what it has yielded.
unfoldable pub get_in_memory : ℕ → InMemory → Option Envelope × ℕ × InMemory
unfolding with_stamps
get_in_memory receipt t = get_from t.queue receipt t

-- `ack`
unfoldable pub ack_in_memory : Envelope → InMemory → InMemory
ack_in_memory env t = t

-- `reject`
unfoldable pub reject_in_memory : Envelope → InMemory → InMemory
reject_in_memory env t = record t { rejected_log = t.rejected_log ++ env ∷ [] }
