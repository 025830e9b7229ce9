-- ===== src/Middleware/Logging.antt =====
-- src/xtr_messenger/middleware/logging_middleware.py: what a dispatch did, told to a logger.
pub mod Records
use python_xtr_messenger.Base.{
  Dict, Exec, List, Option, Result, String, [], map, ok, pure, raise, some, string_eq, ◌++◌, ◌>>◌,
  ◌∷◌,
}
use python_xtr_messenger.Envelope.{
  Envelope, MessageType, all, last, message_type_eq, type_of_message,
}
use python_xtr_messenger.Errors.{Error}
use python_xtr_messenger.Middleware.{Middleware, Prog, next, perform, ret}
use python_xtr_messenger.Stamps.{
  Stamp, Value, handled, handled_stamp, null, sent, sent_stamp, stamp_eq, transport_message_id,
  transport_message_id_stamp,
}

-- A value of a record's context.
pub data Detail : Type 0 where
  of_text : String → Detail
  of_value : Value → Detail
  of_texts : List String → Detail

pub data Severity : Type 0 where
  debug_level info_level notice_level : Severity

-- A record that a logger is given.
pub record LogRecord : Type 0 where
  pub severity : Severity
  pub message : String
  pub context : Dict String Detail

-- `LoggerInterface`, of another package, and what the code asks of Python: the `__name__` of a
-- message's class, and `repr` of a stamp.
pub record Logger (W : Type 0) : Type 0 where
  pub log : LogRecord → Exec Error W Unit
  pub type_name : MessageType → String
  pub repr_stamp : Stamp → String

-- the transport that the last `SentStamp` names
unfoldable pub sent_details : Option Stamp → Dict String Detail
sent_details (some (sent class_name sender_alias)) = ("transport", of_text sender_alias) ∷ []
sent_details _ = []

-- the id that the last `TransportMessageIdStamp` carries
unfoldable pub id_details : Option Stamp → Dict String Detail
id_details (some (transport_message_id message_id)) = ("message_id", of_text message_id) ∷ []
id_details _ = []

-- `_dispatched`
unfoldable pub dispatched_details : Envelope → String → Dict String Detail
unfolding sent_details id_details last
dispatched_details result message_type =
    ("message_type", of_text message_type) ∷ sent_details (last result sent_stamp)
    ++ id_details (last result transport_message_id_stamp)

unfoldable pub result_details : Value → Dict String Detail
result_details null = []
result_details value = ("result", of_value value) ∷ []

-- `_handled`
unfoldable pub handled_details : Stamp → String → Dict String Detail
unfolding result_details
handled_details (handled handler_name value) message_type =
    ("message_type", of_text message_type)
    ∷ ("handler", of_text handler_name)
    ∷ result_details value
handled_details _ message_type = ("message_type", of_text message_type) ∷ []

-- `_stamped`
abbrev pub stamped_details : (Stamp → String) → Envelope → String → Dict String Detail
stamped_details repr_stamp result message_type =
    ("message_type", of_text message_type)
    ∷ ("stamps", of_texts (map repr_stamp result.stamps))
    ∷ []

module _ {W : Type 0} (logger : Logger W) where
  abbrev pub notice : String → Dict String Detail → Exec Error W Unit
  notice message context =
      logger.log (record { severity = notice_level; message = message; context = context })

  abbrev pub info : String → Dict String Detail → Exec Error W Unit
  info message context =
      logger.log (record { severity = info_level; message = message; context = context })

  abbrev pub debug : String → Dict String Detail → Exec Error W Unit
  debug message context =
      logger.log (record { severity = debug_level; message = message; context = context })

  -- the loop over the handled stamps
  unfoldable pub log_handled : List Stamp → String → Exec Error W Unit
  unfolding handled_details
  log_handled [] message_type w = (ok tt, w)
  log_handled (s ∷ ss) message_type w =
      (info "message handled" (handled_details s message_type) >> log_handled ss message_type) w

  -- what follows the rest of the chain
  unfoldable pub log_result : Envelope → Exec Error W Envelope
  unfolding log_handled dispatched_details all type_of_message
  log_result result =
      let message_type = logger.type_name (type_of_message result.message) in
      notice "message dispatched" (dispatched_details result message_type)
      >> (log_handled (all result handled_stamp) message_type
          >> (debug "envelope stamped" (stamped_details logger.repr_stamp result message_type)
              >> pure result))

  abbrev pub after_chain : Result Error Envelope → Prog W Envelope
  after_chain (ok result) = perform (log_result result)
  after_chain (raise e) = ret (raise e)

  -- `handle`
  unfoldable pub log_dispatch : Middleware W
  unfolding log_result
  log_dispatch env = next env after_chain
