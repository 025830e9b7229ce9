-- ===== src/Redispatch.antt =====
-- src/xtr_messenger/handler/redispatch_message_handler.py.
pub mod Routed
pub mod Serving
use python_xtr_messenger.Base.{
  Exec, List, Option, Result, String, [], ok, raise, some, string_eq, ◌∷◌,
}
use python_xtr_messenger.Envelope.{Envelope, Subject, last, without_stamps, wrap}
use python_xtr_messenger.Errors.{Error}
use python_xtr_messenger.Stamps.{
  Stamp, Value, handled, handled_stamp, non_sendable_stamp_interface, null, stamp_eq,
  transport_names,
}

-- the envelope to dispatch
unfoldable pub redispatched : Subject → Envelope
unfolding wrap without_stamps
redispatched carried_envelope =
    without_stamps (wrap carried_envelope []) non_sendable_stamp_interface

-- `(TransportNamesStamp(names),) if names else ()`
abbrev pub redispatch_stamps : List String → List Stamp
redispatch_stamps [] = []
redispatch_stamps (n ∷ ns) = transport_names (n ∷ ns) ∷ []

-- `handled.result`, if there is such a stamp
abbrev pub result_of : Option Stamp → Value
result_of (some (handled name result)) = result
result_of _ = null

abbrev pub answer_of : {W : Type 0} → Result Error Envelope × W → Result Error Value × W
answer_of (ok dispatched, w) = (ok (result_of (last dispatched handled_stamp)), w)
answer_of (raise e, w) = (raise e, w)

-- `__call__`; `bus` is `MessageBus.dispatch` of an envelope and more stamps
unfoldable pub handle_redispatch :
    {W : Type 0}
    → (Envelope → List Stamp → Exec Error W Envelope)
    → Subject
    → List String
    → Exec Error W Value
unfolding redispatched last
handle_redispatch bus carried_envelope transports w =
    answer_of (bus (redispatched carried_envelope) (redispatch_stamps transports) w)
