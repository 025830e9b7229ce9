-- ===== src/Worker/Handling.antt =====
-- src/xtr_messenger/_handling.py.
use python_xtr_messenger.Base.{
  Bool, Exec, Option, Result, String, [], if◌then◌else◌, none, ok, raise, some, string_eq, ◌∷◌,
}
use python_xtr_messenger.Envelope.{Envelope, last, with_stamps}
use python_xtr_messenger.Errors.{Error, class_name, first, handler_error, handlers_failed}
use python_xtr_messenger.Stamps.{error_details, received, received_stamp}
use python_xtr_messenger.Worker.Events.{
  Dispatcher, MessageEvent, failed_event, handled_event, new_event, received_event,
}

pub data Outcome : Type 0 where
  handled_outcome skipped : Envelope → Outcome
  failed : Envelope → Error → Outcome

unfoldable pub receiver_name_of : Envelope → Option String → String
receiver_name_of env (some name) = name
receiver_name_of env none = elim (last env received_stamp) [ some (received name) ↦ name | _ ↦ "" ]

-- How a `try` ends, by what its `finally` did.
abbrev pub after_finally :
    {S A : Type 0} → Result Error A → Result Error Unit × S → Result Error A × S
after_finally r (ok _, s) = (r, s)
after_finally r (raise e, s) = (raise e, s)

module _ {S : Type 0} where
  -- `await dispatcher.dispatch(event)`, if there is a dispatcher
  abbrev pub tell : Option (Dispatcher S) → MessageEvent → S → Result Error Unit × MessageEvent × S
  tell none event s = (ok tt, event, s)
  tell (some d) event s = d.dispatch_event event s

  -- what follows the handled event
  abbrev pub after_handled : Envelope → Result Error Unit × MessageEvent × S → Outcome × S
  after_handled env (raise e, event, s) = (failed env e, s)
  after_handled env (ok _, event, s) = (handled_outcome event.envelope, s)

  -- what follows `bus.dispatch(env)`
  abbrev pub after_dispatch :
      Option (Dispatcher S) → String → Envelope → Result Error Envelope × S → Outcome × S
  after_dispatch d name env (raise e, s) = (failed env e, s)
  after_dispatch d name env (ok returned, s) =
      after_handled returned (tell d (new_event handled_event returned name) s)

  -- what follows the received event
  abbrev pub after_received :
      (Envelope → Exec Error S Envelope)
      → Option (Dispatcher S)
      → String
      → Envelope
      → Result Error Unit × MessageEvent × S
      → Outcome × S
  after_received bus d name env (raise e, event, s) = (failed env e, s)
  after_received bus d name env (ok _, event, s) =
      if event.will_handle
      then after_dispatch d name event.envelope (bus event.envelope s)
      else (skipped event.envelope, s)

  unfoldable pub handle :
      (Envelope → Exec Error S Envelope)
      → Option (Dispatcher S)
      → Envelope
      → String
      → S
      → Outcome × S
  handle bus d env name s =
      after_received bus d name env (tell d (new_event received_event env name) s)

-- What went wrong: the first of what handlers raised, if it is handlers that failed. With none of
-- them there is no first, and taking it raises.
unfoldable pub cause_of : Error → Result Error Error
unfolding first
cause_of (handlers_failed env errors) = elim (first errors) [
  | some e ↦ ok e
  | none ↦ raise (handler_error "RuntimeError" "coroutine raised StopIteration")
]
cause_of e = ok e

-- a `WorkerMessageFailedEvent`
abbrev pub new_failed_event : Envelope → String → Error → Bool → MessageEvent
new_failed_event env name e will_retry = record (new_event (failed_event e) env name) {
  will_retry = will_retry;
}

module _ {S : Type 0} where
  -- the announcement and the settlement of the envelope that the listeners left
  abbrev pub announce_and_settle :
      (Envelope → Exec Error S Unit) → Result Error Unit × MessageEvent × S → Result Error Unit × S
  announce_and_settle settling (r, event, s) = after_finally r (settling event.envelope s)

  unfoldable pub announce_failure :
      Option (Dispatcher S)
      → (Error → String)
      → (Envelope → Exec Error S Unit)
      → Bool
      → String
      → Envelope
      → Error
      → Exec Error S Unit
  unfolding cause_of class_name
  announce_failure d render settling will_retry name env e s = elim (cause_of e) [
    | raise x ↦ (raise x, s)
    | ok cause ↦
        let stamped = with_stamps env (error_details (class_name cause) (render cause) ∷ []) in
        announce_and_settle settling (tell d (new_failed_event stamped name e will_retry) s)
  ]
