-- ===== src/Worker.antt =====
-- src/xtr_messenger/worker.py. `S` is the state of the process, which the bus, the receiver, the
-- listeners and the resetter change; the worker's own two fields are reached through `Flags`.
pub mod Events
pub mod Handling
pub mod Settlement
pub mod Drained
pub mod Finite
use python_xtr_messenger.Base.{
  Bool, Exec, Option, Result, String, [], false, if◌then◌else◌, ite, nat_eq, none, ok, raise, some,
  string_discrete, string_eq, suc, true, zero, ℕ, ◌>>◌, ◌∷◌, ◌≟◌,
}
use python_xtr_messenger.Envelope.{Envelope, last, with_stamps}
use python_xtr_messenger.Errors.{Error}
use python_xtr_messenger.Stamps.{received, received_stamp}
use python_xtr_messenger.Worker.Events.{Dispatcher, WorkerEvent, running, started, stopped_event}
use python_xtr_messenger.Worker.Handling.{
  Outcome, after_finally, announce_failure, failed, handle, handled_outcome, receiver_name_of,
  skipped,
}

-- `ReceiverInterface`: `fetch` is the next envelope of the stream that `get` returned, or none
-- when the stream has ended or a stop came while it was waited on; `close` closes that stream.
pub record Receiver (S : Type 0) : Type 0 where
  pub fetch : Exec Error S (Option Envelope)
  pub close : Exec Error S Unit
  pub ack : Envelope → Exec Error S Unit
  pub reject : Envelope → Exec Error S Unit

-- `_stopped`, whether its event is set if there is one, and `_stop_requested`.
pub record StopFlags : Type 0 where
  pub stopped : Option Bool
  pub stop_requested : Bool

-- The worker's fields within the process.
pub record Process (W : Type 0) : Type 0 where
  pub app : W
  pub flags : StopFlags

-- What a `Worker` is built with.
pub record Worker (S : Type 0) : Type 0 where
  pub bus : Envelope → Exec Error S Envelope
  pub receiver : Receiver S
  pub resetter : Option (Exec Error S Unit)
  pub dispatcher : Option (Dispatcher S)
  pub receiver_name : Option String
  pub render : Error → String

-- `Worker.stop`
unfoldable pub stop : StopFlags → StopFlags
stop f = elim f.stopped [
  | some _ ↦ record f { stopped = some true }
  | none ↦ record f { stop_requested = true }
]

-- the start of `run`: the event, set at once if a stop was asked for
unfoldable pub begin : StopFlags → StopFlags
begin f = record { stopped = some f.stop_requested; stop_requested = false }

-- `stopped.is_set()`
unfoldable pub is_set : StopFlags → Bool
is_set f = elim f.stopped [ some b ↦ b | none ↦ false ]

-- `try: … finally: …`
abbrev pub finally_do : {S A : Type 0} → Exec Error S A → Exec Error S Unit → Exec Error S A
finally_do m after s = after_finally (m s).0 (after (m s).1)

-- The envelope that `_settle` has handled: stamped with the worker's own name if it has one and the
-- envelope's last `ReceivedStamp` gives another.
unfoldable pub named_envelope : Option String → Envelope → Envelope
unfolding string_discrete
named_envelope none env = env
named_envelope (some name) env = elim (last env received_stamp) [
  | some (received n) ↦ ite (n ≟ name) env (with_stamps env (received name ∷ []))
  | _ ↦ with_stamps env (received name ∷ [])
]

module _ {S : Type 0} (w : Worker S) where
  -- the `match` of `_settle`
  unfoldable pub settle_outcome : String → Outcome × S → Result Error Unit × S
  settle_outcome name (handled_outcome env, s) = w.receiver.ack env s
  settle_outcome name (skipped env, s) = w.receiver.ack env s
  settle_outcome name (failed env e, s) =
      announce_failure w.dispatcher w.render w.receiver.reject false name env e s

  abbrev pub reset : Exec Error S Unit
  reset s = elim w.resetter [ none ↦ (ok tt, s) | some r ↦ r s ]

  -- `_settle`
  unfoldable pub settle : Envelope → Exec Error S Unit
  unfolding named_envelope settle_outcome
  settle env =
      finally_do
        (λ s. settle_outcome (receiver_name_of env w.receiver_name) (
          handle w.bus w.dispatcher (named_envelope w.receiver_name env)
            (receiver_name_of env w.receiver_name) s))
        reset

  -- `_announce`
  abbrev pub announce : WorkerEvent → Exec Error S Unit
  announce event s = elim w.dispatcher [ none ↦ (ok tt, s) | some d ↦ d.announce event s ]

module _ {W : Type 0} (w : Worker (Process W)) where
  -- `_next_unless_stopped`
  unfoldable pub next_unless_stopped : Exec Error (Process W) (Option Envelope)
  unfolding is_set
  next_unless_stopped p = if is_set p.flags then (ok none, p) else w.receiver.fetch p

  -- what follows the body of the `while`
  abbrev pub after_settling :
      (Process W → Option (Result Error Unit × Process W))
      → Result Error Unit × Process W
      → Option (Result Error Unit × Process W)
  after_settling rest (raise e, p) = some (raise e, p)
  after_settling rest (ok _, p) = rest p

  -- the body of the `while`, once its test has an answer
  abbrev pub after_fetch :
      (Process W → Option (Result Error Unit × Process W))
      → Result Error (Option Envelope) × Process W
      → Option (Result Error Unit × Process W)
  after_fetch rest (raise e, p) = some (raise e, p)
  after_fetch rest (ok none, p) = some (ok tt, p)
  after_fetch rest (ok (some env), p) = after_settling rest ((settle w env >> announce w running) p)

  -- the `while` of `run`, for fewer messages than `fuel`; none when those do not do
  unfoldable pub receive : ℕ → Process W → Option (Result Error Unit × Process W)
  unfolding next_unless_stopped settle
  receive zero p = none
  receive (suc fuel) p = after_fetch (receive fuel) (next_unless_stopped p)

  -- the `finally` of `run`
  abbrev pub wind_up : Exec Error (Process W) Unit
  wind_up p =
      (w.receiver.close >> announce w stopped_event)
        (record p { flags = record p.flags { stopped = none } })

  abbrev pub after_loop :
      Option (Result Error Unit × Process W) → Option (Result Error Unit × Process W)
  after_loop none = none
  after_loop (some (r, p)) = some (after_finally r (wind_up p))

  abbrev pub after_started :
      ℕ → Result Error Unit × Process W → Option (Result Error Unit × Process W)
  after_started fuel (raise e, p) = some (raise e, p)
  after_started fuel (ok _, p) = after_loop (receive fuel p)

  -- `run`
  unfoldable pub run_worker : ℕ → Process W → Option (Result Error Unit × Process W)
  unfolding receive begin
  run_worker fuel p = after_started fuel (announce w started (record p { flags = begin p.flags }))
