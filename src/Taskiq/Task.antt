-- ===== src/Taskiq/Task.antt =====
-- src/xtr_messenger/bridge/taskiq/binding.py: what a task does with a delivery, and the tasks of a
-- bus. `S` is the state of the process.
use python_xtr_messenger.Base.{
  Bool, Dict, Eq, Exec, List, Option, Result, String, [], false, get, if◌then◌else◌, ltb, none, ok,
  pred, raise, some, string_discrete, string_eq, throw, true, ℤ, ◌>>◌, ◌∷◌,
}
use python_xtr_messenger.Envelope.{Envelope, last}
use python_xtr_messenger.Errors.{Error, message_decoding_failed}
use python_xtr_messenger.Registry.{declared_names}
use python_xtr_messenger.Stamps.{Stamp, redelivery, redelivery_stamp, stamp_eq}
use python_xtr_messenger.Taskiq.{
  Delivery, Label, Runtime, lost_label_attempt, queue_label, rebuild, words,
}
use python_xtr_messenger.Transport.Serialization.{SerializerInterface}
use python_xtr_messenger.Worker.{finally_do}
use python_xtr_messenger.Worker.Events.{Dispatcher}
use python_xtr_messenger.Worker.Handling.{
  Outcome, announce_failure, failed, handle, handled_outcome, skipped,
}

unfoldable pub queue_discrete : Discrete (Option String)
queue_discrete = hlevel string_discrete

instance abbrev pub queue_eq : Eq (Option String)
queue_eq = record { dec_eq = queue_discrete }

-- A `_Binding`. `render` is `str` of an exception.
pub record Binding (S : Type 0) : Type 0 where
  pub bus : Envelope → Exec Error S Envelope
  pub serializer : SerializerInterface
  pub dispatcher : Option (Dispatcher S)
  pub receiver_names : Dict (Option String) String
  pub max_attempts : Option ℤ
  pub resetter : Option (Exec Error S Unit)
  pub dead_letter : Option (Delivery → Error → Exec Error S Unit)
  pub render : Error → String

-- the queue that a label names; none is the broker's default queue
unfoldable pub queue_of : Option Label → Option String
queue_of (some (words queue)) = some queue
queue_of _ = none

-- `_Binding.receiver_name`
unfoldable pub receiver_name : Dict (Option String) String → Dict String Label → String
unfolding queue_of queue_discrete string_discrete
receiver_name ((queue, name) ∷ []) labels = name
receiver_name names labels = elim (get (queue_of (get queue_label labels)) names) [
  | some name ↦ name
  | none ↦ "taskiq"
]

-- the attempt that an envelope tells of
unfoldable pub attempt_of : Option Stamp → ℤ
attempt_of (some (redelivery k)) = k
attempt_of _ = lost_label_attempt

-- `_Binding.will_retry`
unfoldable pub will_retry : Option ℤ → Envelope → Bool
unfolding attempt_of last
will_retry none env = false
will_retry (some attempts) env = ltb (attempt_of (last env redelivery_stamp)) (pred attempts)

-- `isinstance(error, MessageDecodingFailedError)`
unfoldable pub is_decoding_failure : Error → Bool
is_decoding_failure (message_decoding_failed _ _) = true
is_decoding_failure _ = false

module _ {S : Type 0} (rt : Runtime) (b : Binding S) where
  -- what follows `handle`
  unfoldable pub conclude_task : String → Outcome × S → Result Error Unit × S
  unfolding announce_failure will_retry
  conclude_task name (handled_outcome env, s) = (ok tt, s)
  conclude_task name (skipped env, s) = (ok tt, s)
  conclude_task name (failed env e, s) =
      (announce_failure b.dispatcher b.render (λ _ s'. (ok tt, s')) (will_retry b.max_attempts env)
            name env e
          >> throw e)
        s

  -- the `except` around `_rebuild`
  unfoldable pub quarantine : Delivery → Error → Exec Error S Unit
  quarantine delivery e s = elim b.dead_letter [
    | none ↦ (raise e, s)
    | some dead_letter ↦ dead_letter delivery e s
  ]

  -- what follows `_rebuild`
  unfoldable pub after_rebuild : Delivery → String → Result Error Envelope → Exec Error S Unit
  unfolding quarantine conclude_task handle is_decoding_failure
  after_rebuild delivery name (ok env) s = conclude_task name (handle b.bus b.dispatcher env name s)
  after_rebuild delivery name (raise e) s =
      if is_decoding_failure e then quarantine delivery e s else (raise e, s)

  abbrev pub reset_services : Exec Error S Unit
  reset_services s = elim b.resetter [ none ↦ (ok tt, s) | some reset ↦ reset s ]

  abbrev pub rebuilt : String → Delivery → Result Error Envelope
  rebuilt task_name delivery =
      rebuild rt b.serializer delivery task_name (receiver_name b.receiver_names delivery.labels)

  -- the body of the `try` of `run`
  abbrev pub task_body : String → Delivery → Exec Error S Unit
  task_body task_name delivery =
      after_rebuild delivery (receiver_name b.receiver_names delivery.labels)
        (rebuilt task_name delivery)

  -- `run`, the task that `_task_for` makes
  unfoldable pub run_task : String → Delivery → Exec Error S Unit
  unfolding after_rebuild rebuild receiver_name
  run_task task_name delivery = finally_do (task_body task_name delivery) reset_services

abbrev pub TaskBody : Type 0 → Type 0
TaskBody S = Delivery → Exec Error S Unit

-- A broker's tasks by name, of another package.
pub record TaskTable (B S : Type 0) : Type 0 where
  pub register_task : String → TaskBody S → B → B
  pub find_task : String → B → Option (TaskBody S)

module _ {B S : Type 0} (table : TaskTable B S) where
  -- the loop of `bind_bus`
  unfoldable pub register_all : (String → TaskBody S) → List String → B → B
  register_all task_for [] broker = broker
  register_all task_for (name ∷ names) broker =
      register_all task_for names (table.register_task name (task_for name) broker)

  -- `bind_bus`
  unfoldable pub bind_bus : Runtime → Binding S → B → List String × B
  unfolding register_all run_task declared_names
  bind_bus rt b broker =
      let names = declared_names rt.registry in (names, register_all (run_task rt b) names broker)
