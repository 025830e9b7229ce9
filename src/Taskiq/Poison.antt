-- ===== src/Taskiq/Poison.antt =====
-- src/xtr_messenger/bridge/taskiq/poison_message_receiver.py.
use python_xtr_messenger.Base.{
  Bool, Exec, Option, Result, String, if◌then◌else◌, none, ok, raise, some, string_eq, ◌+++◌, ◌>>◌,
}
use python_xtr_messenger.Errors.{Error}

-- What a message of the loop is: bytes, as a text here, and whether it can be acknowledged.
pub record Arrival : Type 0 where
  pub content : String
  pub ackable : Bool

-- A `PoisonMessageReceiver`: `parse` is the formatter's `loads` and `parse_labels`, which gives a
-- task's name or the class of what it raised; `has_task` whether the broker has a task of the name;
-- `callback` the wrapped loop's own; `repr` Python's, and `warn`
-- the logger's.
pub record PoisonReceiver (S : Type 0) : Type 0 where
  pub parse : String → Result String String
  pub has_task : String → S → Bool
  pub callback : Arrival → Bool → Exec Error S Unit
  pub repr : String → String
  pub warn : String → S → S
  pub dead_letter : Option (String → String → Exec Error S Unit)
  pub ack : Arrival → Exec Error S Unit

module _ {S : Type 0} (p : PoisonReceiver S) where
  -- what follows the parsing
  abbrev pub reason_of : Result String String → S → Option String
  reason_of (raise e) s = some ("the delivery could not be parsed (" +++ e +++ ")")
  reason_of (ok name) s =
      if p.has_task name s then none else some ("no task is registered under " +++ p.repr name)

  -- `_poison_reason`
  unfoldable pub poison_reason : String → S → Option String
  poison_reason content s = reason_of (p.parse content) s

  -- `await self._dead_letter(data, reason)`, if there is one
  abbrev pub bury : String → String → Exec Error S Unit
  bury content reason s = elim p.dead_letter [
    | none ↦ (ok tt, s)
    | some dead_letter ↦ dead_letter content reason s
  ]

  abbrev pub acknowledge : Arrival → Exec Error S Unit
  acknowledge incoming s = if incoming.ackable then p.ack incoming s else (ok tt, s)

  -- `callback`
  unfoldable pub screen : Arrival → Bool → Exec Error S Unit
  unfolding poison_reason
  screen incoming raise_err s = elim (poison_reason incoming.content s) [
    | none ↦ p.callback incoming raise_err s
    | some reason ↦ (bury incoming.content reason >> acknowledge incoming) (p.warn reason s)
  ]
