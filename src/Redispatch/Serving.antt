-- ===== src/Redispatch/Serving.antt =====
-- src/xtr_messenger/handler/redispatching_handlers.py.
pub mod Answered
use python_xtr_messenger.Base.{
  Exec, List, Option, Result, String, [], contains, false, if◌then◌else◌, nat_eq, none, ok, raise,
  some, ℕ, ◌++◌, ◌∷◌,
}
use python_xtr_messenger.Classes.{Classes, issubclass}
use python_xtr_messenger.Envelope.{
  Envelope, Message, MessageType, Subject, plain, redispatch, MessageType-discrete, message_type_eq,
  redispatch_message,
}
use python_xtr_messenger.Errors.{Error, handler_error}
use python_xtr_messenger.Handlers.{
  HandlerDescriptor, HandlersLocator, handlers_for, message_types, register,
}
use python_xtr_messenger.Middleware.Handle.{Locator}
use python_xtr_messenger.Redispatch.{handle_redispatch}
use python_xtr_messenger.Stamps.{Stamp, Value}

-- A `RedispatchingHandlers`: its inner locator, its own descriptor, and the bus that it built, told
-- by a number, if it built one.
pub record RedispatchingHandlers (W : Type 0) : Type 0 where
  pub inner : HandlersLocator W
  pub descriptor : HandlerDescriptor W
  pub bus_built : Option ℕ

module _ {W : Type 0} where
  -- what follows the inner lookup
  abbrev pub found_or :
      Classes
      → HandlerDescriptor W
      → MessageType
      → List (HandlerDescriptor W)
      → List (HandlerDescriptor W)
  found_or k d t [] = if issubclass k t redispatch_message then d ∷ [] else []
  found_or k d t (x ∷ xs) = x ∷ xs

  -- `handlers_for`
  unfoldable pub redispatching_for :
      Classes → RedispatchingHandlers W → MessageType → List (HandlerDescriptor W)
  unfolding handlers_for issubclass
  redispatching_for k r t = found_or k r.descriptor t (handlers_for k r.inner t)

  -- `message_types`
  unfoldable pub redispatching_types : RedispatchingHandlers W → List MessageType
  unfolding message_types contains MessageType-discrete
  redispatching_types r =
      let known = message_types r.inner in
      if contains known redispatch_message then known else known ++ redispatch_message ∷ []

  -- `register`
  unfoldable pub register_inner :
      MessageType
      → HandlerDescriptor W
      → RedispatchingHandlers W
      → RedispatchingHandlers W × HandlerDescriptor W
  unfolding register
  register_inner t h r = let (inner, d) = register t h r.inner in (record r { inner = inner }, d)

  -- the bus of `_redispatch`, which `make` builds the first time
  unfoldable pub bus_for :
      Exec Error W ℕ → RedispatchingHandlers W → W → Result Error ℕ × RedispatchingHandlers W × W
  bus_for make r w = elim r.bus_built [
    | some b ↦ (ok b, r, w)
    | none ↦
        let (o, w') = make w in
        elim o [ raise e ↦ (raise e, r, w') | ok b ↦ (ok b, record r { bus_built = some b }, w') ]
  ]

  abbrev pub redispatch_by :
      Subject
      → List String
      → Result Error (Envelope → List Stamp → Exec Error W Envelope) × W
      → Result Error Value × W
  redispatch_by s transports (raise e, w) = (raise e, w)
  redispatch_by s transports (ok dispatch, w) = handle_redispatch dispatch s transports w

  -- `_redispatch`; `bus` gives the dispatch of the bus that was built, or builds it. The class of
  -- redispatch messages is final, so that no other message comes here.
  unfoldable pub handle_again :
      Exec Error W (Envelope → List Stamp → Exec Error W Envelope) → Message → Exec Error W Value
  unfolding handle_redispatch
  handle_again bus (redispatch s transports) w = redispatch_by s transports (bus w)
  handle_again bus (plain c v) w = (raise (handler_error "AttributeError" ""), w)

  -- `__init__`; `own` is the identity of the handler
  abbrev pub new_redispatching :
      ℕ
      → HandlersLocator W
      → Exec Error W (Envelope → List Stamp → Exec Error W Envelope)
      → RedispatchingHandlers W
  new_redispatching own inner bus = record {
    inner = inner;
    descriptor = record {
      handler = own;
      name = "RedispatchMessageHandler";
      wants_envelope = false;
      call = λ m env. handle_again bus m;
    };
    bus_built = none;
  }

  -- The locator that a bus of the factories handles by.
  abbrev pub redispatching_locator : Classes → RedispatchingHandlers W → Locator W
  redispatching_locator k r = record {
    handlers_for = redispatching_for k r;
    message_types = redispatching_types r;
  }
