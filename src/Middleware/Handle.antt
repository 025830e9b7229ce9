-- ===== src/Middleware/Handle.antt =====
-- src/xtr_messenger/middleware/handle_message_middleware.py: every handler of a message runs, and
-- what they raise is collected.
pub mod Naming
pub mod Trace
use python_xtr_messenger.Base.{
  Bool, Exec, List, String, [], decimal, if◌then◌else◌, map, nat_eq, ok, raise, sorted, string_eq,
  suc, zero, ℕ, ◌+++◌, ◌∷◌,
}
use python_xtr_messenger.Classes.{Classes}
use python_xtr_messenger.Envelope.{
  Envelope, MessageType, message_type_eq, type_of_message, with_stamps,
}
use python_xtr_messenger.Errors.{
  Error, Errors, add, count_errors, failure, handlers_failed, has_name, no_errors,
  no_handler_for_message,
}
use python_xtr_messenger.Handlers.{HandlerDescriptor, invoke}
use python_xtr_messenger.Middleware.{Middleware, Prog, and_then, delegate, perform, ret}
use python_xtr_messenger.Stamps.{handled}

-- `HandlersLocatorInterface`, as far as the middleware uses it.
pub record Locator (W : Type 0) : Type 0 where
  pub handlers_for : MessageType → List (HandlerDescriptor W)
  pub message_types : List MessageType

-- `f"{name}#{count}"`, and the name itself to begin with
abbrev pub numbered : String → ℕ → String
numbered name zero = name
numbered name (suc zero) = name
numbered name (suc (suc n)) = name +++ "#" +++ decimal (suc (suc n))

-- the loop of `_unused`, from `count` on; the fuel bounds its rounds
unfoldable pub unused_from : ℕ → Errors → String → ℕ → String
unused_from zero _ name count = numbered name count
unused_from (suc f) errors name count =
    let rest = unused_from f errors name (suc count) in
    if has_name (numbered name count) errors then rest else numbered name count

-- `_unused`; one round more than there are errors is enough
unfoldable pub unused : Errors → String → String
unused errors name = unused_from (suc (count_errors errors)) errors name 1

module _ {W : Type 0} where
  -- the loop over the handlers
  unfoldable pub run_handlers :
      List (HandlerDescriptor W) → Envelope → Errors → W → Envelope × Errors × W
  run_handlers [] env errors w = (env, errors, w)
  run_handlers (d ∷ ds) env errors w =
      let (r, w') = invoke d env w in
      elim r [
        | ok result ↦ run_handlers ds (with_stamps env (handled d.name result ∷ [])) errors w'
        | raise e ↦ run_handlers ds env (add (unused errors d.name) e errors) w'
      ]

  -- what follows the loop
  unfoldable pub conclude : Envelope × Errors → Prog W Envelope
  conclude (env, no_errors) = delegate env
  conclude (env, failure n e es) = ret (raise (handlers_failed env (failure n e es)))

  abbrev pub run_all : List (HandlerDescriptor W) → Envelope → Exec Error W (Envelope × Errors)
  run_all ds env w =
      let (env', errors, w') = run_handlers ds env no_errors w in (ok (env', errors), w')

  -- `handle`
  unfoldable pub handle_message : Classes → Locator W → Bool → Middleware W
  unfolding conclude
  handle_message k locator require_handler env =
      let t = type_of_message env.message in
      let proceed = and_then (perform (run_all (locator.handlers_for t) env)) conclude in
      elim (locator.handlers_for t) [
        | [] ↦
            if require_handler
            then ret
                (raise (no_handler_for_message t (sorted (map k.qual_name locator.message_types))))
            else proceed
        | d ∷ ds ↦ proceed
      ]
