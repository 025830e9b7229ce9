-- ===== src/Tests/Dispatching.antt =====
-- The bus and its middlewares.
use python_xtr_messenger.Base.{
  pos, List, Result, [], false, map, nat_eq, none, ok, pos, raise, refl, some, sorted, suc, true, ℕ,
  ◌<◌, ◌∷◌, ◌≡◌, ◌≢◌, ◌≤◌, ◌⊎◌,
}
use python_xtr_messenger.Bus.{Stack, dispatch}
use python_xtr_messenger.Bus.Cursor.{dispatch_total}
use python_xtr_messenger.Bus.Nested.{dispatch-nested}
use python_xtr_messenger.Envelope.{Envelope, bare, last, plain, type_of_message, with_stamps, wrap}
use python_xtr_messenger.Errors.{
  Error, Errors, count_errors, failure, handler_error, has_name, no_errors, no_handler_for_message,
  value_error,
}
use python_xtr_messenger.Handlers.{HandlerDescriptor}
use python_xtr_messenger.Middleware.{Middleware, act, delegate, nested, next, run}
use python_xtr_messenger.Middleware.Handle.{Locator, handle_message, numbered, unused}
use python_xtr_messenger.Middleware.Handle.Naming.{unused_bounds}
use python_xtr_messenger.Middleware.Handle.Trace.{Concludes, handle_message-outcome}
use python_xtr_messenger.Middleware.Send.{send_message}
use python_xtr_messenger.Middleware.Send.Outcome.{routed, send_message-routed, sendings}
use python_xtr_messenger.Middleware.Single.{AllOnce}
use python_xtr_messenger.Stamps.{
  delay, isinstance, non_sendable_stamp_interface, num, received, received_stamp, redelivery,
}
use python_xtr_messenger.Tests.Sample.{
  count_call, order, order_placed, queue_sender, sample_classes,
}
use python_xtr_messenger.Transport.Sender.{Senders, done, yield}
use python_xtr_messenger.Transport.Sync.{sync_transport}

abbrev pricing : HandlerDescriptor ℕ
pricing = record {
  handler = 1;
  name = "pricing";
  wants_envelope = false;
  call = λ m env n. (ok (num 12), suc n);
}

abbrev auditing : HandlerDescriptor ℕ
auditing = record {
  handler = 2;
  name = "auditing";
  wants_envelope = true;
  call = λ m env n. (raise (handler_error "OSError" "disk full"), suc n);
}

abbrev sample_locator : Locator ℕ
sample_locator = record {
  handlers_for = λ t. auditing ∷ pricing ∷ [];
  message_types = order_placed ∷ [];
}

handle_message-outcome_example :
    (Concludes count_call
        (auditing ∷ pricing ∷ [])
        order
        0
        (run (handle_message sample_classes sample_locator true order) count_call 0)
      × (((auditing ∷ pricing ∷ []) ≢ []) ⊎ (true ≡ false)))
    ⊎ (((auditing ∷ pricing ∷ []) ≡ [])
        × (true ≡ true)
        × (run (handle_message sample_classes sample_locator true order) count_call 0 ≡ (
          raise (
              no_handler_for_message
                (type_of_message order.message)
                (sorted (map sample_classes.qual_name (order_placed ∷ [])))),
          0,
        )))
handle_message-outcome_example =
    handle_message-outcome sample_classes sample_locator true order count_call 0

abbrev two_failures : Errors
two_failures = failure "pricing" (value_error "a") (failure "pricing#2" (value_error "b") no_errors)

unused_bounds_example :
    (n : ℕ) × (unused two_failures "pricing" ≡ numbered "pricing" n)
    × (has_name (numbered "pricing" n) two_failures ≡ false)
    × (1 ≤ n)
    × (n ≤ suc (count_errors two_failures))
    × ((m : ℕ) → 1 ≤ m → m < n → has_name (numbered "pricing" m) two_failures ≡ true)
unused_bounds_example = unused_bounds two_failures "pricing"

abbrev two_senders : Senders ℕ
two_senders = record {
  senders_for = λ env. yield ("queue", queue_sender) (yield ("sync", sync_transport) done);
  routed_type_names = [];
}

send_message-routed_example :
    run (send_message two_senders true false order) count_call 0
    ≡ (elim (last order received_stamp) [
      | some _ ↦ count_call order 0
      | none ↦
          routed two_senders true false count_call order
            (sendings order (yield ("queue", queue_sender) (yield ("sync", sync_transport) done)) 0)
    ])
send_message-routed_example = send_message-routed two_senders true false count_call order 0

-- A middleware that counts, then goes on with a stamp, and one that only goes on.
abbrev counting : Middleware ℕ
counting env = act suc (λ n. delegate (with_stamps env (redelivery (pos n) ∷ [])))

abbrev passing : Middleware ℕ
passing env = delegate env

abbrev two_middlewares : List (Middleware ℕ)
two_middlewares = counting ∷ passing ∷ []

two_middlewares-AllOnce : AllOnce two_middlewares
two_middlewares-AllOnce = (λ env n r. tt, (λ env r. tt, tt))

dispatch-nested_example :
    (c : Stack ℕ) × (dispatch two_middlewares (bare (plain 1 (num 7))) (delay (pos 3) ∷ []) 4
      ≡ some (
        (nested two_middlewares (wrap (bare (plain 1 (num 7))) (delay (pos 3) ∷ [])) 4).0,
        c,
        (nested two_middlewares (wrap (bare (plain 1 (num 7))) (delay (pos 3) ∷ [])) 4).1,
      ))
dispatch-nested_example =
    dispatch-nested two_middlewares (bare (plain 1 (num 7))) (delay (pos 3) ∷ []) 4
      two_middlewares-AllOnce

-- A middleware that asks for the rest of the chain twice.
abbrev retrying : Middleware ℕ
retrying env = next env (λ r. delegate env)

dispatch_total_example :
    (r : Result Error Envelope) × (c : Stack ℕ) × (w' : ℕ) × (dispatch
        (retrying ∷ counting ∷ [])
        (bare (plain 1 (num 7)))
        []
        0
      ≡ some (r, c, w'))
dispatch_total_example = dispatch_total (retrying ∷ counting ∷ []) (bare (plain 1 (num 7))) [] 0

test_isinstance : isinstance (received "a") non_sendable_stamp_interface ≡ true
unfolding isinstance
test_isinstance = refl
