-- ===== src/Tests/Working.antt =====
-- A worker over a queue.
-- A shop whose queue a worker drains: what waits, what the queue was told, and how many it gave out.
use python_xtr_messenger.Base.{
  List, Option, Result, String, [], ap, arith, false, last?, length, nat_eq, none, ok, raise, refl,
  select, some, string_eq, ℕ, ℕ_discrete, ◌++◌, ◌+◌, ◌>>◌, ◌∷◌, ◌≡◌, ◌≤◌,
}
use python_xtr_messenger.Envelope.{Envelope, all, last, with_stamps}
use python_xtr_messenger.Errors.{Error, class_name, value_error}
use python_xtr_messenger.Stamps.{
  Stamp, StampType-discrete, delay_stamp, error_details, is_non_sendable, is_subclass, isinstance,
  stamp_eq, type_of,
}
use python_xtr_messenger.Tests.Sample.{delayed_order, order}
use python_xtr_messenger.Worker.{
  Process, Receiver, Worker, announce, begin, is_set, named_envelope, next_unless_stopped, receive,
  reset, run_worker, settle, settle_outcome,
}
use python_xtr_messenger.Worker.Drained.{Balanced, run_worker-Balanced}
use python_xtr_messenger.Worker.Events.{running}
use python_xtr_messenger.Worker.Finite.{Drains, Returns, run_worker-Returns}
use python_xtr_messenger.Worker.Handling.{
  after_dispatch, after_finally, announce_failure, cause_of, handle, receiver_name_of,
}
use python_xtr_messenger.Worker.Settlement.{
  Entry, HasCause, Journal, acked, given, rejected, settle-IsSettled, told,
}

record Shop : Type 0 where
  waiting : List Envelope
  heard : List Entry
  given_out : ℕ

abbrev fetch_from : List Envelope → Process Shop → Result Error (Option Envelope) × Process Shop
fetch_from [] p = (ok none, p)
fetch_from (env ∷ rest) p = (
  ok (some env),
  record p { app = record p.app { waiting = rest; given_out = p.app.given_out + 1 } },
)

abbrev tell_queue : Entry → Process Shop → Process Shop
tell_queue entry p = record p { app = record p.app { heard = p.app.heard ++ entry ∷ [] } }

abbrev queue_receiver : Receiver (Process Shop)
queue_receiver = record {
  fetch = λ p. fetch_from p.app.waiting p;
  close = λ p. (ok tt, p);
  ack = λ env p. (ok tt, tell_queue (acked env) p);
  reject = λ env p. (ok tt, tell_queue (rejected env) p);
}

-- A worker whose bus refuses a delayed order.
abbrev refuse_delayed :
    Option Stamp → Envelope → Process Shop → Result Error Envelope × Process Shop
refuse_delayed none env p = (ok env, p)
refuse_delayed (some s) env p = (raise (value_error "delayed"), p)

abbrev shop_worker : Worker (Process Shop)
shop_worker = record {
  bus = λ env. refuse_delayed (last env delay_stamp) env;
  receiver = queue_receiver;
  resetter = none;
  dispatcher = none;
  receiver_name = some "orders";
  render = λ e. "delayed";
}

abbrev shop_view : Process Shop → List Entry × ℕ
shop_view p = (p.app.heard, p.app.given_out)

fetch_view :
    (waiting : List Envelope) (p : Process Shop)
    → shop_view (fetch_from waiting p).1
      ≡ (p.app.heard, p.app.given_out + given (fetch_from waiting p).0)
fetch_view [] p = ap (λ n. (p.app.heard, n)) (omega arith)
fetch_view (env ∷ rest) p = refl

refuse_delayed_view :
    (s : Option Stamp) (env : Envelope) (p : Process Shop) → (refuse_delayed s env p).1 ≡ p
refuse_delayed_view none env p = refl
refuse_delayed_view (some s) env p = refl

abbrev shop_journal : Journal shop_worker
shop_journal = record {
  view = shop_view;
  fetch_view = λ p. fetch_view p.app.waiting p;
  ack_view = λ env p. refl;
  reject_view = λ env p. refl;
  close_view = λ p. refl;
  bus_view = λ env p. ap shop_view (refuse_delayed_view (last env delay_stamp) env p);
  tell_view = λ event p. refl;
  announce_view = λ event p. refl;
  reset_view = λ p. refl;
}

causes_known :
    (s : Option Stamp) (env : Envelope) (name : String) (p : Process Shop)
    → HasCause (after_dispatch {S = Process Shop} none name env (refuse_delayed s env p)).0
unfolding cause_of
causes_known none env name p = tt
causes_known (some s) env name p = (value_error "delayed", refl)

shop_causes :
    (env : Envelope) (name : String) (p : Process Shop)
    → HasCause (handle shop_worker.bus shop_worker.dispatcher env name p).0
unfolding handle
shop_causes env name p = causes_known (last env delay_stamp) env name p

abbrev two_waiting : Process Shop
two_waiting = record {
  app = record { waiting = delayed_order ∷ order ∷ []; heard = []; given_out = 0 };
  flags = record { stopped = none; stop_requested = false };
}

abbrev as_named : Envelope
as_named = named_envelope (some "orders") delayed_order

settle-IsSettled_example : shop_view (settle shop_worker delayed_order two_waiting).1 ≡ (
  []
      ++ told shop_worker "orders" (
          handle shop_worker.bus none
            (named_envelope (some "orders") delayed_order)
            "orders"
            two_waiting),
  0,
)
unfolding receiver_name_of
settle-IsSettled_example = settle-IsSettled shop_worker shop_journal delayed_order two_waiting

abbrev all_done : Process Shop
all_done = record {
  app = record {
    waiting = [];
    heard =
        rejected (with_stamps as_named (error_details "ValueError" "delayed" ∷ []))
        ∷ acked (named_envelope (some "orders") order)
        ∷ [];
    given_out = 2;
  };
  flags = record { stopped = none; stop_requested = false };
}

run_worker-Balanced_example : Balanced shop_worker shop_journal all_done
unfolding run_worker receive begin next_unless_stopped is_set settle settle_outcome handle
    announce_failure cause_of class_name named_envelope receiver_name_of last all select last?
    isinstance is_subclass is_non_sendable type_of StampType-discrete ℕ_discrete with_stamps
run_worker-Balanced_example =
    run_worker-Balanced shop_worker shop_journal shop_causes (λ p f. refl) 3 two_waiting all_done
      (ok tt) refl refl

fetch_pending :
    (waiting : List Envelope) (p : Process Shop)
    → p.app.waiting ≡ waiting
    → length (fetch_from waiting p).1.app.waiting + given (fetch_from waiting p).0
      ≤ length p.app.waiting
fetch_pending [] p e = omega arith
fetch_pending (env ∷ rest) p e = rw e (omega arith)

settled_waiting :
    (s : Option Stamp) (env : Envelope) (p : Process Shop)
    → (((λ q.
            after_finally
              (settle_outcome shop_worker "orders"
                (after_dispatch none "orders" env (refuse_delayed s env p))).0
              (reset shop_worker
                (settle_outcome shop_worker "orders"
                  (after_dispatch none "orders" env (refuse_delayed s env p))).1))
          >> announce shop_worker running)
        p).1.app.waiting
      ≡ p.app.waiting
unfolding settle_outcome announce_failure cause_of
settled_waiting none env p = refl
settled_waiting (some s) env p = refl

settle_waiting :
    (env : Envelope) (p : Process Shop)
    → ((settle shop_worker env >> announce shop_worker running) p).1.app.waiting ≡ p.app.waiting
unfolding settle handle receiver_name_of
settle_waiting env p =
    settled_waiting (last (named_envelope (some "orders") env) delay_stamp)
      (named_envelope (some "orders") env) p

abbrev shop_drains : Drains shop_worker
shop_drains = record {
  pending = λ p. length p.app.waiting;
  pending-fetch = λ p. fetch_pending p.app.waiting p refl;
  pending-settle = λ env p. omega (arith, ap length (settle_waiting env p));
  pending-announce = λ p. omega arith;
}

run_worker-Returns_example : Returns (run_worker shop_worker 3 two_waiting)
run_worker-Returns_example = run_worker-Returns shop_worker shop_drains 3 two_waiting (omega arith)
