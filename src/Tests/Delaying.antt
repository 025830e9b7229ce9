-- ===== src/Tests/Delaying.antt =====
-- The middleware that holds messages back, redispatching, and the sync transport.
-- Two chains: the first holds two messages back on the second, which refuses the second of them.
use python_xtr_messenger.Base.{
  Exec, List, Option, Result, [], ap, append-nil, arith, contains, false, get_elem?, last?, nat_eq,
  none, ok, raise, refl, select, some, suc, sym, true, zero, ℕ, ◌++◌, ◌∙◌, ◌∷◌, ◌≡◌,
}
use python_xtr_messenger.Classes.{issubclass}
use python_xtr_messenger.Envelope.{
  Envelope, Message, MessageType-discrete, all, bare, enveloped, last, plain, redispatch,
  redispatch_message, type_of_message, with_stamps,
}
use python_xtr_messenger.Errors.{Error, Errors, add, failure, no_errors, value_error}
use python_xtr_messenger.Handlers.{HandlerDescriptor, new_locator, register}
use python_xtr_messenger.Middleware.{run}
use python_xtr_messenger.Middleware.After.{
  Context, Held, drain, handle_after, open_held, outgoing_of, set_at, set_held, set_waiting,
  waiting_of,
}
use python_xtr_messenger.Middleware.After.Enough.{drain-Drains}
use python_xtr_messenger.Middleware.After.Order.{
  CurrentEnds, Drains, all_sent, handle_after-CurrentEnds, sends,
}
use python_xtr_messenger.Middleware.After.Waiting.{
  Ledger, drain-asked, waiting_of-set_held, waiting_of_found,
}
use python_xtr_messenger.Middleware.Handle.{handle_message}
use python_xtr_messenger.Middleware.Handle.Trace.{Concludes}
use python_xtr_messenger.Middleware.Send.{send_message}
use python_xtr_messenger.Redispatch.Routed.{names_for-outgoing, outgoing}
use python_xtr_messenger.Redispatch.Serving.{RedispatchingHandlers, redispatching_locator}
use python_xtr_messenger.Redispatch.Serving.Answered.{Chosen, handle_message-redispatching}
use python_xtr_messenger.Registry.{empty_registry}
use python_xtr_messenger.Stamps.{
  dispatch_after_current_bus, dispatch_after_current_bus_stamp, isinstance, null, num, received,
  received_stamp,
}
use python_xtr_messenger.Tests.Sample.{count_call, order, sample_classes}
use python_xtr_messenger.Transport.Routes.{names_for}
use python_xtr_messenger.Transport.Sender.{Senders, done, yield}
use python_xtr_messenger.Transport.Sync.{sync_transport}
use python_xtr_messenger.Transport.Sync.Handling.{send_message-sync, sync_stamps}

abbrev held_first : Envelope
held_first = record { message = plain 2 (num 1); stamps = [] }

abbrev held_second : Envelope
held_second = record { message = plain 2 (num 2); stamps = [] }

abbrev refuse_two : Message → Context ℕ → Result Error Envelope × Context ℕ
refuse_two (plain c (num (suc (suc n)))) x = (raise (value_error "two"), x)
refuse_two m x = (ok (record { message = m; stamps = [] }), x)

abbrev two_chains : ℕ → Envelope → Exec Error (Context ℕ) Envelope
two_chains zero env c = (ok env, set_waiting 0 ((held_first, 1) ∷ (held_second, 1) ∷ []) c)
two_chains (suc n) env c = refuse_two env.message (record c { app = suc c.app })

abbrev idle : Context ℕ
idle = record { app = 0; heap = []; held = none }

handle_after-CurrentEnds_example :
    CurrentEnds two_chains 0 none
      (two_chains 0
        (outgoing_of (last order dispatch_after_current_bus_stamp) order)
        (open_held idle))
      (handle_after two_chains 3 0 order idle)
handle_after-CurrentEnds_example = handle_after-CurrentEnds two_chains 3 0 order idle refl

abbrev busy : Context ℕ
busy = record {
  app = 0;
  heap = record { envelopes = (held_first, 1) ∷ []; is_open = true } ∷ [];
  held = some 0;
}

abbrev later_order : Envelope
later_order = record { message = plain 1 (num 7); stamps = dispatch_after_current_bus ∷ [] }

-- A chain that holds nothing back.
abbrev counting_chain : ℕ → Envelope → Exec Error (Context ℕ) Envelope
counting_chain stack env c = (ok env, record c { app = suc c.app })

abbrev after_one : Context ℕ
after_one = record { app = 1; heap = record { envelopes = []; is_open = true } ∷ []; held = some 0 }

one_sent :
    Drains counting_chain 0 busy
      (record { envelope = held_first; stack = 1; outcome = ok held_first } ∷ [])
      after_one
unfolding waiting_of set_waiting set_held set_at
one_sent = sends refl refl (all_sent refl)

-- What was asked and what was held back.
record Log : Type 0 where
  asked_log : List (Envelope × ℕ)
  kept_log : List (Envelope × ℕ)

abbrev ask : Envelope → ℕ → Context Log → Context Log
ask env stack c = record c {
  app = record c.app { asked_log = c.app.asked_log ++ (env, stack) ∷ [] };
}

abbrev hold_in : Option Held → Envelope → Context Log → Context Log
hold_in none env c = c
hold_in (some held) env c =
    set_held 0 (record held { envelopes = held.envelopes ++ (env, 1) ∷ [] })
      (record c { app = record c.app { kept_log = c.app.kept_log ++ (env, 1) ∷ [] } })

abbrev held_by : Option Held → Envelope → List (Envelope × ℕ)
held_by none env = []
held_by (some held) env = (env, 1) ∷ []

-- A chain that holds its message back for another, which is broken.
abbrev keeping_chain : ℕ → Envelope → Exec Error (Context Log) Envelope
keeping_chain zero env c = (ok env, hold_in (get_elem? c.heap 0) env (ask env 0 c))
keeping_chain (suc n) env c = (raise (value_error "broken"), ask env (suc n) c)

abbrev newly : ℕ → Envelope → Context Log → List (Envelope × ℕ)
newly zero env c = held_by (get_elem? c.heap 0) env
newly (suc n) env c = []

hold_in_laws :
    (env : Envelope) (c : Context Log) (o : Option Held)
    → get_elem? c.heap 0 ≡ o
    → ((hold_in o env (ask env 0 c)).app.kept_log ≡ c.app.kept_log ++ held_by o env)
      × (waiting_of 0 (hold_in o env (ask env 0 c)) ≡ waiting_of 0 c ++ held_by o env)
      × ((hold_in o env (ask env 0 c)).app.asked_log ≡ c.app.asked_log ++ (env, 0) ∷ [])
unfolding set_held waiting_of
hold_in_laws env c none e =
    (sym (append-nil c.app.kept_log), sym (append-nil (waiting_of 0 c)), refl)
hold_in_laws env c (some held) e = (
  refl,
  waiting_of-set_held 0 held (record held { envelopes = held.envelopes ++ (env, 1) ∷ [] })
        (record (ask env 0 c) {
          app = record c.app {
            asked_log = c.app.asked_log ++ (env, 0) ∷ [];
            kept_log = c.app.kept_log ++ (env, 1) ∷ [];
          };
        })
        e
      ∙ ap (λ ws. ws ++ (env, 1) ∷ []) (sym (waiting_of_found 0 held c e)),
  refl,
)

abbrev with_held : List (Envelope × ℕ) → Context Log → Option Held → Context Log
with_held more c none = c
with_held more c (some held) = set_held 0 (record held { envelopes = more }) c

app_still : (more : List (Envelope × ℕ)) (c : Context Log) → (set_waiting 0 more c).app ≡ c.app
unfolding set_waiting set_held
app_still more c = go (get_elem? c.heap 0)
  where
    go : (o : Option Held) → (with_held more c o).app ≡ c.app
    go none = refl
    go (some held) = refl

keeping_asks :
    (stack : ℕ) (env : Envelope) (c : Context Log)
    → (keeping_chain stack env c).1.app.asked_log ≡ c.app.asked_log ++ (env, stack) ∷ []
keeping_asks zero env c = (hold_in_laws env c (get_elem? c.heap 0) refl).2
keeping_asks (suc n) env c = refl

keeping_keeps :
    (stack : ℕ) (env : Envelope) (c : Context Log)
    → (keeping_chain stack env c).1.app.kept_log ≡ c.app.kept_log ++ newly stack env c
keeping_keeps zero env c = (hold_in_laws env c (get_elem? c.heap 0) refl).0
keeping_keeps (suc n) env c = sym (append-nil c.app.kept_log)

keeping_waits :
    (stack : ℕ) (env : Envelope) (c : Context Log)
    → waiting_of 0 (keeping_chain stack env c).1 ≡ waiting_of 0 c ++ newly stack env c
unfolding waiting_of
keeping_waits zero env c = (hold_in_laws env c (get_elem? c.heap 0) refl).1
keeping_waits (suc n) env c = sym (append-nil (waiting_of 0 c))

abbrev keeping_ledger : Ledger keeping_chain 0
keeping_ledger = record {
  asked = λ c. c.app.asked_log;
  kept = λ c. c.app.kept_log;
  new = newly;
  asks = keeping_asks;
  keeps = keeping_keeps;
  waits = keeping_waits;
  asked_still = λ more c. ap (λ (a : Log). a.asked_log) (app_still more c);
  kept_still = λ more c. ap (λ (a : Log). a.kept_log) (app_still more c);
}

abbrev two_held : Context Log
two_held = record {
  app = record { asked_log = []; kept_log = [] };
  heap = record { envelopes = (held_first, 0) ∷ (held_second, 1) ∷ []; is_open = true } ∷ [];
  held = some 0;
}

-- After the two, and the one that the first of them held back.
abbrev three_sent : Context Log
three_sent = record {
  app = record {
    asked_log = (held_first, 0) ∷ (held_second, 1) ∷ (held_first, 1) ∷ [];
    kept_log = (held_first, 1) ∷ [];
  };
  heap = record { envelopes = []; is_open = true } ∷ [];
  held = some 0;
}

abbrev two_broken : Errors
two_broken = failure "" (value_error "broken") (failure "" (value_error "broken") no_errors)

drain-asked_example :
    (later : List (Envelope × ℕ)) × (three_sent.app.kept_log ≡ [] ++ later)
    × (three_sent.app.asked_log ≡ [] ++ (waiting_of 0 two_held ++ later))
unfolding drain waiting_of set_waiting set_held set_at add
drain-asked_example =
    drain-asked keeping_chain 0 keeping_ledger 4 no_errors two_broken two_held three_sent refl

drain-Drains_example :
    (es' : Errors) × (drain counting_chain 2 0 no_errors busy ≡ some (es', after_one))
drain-Drains_example =
    drain-Drains counting_chain 0 2 no_errors busy after_one
      (record { envelope = held_first; stack = 1; outcome = ok held_first } ∷ []) one_sent
      (omega arith)

names_for-outgoing_example :
    (last
        (outgoing (enveloped (plain 1 (num 7)) (received "orders" ∷ [])) ("mails" ∷ []))
        received_stamp
      ≡ none)
    × (names_for sample_classes empty_registry []
          (outgoing (enveloped (plain 1 (num 7)) (received "orders" ∷ [])) ("mails" ∷ []))
        ≡ "mails" ∷ [])
names_for-outgoing_example =
    names_for-outgoing (enveloped (plain 1 (num 7)) (received "orders" ∷ [])) sample_classes
      empty_registry [] "mails" []

abbrev sync_only : Senders ℕ
sync_only = record {
  senders_for = λ env. yield ("now", sync_transport) done;
  routed_type_names = [];
}

send_message-sync_example :
    run (send_message sync_only true false order) count_call 0
    ≡ (ok (with_stamps order (sync_stamps sync_only true false count_call order "now")), 1)
unfolding last all select last? isinstance
send_message-sync_example =
    send_message-sync sync_only true false count_call order "now" 0 refl refl refl

abbrev redispatching : HandlerDescriptor ℕ
redispatching = record {
  handler = 9;
  name = "RedispatchMessageHandler";
  wants_envelope = false;
  call = λ m env n. (ok null, suc n);
}

-- A handler of the application's own.
abbrev own_redispatching : HandlerDescriptor ℕ
own_redispatching = record {
  handler = 4;
  name = "own";
  wants_envelope = false;
  call = λ m env n. (ok null, n);
}

abbrev serving : RedispatchingHandlers ℕ
serving = record {
  inner = (register redispatch_message own_redispatching new_locator).0;
  descriptor = redispatching;
  bus_built = none;
}

abbrev redispatch_order : Envelope
redispatch_order = record {
  message = redispatch (bare (plain 1 (num 7))) ("mails" ∷ []);
  stamps = [];
}

handle_message-redispatching_example :
    (ds : List (HandlerDescriptor ℕ)) × Chosen sample_classes serving redispatch_message ds
    × Concludes count_call ds redispatch_order 0 (
        run
          (handle_message sample_classes
            (redispatching_locator sample_classes serving)
            true
            redispatch_order)
          count_call
          0)
unfolding issubclass contains MessageType-discrete type_of_message
handle_message-redispatching_example =
    handle_message-redispatching sample_classes serving true redispatch_order count_call 0 refl
