-- ===== src/Tests/Building.antt =====
-- Factories, buses and workers at small inputs.
use python_xtr_messenger.Base.{
  All, Bool, Dict, Exec, Has, contains, inl, raise, List, Option, String, [], ap, false, get,
  if_neg, if_pos, last?, map, nat_eq, none, ok, refl, select, some, string_discrete, string_eq,
  subst, suc, sym, true, ℕ, ℕ_discrete, ◌∙◌, ◌∷◌, ◌≟◌, ◌≡◌,
}
use python_xtr_messenger.BusFactory.{
  Part, Sources, build_bus, build_worker_bus, handling_part, holds_back, programs, routing_part,
  runs,
}
use python_xtr_messenger.BusFactory.Collected.{nested-collected}
use python_xtr_messenger.Chain.{ready}
use python_xtr_messenger.Config.{MessageBusConfig}
use python_xtr_messenger.Dsn.{Dsn}
use python_xtr_messenger.Envelope.{
  Envelope, MessageType-discrete, all, last, type_of_message, with_stamps,
}
use python_xtr_messenger.Handlers.{new_locator}
use python_xtr_messenger.Middleware.{Middleware, act, delegate, nested}
use python_xtr_messenger.Redispatch.Serving.{RedispatchingHandlers, handle_again, new_redispatching}
use python_xtr_messenger.Registry.{empty_registry}
use python_xtr_messenger.Stamps.{Stamp, isinstance, received}
use python_xtr_messenger.Tests.Configuring.{plain_urls}
use python_xtr_messenger.Tests.Sample.{order, queue_sender, sample_classes}
use python_xtr_messenger.Transport.Discovery.{
  EntryPoint, builder, default_factories, import_error, no_serializer, required_serializer,
}
use python_xtr_messenger.Transport.Factories.{
  FactoryWorld, adapter, and_factory, discover, discovering, listed_factory, no_factories,
}
use python_xtr_messenger.Transport.Factories.Discovered.{after_calls, discover-again, supports_call}
use python_xtr_messenger.Transport.InMemory.{new_in_memory}
use python_xtr_messenger.Transport.InMemory.Queue.{
  QueueCall, answers, answers_refine, collect_next, fifo_answers, post,
}
use python_xtr_messenger.Transport.Routes.{SendersLocator, wildcard}
use python_xtr_messenger.Transport.Serialization.{SerializerInterface}
use python_xtr_messenger.WorkerFactory.{Configured}
use python_xtr_messenger.WorkerFactory.Built.{WorkerSources, build_worker}
use python_xtr_messenger.WorkerFactory.Exactly.{build_worker-names}
use python_xtr_messenger.WorkerFactory.Named.{CreatesAll}
use python_xtr_messenger.WorkerFactory.Ordered.{sole}
use python_xtr_messenger.WorkerFactory.Sourced.{Comes}
use python_xtr_messenger.Errors.{Error, value_error}
use python_xtr_messenger.Classes.{issubclass}

abbrev to_sync : Dsn
to_sync = record { raw = "sync://"; scheme = "sync"; connection = "sync://"; dsn_options = [] }

abbrev lossless : SerializerInterface
lossless = record {
  encode = λ env. ok (record { body = ""; headers = [] });
  decode = λ encoded. ok order;
}

-- What the handlers of redispatch messages that the factories supply dispatch by.
abbrev itself : Envelope → List Stamp → Exec Error ℕ Envelope
itself env stamps n = (ok env, suc n)

abbrev unreachable : Exec Error ℕ (Envelope → List Stamp → Exec Error ℕ Envelope)
unreachable n = (raise (value_error "unreachable"), n)

abbrev idle_handlers : RedispatchingHandlers ℕ
idle_handlers = new_redispatching 8 new_locator (λ n. (ok itself, n))

abbrev worker_handlers : RedispatchingHandlers ℕ
worker_handlers = new_redispatching 9 new_locator unreachable

-- Two distributions: one whose dependency is absent, and one that works.
abbrev two_entry_points : List EntryPoint
two_entry_points =
    record { entry_name = "sync"; value = "absent:Factory"; loaded = import_error }
    ∷ record {
      entry_name = "sync";
      value = "sync:Factory";
      loaded = builder no_serializer (some 0);
    }
    ∷ record {
      entry_name = "amqp";
      value = "amqp:Factory";
      loaded = builder required_serializer (some 1);
    }
    ∷ []

abbrev every_kind : ℕ → Dsn → Bool
every_kind k d = true

abbrev no_world : FactoryWorld
no_world = record { made = []; caches = [] }

abbrev discovered_world : FactoryWorld
discovered_world = record {
  made = record { kind = 0; given = none } ∷ [];
  caches = (5, ("sync", 0) ∷ []) ∷ [];
}

test_discover :
    discover every_kind two_entry_points 5 none to_sync no_world ≡ (ok (some 0), discovered_world)
unfolding discover string_discrete ℕ_discrete
test_discover = refl

-- In between, a scheme is asked for whose factory wants a serializer, which raises.
discover-again_example :
    discover every_kind two_entry_points 5 none to_sync (
      after_calls every_kind two_entry_points
        (supports_call (discovering 5 none) (record to_sync { scheme = "amqp" }) ∷ [])
        discovered_world)
    ≡ (
      ok (some 0),
      after_calls every_kind two_entry_points
          (supports_call (discovering 5 none) (record to_sync { scheme = "amqp" }) ∷ [])
          discovered_world,
    )
unfolding discover string_discrete ℕ_discrete
discover-again_example =
    discover-again every_kind two_entry_points 5 none to_sync to_sync no_world discovered_world 0
      (supports_call (discovering 5 none) (record to_sync { scheme = "amqp" }) ∷ []) refl refl

test_default_factories : default_factories two_entry_points (some lossless) [] ≡ (
  ok (0 ∷ 1 ∷ []),
  record { kind = 1; given = some lossless } ∷ record { kind = 0; given = none } ∷ [],
)
unfolding default_factories string_discrete
test_default_factories = refl

-- One adapter, over which everything is built.
abbrev one_made : FactoryWorld
one_made = record { made = record { kind = 0; given = none } ∷ []; caches = [] }

abbrev counted : Middleware ℕ
counted env = act suc (λ w. delegate env)

abbrev sample_sources : Sources ℕ
sample_sources = record {
  urls = plain_urls;
  classes = sample_classes;
  registry = empty_registry;
  kinds = every_kind;
  installed = [];
  factory = listed_factory (and_factory (adapter 0) no_factories);
  create = λ n group w. (ok (("main", queue_sender) ∷ []), w);
  repr = record { repr_text = λ s. s; repr_given = λ g. "" };
  builders = record { find = λ n. none; listed = [] };
}

abbrev sample_config : MessageBusConfig (Part ℕ)
sample_config = record {
  transports = ("main", record { dsn = "amqp://h"; queue = none; options = [] }) ∷ [];
  routing = (wildcard, "main" ∷ []) ∷ [];
  middleware = ready (runs counted) ∷ [];
  default_middleware = true;
  require_sender = true;
  handle_unrouted = false;
  require_handler = true;
}

abbrev sample_locator : SendersLocator ℕ
sample_locator = record {
  routes = (wildcard, "main" ∷ []) ∷ [];
  senders = ("main", queue_sender) ∷ [];
}

abbrev bus_parts : List (Part ℕ)
bus_parts =
    holds_back
    ∷ runs counted
    ∷ runs (routing_part sample_sources sample_config sample_locator)
    ∷ runs (handling_part sample_sources sample_config idle_handlers)
    ∷ []

abbrev worker_parts : List (Part ℕ)
worker_parts =
    holds_back
    ∷ runs counted
    ∷ runs (handling_part sample_sources sample_config worker_handlers)
    ∷ []

test_build_bus :
    build_bus sample_sources sample_config new_locator 8 itself one_made ≡ (ok bus_parts, one_made)
unfolding build_bus handle_again string_discrete ℕ_discrete
test_build_bus = refl

abbrev collected_order : Envelope
collected_order = with_stamps order (received "main" ∷ [])

nested-collected_example :
    nested (programs bus_parts) collected_order 4 ≡ nested (programs worker_parts) collected_order 4
unfolding build_bus build_worker_bus handle_again string_discrete ℕ_discrete last all select last?
    isinstance with_stamps issubclass contains MessageType-discrete type_of_message
nested-collected_example =
    nested-collected sample_sources sample_config new_locator 8 9 itself unreachable (counted ∷ [])
      one_made one_made one_made one_made one_made one_made bus_parts worker_parts refl refl refl
      ((λ env h w. (h, λ r. tt)), tt) refl refl collected_order 4
      ((received "main", refl), inl refl)

abbrev all_receive : Configured → Dict String (Option ℕ)
all_receive [] = []
all_receive ((n, config) ∷ part) = (n, some 3) ∷ all_receive part

-- A worker for a transport and for a registered receiver, each a number.
abbrev sample_workers : WorkerSources ℕ
sample_workers = record {
  urls = plain_urls;
  kinds = every_kind;
  installed = [];
  factory = listed_factory (and_factory (adapter 0) no_factories);
  provides = λ n. false;
  create_receiving = λ n part w. (ok (all_receive part), w);
  receivers = ("ticks", 8) ∷ [];
}

get-all_receive : (n : String) (part : Configured) → Has n part → Has n (all_receive part)
unfolding get
get-all_receive n [] (c, e) = cc e
get-all_receive n ((k, c) ∷ part) (d, e) = elim (k ≟ n) [
  | yes f ↦ (some 3, if_pos (k ≟ n) f _ _)
  | no f ↦
      let (v, g) = get-all_receive n part (d, sym (if_neg (k ≟ n) f _ _) ∙ e) in
      (v, if_neg (k ≟ n) f _ _ ∙ g)
]

sample_workers-CreatesAll : CreatesAll sample_workers
sample_workers-CreatesAll m part w w' made e n h =
    let same : ok made ≡ ok (all_receive part) = sym (ap (λ o. o.0) e) in
    let same_made : made ≡ all_receive part = cc same in
    subst (λ d. Has n d) (sym same_made) (get-all_receive n part h)

abbrev two_receivers : List (String × ℕ)
two_receivers = ("ticks", 8) ∷ ("main", 3) ∷ []

build_worker-names_example :
    (map (λ (p : String × ℕ). p.0) two_receivers ≡ "ticks" ∷ "main" ∷ [])
    × All (Comes sample_workers sample_config.transports) two_receivers
    × (none ≡ sole ("ticks" ∷ "main" ∷ []))
unfolding build_worker string_discrete ℕ_discrete
build_worker-names_example =
    build_worker-names sample_workers sample_config.transports ("ticks" ∷ "main" ∷ [])
      sample_workers-CreatesAll one_made one_made two_receivers none refl

-- Three envelopes, three receivers.
abbrev some_calls : List QueueCall
some_calls =
    post "1" order
    ∷ post "2" order
    ∷ post "3" order
    ∷ collect_next 0
    ∷ collect_next 1
    ∷ collect_next 0
    ∷ collect_next 2
    ∷ []

answers_refine_example :
    answers (some lossless) some_calls (record { transport = new_in_memory; receipt = λ k. some 0 })
    ≡ fifo_answers (some lossless) some_calls (record { waiting = []; collectors = []; over = [] })
answers_refine_example = answers_refine (some lossless) some_calls new_in_memory
