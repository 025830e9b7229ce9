-- ===== src/Lib.antt =====
-- A model of xtr_messenger, the message bus of src/xtr_messenger, and proofs about it.
--
-- A message travels in an envelope, with stamps that say what happened to it. `MessageBus.dispatch`
-- (Bus) hands the envelope to a chain of middlewares (Middleware), which share one cursor. One of
-- them routes: `SendMessageMiddleware` (Middleware/Send) asks a senders locator (Transport/Routes)
-- for the transports of the message and hands it to each. Another, `HandleMessageMiddleware`
-- (Middleware/Handle), asks a handlers locator (Handlers) for the handlers and calls them. A worker
-- (Worker) collects envelopes from a receiver, which may be several behind one (Transport/Chained),
-- dispatches each on a bus, and acknowledges or rejects it. A serializer
-- (Transport/Serialization/Json) turns envelopes into texts and back, by the names that the
-- registries (Registry, StampRegistry) keep.
--
-- All of them are made from a configuration (Config). It names transports, each with a DSN (Dsn),
-- which the transport factory (Transport/Factories) reads by its scheme and gives to the factory
-- that was registered or discovered for it; it names middlewares, which are looked up in the
-- container and in the application (Chain). The bus factory (BusFactory) puts the parts around the
-- two routing middlewares, and the worker factory (WorkerFactory) chooses the transports of a worker
-- and groups those that share a connection. A DSN is redacted before it is shown (Redaction). A
-- broker of taskiq may take a worker's place (Taskiq): each message is a task, which rebuilds the
-- envelope and hands it to a bus.
--
-- Files and code:
--   Base: Python's lists, dicts, texts and exceptions, with their laws.
--   Stamps: src/xtr_messenger/stamp/
--   Envelope: src/xtr_messenger/envelope.py, src/xtr_messenger/message/redispatch_message.py
--   Errors: src/xtr_messenger/exception/
--   Classes, Registry: src/xtr_messenger/message_registry.py,
--     src/xtr_messenger/decorator/as_message.py
--   StampRegistry: src/xtr_messenger/stamp_registry.py
--   Middleware: src/xtr_messenger/middleware/middleware_interface.py
--   Bus: src/xtr_messenger/middleware/stack_middleware.py (`next` is advance, `handle` of the
--     cursor the end of run_stack), src/xtr_messenger/message_bus.py (`dispatch`)
--   Middleware/Handle: src/xtr_messenger/middleware/handle_message_middleware.py (`handle` is
--     handle_message, `_unused` unused)
--   Middleware/Send: src/xtr_messenger/middleware/send_message_middleware.py (`handle` is
--     send_message, `_added_by` added_by)
--   Middleware/After: src/xtr_messenger/middleware/dispatch_after_current_bus_middleware.py
--     (`handle` is handle_after, `_current` handle_current, its loop drain)
--   Middleware/Logging, Middleware/UnitOfWork:
--     src/xtr_messenger/middleware/logging_middleware.py (`handle` is log_dispatch),
--     src/xtr_messenger/middleware/unit_of_work_middleware.py (`handle` is in_unit_of_work)
--   Redispatch: src/xtr_messenger/handler/redispatch_message_handler.py (`__call__` is
--     handle_redispatch), src/xtr_messenger/handler/redispatching_handlers.py (Redispatch/Serving)
--   Handlers: src/xtr_messenger/handler/handlers_locator.py,
--     src/xtr_messenger/handler/handler_descriptor.py (`_wants_envelope` is check_signature)
--   Transport/Routes: src/xtr_messenger/transport/sender/senders_locator.py (`_transport_names`
--     is names_for)
--   Transport/Sync: src/xtr_messenger/transport/sync/sync_transport.py,
--     src/xtr_messenger/transport/sync/sync_transport_factory.py (Transport/Sync/Factory)
--   Transport/InMemory: src/xtr_messenger/transport/in_memory/in_memory_transport.py (`send` is
--     send_in_memory, and so on),
--     src/xtr_messenger/transport/in_memory/in_memory_transport_factory.py
--     (Transport/InMemory/Factory)
--   Transport/Options: src/xtr_messenger/transport/transport_options.py
--   Transport/Chained: src/xtr_messenger/transport/receiver/chained_receiver.py (`ack` and
--     `reject` are settle_on_origin)
--   Transport/Serialization: src/xtr_messenger/transport/serialization/ (JsonSerializer is
--     Transport/Serialization/Json)
--   Worker: src/xtr_messenger/worker.py (`run` is run_worker, `_settle` settle),
--     src/xtr_messenger/_handling.py (Worker/Handling), src/xtr_messenger/event/ (Worker/Events)
--   WorkerFactory: src/xtr_messenger/worker_factory.py (`_select` is select_transports,
--     `_by_connection` by_connection, `worker` build_worker in WorkerFactory/Built)
--   Chain: src/xtr_messenger/middleware/named.py,
--     src/xtr_messenger/middleware/middleware_arguments.py, Chain/Container:
--     src/xtr_messenger/bundle/_services.py, and Chain/Declared:
--     src/xtr_messenger/middleware/middleware_registry.py,
--     src/xtr_messenger/decorator/as_middleware.py
--   Urls: `urlsplit`, `urlunsplit`, `parse_qsl` and `unquote` of Python's urllib, as far as they are
--     used.
--   Dsn: src/xtr_messenger/dsn.py
--   Redaction: src/xtr_messenger/_redaction.py
--   Config: src/xtr_messenger/transport/transport_config.py, src/xtr_messenger/message_bus_config.py
--   Transport/Discovery: src/xtr_messenger/transport/transport_factory_discovery.py
--   Transport/Factories: src/xtr_messenger/transport/transport_factory.py
--   BusFactory: src/xtr_messenger/message_bus_factory.py (`bus` is build_bus, and `_dispatcher` of
--     src/xtr_messenger/worker_factory.py is build_worker_bus)
--   Taskiq: src/xtr_messenger/bridge/taskiq/binding.py (`run` of `_task_for` is run_task, in
--     Taskiq/Task),
--     src/xtr_messenger/bridge/taskiq/labels.py; Taskiq/Publishing:
--     src/xtr_messenger/bridge/taskiq/taskiq_sender.py; Taskiq/Poison:
--     src/xtr_messenger/bridge/taskiq/poison_message_receiver.py (`callback` is
--     screen); Taskiq/Started: src/xtr_messenger/bridge/taskiq/started_brokers.py
--   Tests: runs at small inputs.
--
-- How it is modelled. A method that changes state takes it and returns its outcome with the state it
-- leaves, which an exception does not roll back; the state of the application, which handlers,
-- senders and listeners change, is a parameter. A middleware is a program (Middleware.Prog) that may
-- act on that state and ask for the rest of the chain, so that the shared cursor and nested calls can
-- be compared. A generator is the list of what it yields, up to an exception. An object's identity
-- is a number where the code compares it.
--
-- Parameters, since their code is not in the repository: the method resolution order and the names
-- of classes (Classes); handlers, senders, receivers, listeners and resetters of an application; the
-- ids that `uuid4` makes; the package xtr_serializer (Writer); the tables of characters of urllib
-- (Urllib); what entry points load and what the factories of adapters create; the builders of
-- middlewares, and `repr`; Python's `json`, `int` and `float`, and what taskiq does with
-- a delivery; the logger and the units of work. What a theorem asks
-- of them stands among its hypotheses.
--
-- Fuel. `Bus.dispatch` gives its cursor one unit for each middleware, which is enough since each
-- one that is entered moves the cursor; the loop of `_unused` has one round more than there are
-- exceptions, whose names cannot all be taken then. The loops of `Worker.run` and of
-- `DispatchAfterCurrentBusMiddleware` may go on for ever; they have the fuel that they are given.
--
-- Not modelled: the text of exceptions, the reading of signatures and annotations, cancellation,
-- and the interleaving of tasks other than as an argument; the decorator that declares handlers and
-- its default registry; the closing of publishers by the transport factory; the bundle but for its
-- named middlewares, and the command, which wire the parts together; the receive loop of taskiq's
-- worker; the AMQP bridge, whose names are passed on from another package.
pub mod Base
pub mod Stamps
pub mod Envelope
pub mod Errors
pub mod Classes
pub mod Middleware
pub mod Bus
pub mod Handlers
pub mod Transport
pub mod Registry
pub mod StampRegistry
pub mod Worker
pub mod Redispatch
pub mod WorkerFactory
pub mod Chain
pub mod Urls
pub mod Dsn
pub mod Redaction
pub mod Config
pub mod BusFactory
pub mod Taskiq
pub mod Tests
