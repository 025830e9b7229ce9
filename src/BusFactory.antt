-- ===== src/BusFactory.antt =====
-- src/xtr_messenger/message_bus_factory.py. What the adapters' factories make of a group is a
-- parameter, `create`; a middleware of a chain is the one that holds messages back, or a program.
pub mod Alike
pub mod Collected
use python_xtr_messenger.Base.{
  Bool, Dict, Exec, List, Result, String, [], nat_eq, ok, raise, string_eq, values, ℕ, ◌∷◌,
}
use python_xtr_messenger.Chain.{NamedBuilders, Repr, chain}
use python_xtr_messenger.Classes.{Classes}
use python_xtr_messenger.Config.{MessageBusConfig, connection_of, update}
use python_xtr_messenger.Dsn.{Dsn}
use python_xtr_messenger.Envelope.{Envelope}
use python_xtr_messenger.Errors.{Error}
use python_xtr_messenger.Handlers.{HandlersLocator}
use python_xtr_messenger.Stamps.{Stamp}
use python_xtr_messenger.Middleware.{Middleware}
use python_xtr_messenger.Middleware.Handle.{handle_message}
use python_xtr_messenger.Middleware.Send.{send_message}
use python_xtr_messenger.Redispatch.Serving.{
  RedispatchingHandlers, handle_again, new_redispatching, redispatching_locator,
}
use python_xtr_messenger.Registry.{Registry}
use python_xtr_messenger.Transport.Discovery.{EntryPoint}
use python_xtr_messenger.Transport.Factories.{Factory, FactoryWorld, serving}
use python_xtr_messenger.Transport.Routes.{
  SendersLocator, new_senders_locator, routed_type_names, senders_for,
}
use python_xtr_messenger.Transport.Sender.{Sender, Senders}
use python_xtr_messenger.Urls.{Urllib}
use python_xtr_messenger.WorkerFactory.{Configured, by_connection, parts_from}

pub data Part (W : Type 0) : Type 0 where
  holds_back : Part W
  runs : Middleware W → Part W

-- The programs of a chain.
abbrev pub programs : {W : Type 0} → List (Part W) → List (Middleware W)
programs [] = []
programs (holds_back ∷ parts) = programs parts
programs (runs m ∷ parts) = m ∷ programs parts

-- What a bus is built from, besides its configuration: the tables of classes and of what they
-- declare, the factory of transports with what is installed, and the named middlewares.
pub record Sources (W : Type 0) : Type 0 where
  pub urls : Urllib
  pub classes : Classes
  pub registry : Registry
  pub kinds : ℕ → Dsn → Bool
  pub installed : List EntryPoint
  pub factory : Factory
  pub create : ℕ → Configured → Exec Error FactoryWorld (Dict String (Sender W))
  pub repr : Repr
  pub builders : NamedBuilders FactoryWorld (Part W)

module _ {W : Type 0} (f : Sources W) where
  abbrev pub create_by :
      Configured
      → Result Error ℕ × FactoryWorld
      → Result Error (Dict String (Sender W)) × FactoryWorld
  create_by group (raise e, w) = (raise e, w)
  create_by group (ok n, w) = f.create n group w

  -- `TransportFactory.create`
  unfoldable pub create_transports : Configured → Exec Error FactoryWorld (Dict String (Sender W))
  unfolding serving
  create_transports group w = create_by group (serving f.kinds f.installed f.urls f.factory group w)

  abbrev pub update_built :
      (Dict String (Sender W) → Exec Error FactoryWorld (Dict String (Sender W)))
      → Dict String (Sender W)
      → Result Error (Dict String (Sender W)) × FactoryWorld
      → Result Error (Dict String (Sender W)) × FactoryWorld
  update_built rest built (raise e, w) = (raise e, w)
  update_built rest built (ok made, w) = rest (update built made) w

  -- the loop of `_senders`
  unfoldable pub senders_from :
      List Configured → Dict String (Sender W) → Exec Error FactoryWorld (Dict String (Sender W))
  unfolding create_transports update
  senders_from [] built w = (ok built, w)
  senders_from (group ∷ groups) built w =
      update_built (senders_from groups) built (create_transports group w)

  abbrev pub senders_by :
      Result Error (Dict String Configured) → Exec Error FactoryWorld (Dict String (Sender W))
  senders_by (raise e) w = (raise e, w)
  senders_by (ok parts) w = senders_from (values parts) [] w

  -- `_senders`
  unfoldable pub build_senders :
      MessageBusConfig (Part W) → Exec Error FactoryWorld (Dict String (Sender W))
  unfolding senders_from parts_from connection_of values
  build_senders config w = senders_by (by_connection (connection_of f.urls) config.transports) w

  -- the locator that the middleware asks
  abbrev pub as_senders : SendersLocator W → Senders W
  as_senders l = record {
    senders_for = senders_for f.classes f.registry l;
    routed_type_names = routed_type_names f.classes l;
  }

  -- the two middlewares
  abbrev pub routing_part : MessageBusConfig (Part W) → SendersLocator W → Middleware W
  routing_part config l = send_message (as_senders l) config.require_sender config.handle_unrouted

  abbrev pub handling_part : MessageBusConfig (Part W) → RedispatchingHandlers W → Middleware W
  handling_part config handlers =
      handle_message f.classes (redispatching_locator f.classes handlers) config.require_handler

  abbrev pub with_locator :
      MessageBusConfig (Part W)
      → RedispatchingHandlers W
      → Result Error (SendersLocator W)
      → Exec Error FactoryWorld (List (Part W))
  with_locator config handlers (raise e) w = (raise e, w)
  with_locator config handlers (ok l) w =
      (ok (runs (routing_part config l) ∷ runs (handling_part config handlers) ∷ []), w)

  abbrev pub with_senders :
      MessageBusConfig (Part W)
      → RedispatchingHandlers W
      → Result Error (Dict String (Sender W)) × FactoryWorld
      → Result Error (List (Part W)) × FactoryWorld
  with_senders config handlers (raise e, w) = (raise e, w)
  with_senders config handlers (ok senders, w) =
      with_locator config handlers (new_senders_locator config.routing senders) w

  -- `_routing_and_handling`
  unfoldable pub routing_and_handling :
      MessageBusConfig (Part W) → RedispatchingHandlers W → Exec Error FactoryWorld (List (Part W))
  unfolding build_senders new_senders_locator
  routing_and_handling config handlers w = with_senders config handlers (build_senders config w)

  -- `MessageBusFactory.bus`, as the chain of the bus. `itself` is the dispatch of this same bus, by
  -- which the handler of redispatch messages dispatches; `own` is the identity of that handler.
  unfoldable pub build_bus :
      MessageBusConfig (Part W)
      → HandlersLocator W
      → ℕ
      → (Envelope → List Stamp → Exec Error W Envelope)
      → Exec Error FactoryWorld (List (Part W))
  unfolding chain routing_and_handling handle_again
  build_bus config handlers own itself w =
      chain f.repr holds_back config.default_middleware config.middleware f.builders
        (routing_and_handling config (new_redispatching own handlers (λ s. (ok itself, s)))) w

  -- `WorkerFactory._dispatcher`, when no bus was given. `publishing` is `_publishing_bus`, which
  -- the handler of redispatch messages calls: it builds another bus, or gives the one that was
  -- built, and it may raise.
  unfoldable pub build_worker_bus :
      MessageBusConfig (Part W)
      → HandlersLocator W
      → ℕ
      → Exec Error W (Envelope → List Stamp → Exec Error W Envelope)
      → Exec Error FactoryWorld (List (Part W))
  unfolding chain handle_again
  build_worker_bus config handlers own publishing w =
      chain f.repr holds_back config.default_middleware config.middleware f.builders
        (λ w'.
          (ok (runs (handling_part config (new_redispatching own handlers publishing)) ∷ []), w'))
        w
