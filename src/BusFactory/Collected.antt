-- ===== src/BusFactory/Collected.antt =====
-- A collected message, on the bus of a publishing process and on that of a worker.
use python_xtr_messenger.Base.{
  Dict, Exec, List, nat_eq, ℕ, Result, String, [], ap, map, ok, raise, refl, string_eq, subst, sym,
  true, ◌++◌, ◌∙◌, ◌∷◌, ◌≡◌,
}
use python_xtr_messenger.BusFactory.{
  Part, Sources, as_senders, build_bus, build_senders, build_worker_bus, handling_part, holds_back,
  programs, routing_and_handling, routing_part, runs, with_locator, with_senders,
}
use python_xtr_messenger.Chain.{around, chain, resolve}
use python_xtr_messenger.Config.{MessageBusConfig}
use python_xtr_messenger.Envelope.{Envelope, message_type_eq, type_of_message}
use python_xtr_messenger.Errors.{Error}
use python_xtr_messenger.Middleware.{Middleware, nested, run}
use python_xtr_messenger.Middleware.Send.Outcome.{send_message-routed}
use python_xtr_messenger.Redispatch.Serving.{
  handle_again, new_redispatching, redispatching_for, redispatching_locator, redispatching_types,
}
use python_xtr_messenger.Handlers.{HandlersLocator, handlers_for}
use python_xtr_messenger.Stamps.{Stamp, stamp_eq}
use python_xtr_messenger.Transport.Factories.{FactoryWorld}
use python_xtr_messenger.Transport.Routes.{SendersLocator, new_senders_locator}
use python_xtr_messenger.Transport.Sender.{Sender}
use python_xtr_messenger.BusFactory.Alike.{
  AllKeepCollected, NeedsNoRedispatch, SameOnCollected, handle_message_same, same_behind,
  same_found,
}

module _ {W : Type 0} where
  programs-runs :
      (cs : List (Middleware W)) (parts : List (Part W))
      → programs (map runs cs ++ parts) ≡ cs ++ programs parts
  programs-runs [] parts = refl
  programs-runs (c ∷ cs) parts = ap (◌∷◌ c) (programs-runs cs parts)

  module _ (f : Sources W) (config : MessageBusConfig (Part W)) (handlers : HandlersLocator W)
      (own own' : ℕ) (itself : Envelope → List Stamp → Exec Error W Envelope)
      (publishing : Exec Error W (Envelope → List Stamp → Exec Error W Envelope)) where
    abbrev at_bus : Middleware W
    at_bus = handling_part f config (new_redispatching own handlers (λ s. (ok itself, s)))

    abbrev at_worker : Middleware W
    at_worker = handling_part f config (new_redispatching own' handlers publishing)

    handled_alike :
        (env : Envelope)
        → NeedsNoRedispatch f.classes handlers (type_of_message env.message)
        → at_bus env ≡ at_worker env
    unfolding redispatching_for redispatching_types handle_again
    handled_alike env h =
        handle_message_same f.classes handlers
          (redispatching_locator f.classes (new_redispatching own handlers (λ s. (ok itself, s))))
          (redispatching_locator f.classes (new_redispatching own' handlers publishing))
          config.require_handler env
          (same_found f.classes handlers
            (new_redispatching own handlers (λ s. (ok itself, s))).descriptor
            (new_redispatching own' handlers publishing).descriptor (type_of_message env.message)
            (handlers_for f.classes handlers (type_of_message env.message)) h)
          refl

    routing_unfelt :
        (l : SendersLocator W)
        → SameOnCollected f.classes handlers
            (nested (routing_part f config l ∷ at_bus ∷ []))
            (nested (at_worker ∷ []))
    unfolding nested
    routing_unfelt l env w ((s, e), h) =
        send_message-routed (as_senders f l) config.require_sender config.handle_unrouted
          (nested (at_bus ∷ [])) env w
        ∙ rw e refl
        ∙ ap (λ p. run p (nested []) w) (handled_alike env h)

    -- What a bus that was built consists of.
    abbrev Consists : List (Middleware W) → Result Error (List (Part W)) → Type 0
    Consists cs (raise e) = Unit
    Consists cs (ok parts) =
        (l : SendersLocator W) × (programs parts ≡ cs ++ routing_part f config l ∷ at_bus ∷ [])

    Consists-locator :
        (cs : List (Middleware W)) (l : Result Error (SendersLocator W)) (w : FactoryWorld)
        → Consists cs
            (around holds_back
              (map runs cs)
              (with_locator f config (new_redispatching own handlers (λ s. (ok itself, s))) l w)).0
    Consists-locator cs (raise e) w = tt
    Consists-locator cs (ok l) w =
        (l, programs-runs cs (runs (routing_part f config l) ∷ runs at_bus ∷ []))

    Consists-senders :
        (cs : List (Middleware W)) (o : Result Error (Dict String (Sender W)) × FactoryWorld)
        → Consists cs
            (around holds_back
              (map runs cs)
              (with_senders f config (new_redispatching own handlers (λ s. (ok itself, s))) o)).0
    Consists-senders cs (raise e, w) = tt
    Consists-senders cs (ok senders, w) =
        Consists-locator cs (new_senders_locator config.routing senders) w

    module _ (cs : List (Middleware W)) (s s1 : FactoryWorld)
        (default_on : config.default_middleware ≡ true)
        (resolved : resolve f.repr f.builders config.middleware s ≡ (ok (map runs cs), s1)) where
      Consists-bus : Consists cs (build_bus f config handlers own itself s).0
      unfolding build_bus chain routing_and_handling
      Consists-bus = rw (default_on, resolved) (Consists-senders cs (build_senders f config s1))

      worker_bus_lem :
          build_worker_bus f config handlers own' publishing s
          ≡ (ok (holds_back ∷ (map runs cs ++ runs at_worker ∷ [])), s1)
      unfolding build_worker_bus chain
      worker_bus_lem = rw (default_on, resolved) refl

    -- A worker's bus need not route. The two buses differ in the handler that they supply for
    -- redispatch messages: a publishing process's dispatches by the bus itself, a worker's by a bus
    -- that it builds. When the configured middlewares are built alike, and hand on a received
    -- message that is no redispatch message, or that the application has its own handler for, as
    -- another such, then behind the middleware that holds messages back, such a message has the
    -- same result on a worker's bus, which only handles, and on the bus of a publishing process,
    -- which routes first.
    pub nested-collected :
        (cs : List (Middleware W)) (s s1 s2 t t1 t2 : FactoryWorld) (parts others : List (Part W))
        → config.default_middleware ≡ true
        → resolve f.repr f.builders config.middleware s ≡ (ok (map runs cs), s1)
        → resolve f.repr f.builders config.middleware t ≡ (ok (map runs cs), t1)
        → AllKeepCollected f.classes handlers cs
        → build_bus f config handlers own itself s ≡ (ok parts, s2)
        → build_worker_bus f config handlers own' publishing t ≡ (ok others, t2)
        → SameOnCollected f.classes handlers (nested (programs parts)) (nested (programs others))
    nested-collected cs s s1 s2 t t1 t2 parts others on rs rt keep bus worker =
        let (l, e) = subst (Consists cs) (ap (λ o. o.0) bus) (Consists-bus cs s s1 on rs) in
        let chain_eq : ◌≡◌ {A = Result Error (List (Part W))} (ok others)
            (ok (holds_back ∷ (map runs cs ++ runs at_worker ∷ []))) =
          ap (λ o. o.0) (sym worker ∙ worker_bus_lem cs t t1 on rt) in
        let same_parts : others ≡ holds_back ∷ (map runs cs ++ runs at_worker ∷ []) = cc chain_eq in
        let e' : programs others ≡ cs ++ at_worker ∷ [] =
          ap programs same_parts ∙ programs-runs cs (runs at_worker ∷ []) in
        let same =
          same_behind f.classes handlers cs (routing_part f config l ∷ at_bus ∷ []) (at_worker ∷ [])
            keep (routing_unfelt l) in
        subst (λ ms. SameOnCollected f.classes handlers (nested ms) (nested (programs others)))
          (sym e)
          (subst
            (λ ms.
              SameOnCollected f.classes handlers
                (nested (cs ++ routing_part f config l ∷ at_bus ∷ [])) (nested ms))
            (sym e') same)
