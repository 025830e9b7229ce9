-- ===== src/Transport/Factories.antt =====
-- src/xtr_messenger/transport/transport_factory.py. An adapter's factory is told by its number among
-- those that were built, and a `TransportFactory` that discovers them by the number of its cache.
pub mod Discovered
use python_xtr_messenger.Base.{
  Bool, Dict, Exec, List, Option, Result, String, [], false, get, map, nat_eq, none, ok, put, raise,
  some, string_discrete, string_eq, true, values, ℕ, ℕ_discrete, ◌∷◌,
}
use python_xtr_messenger.Config.{TransportConfig, parsed}
use python_xtr_messenger.Dsn.{Dsn, parse_dsn}
use python_xtr_messenger.Errors.{Error, handler_error, unsupported_dsn}
use python_xtr_messenger.Transport.Discovery.{EntryPoint, MadeFactory, factory_for, supports_made}
use python_xtr_messenger.Transport.Serialization.{SerializerInterface}
use python_xtr_messenger.Urls.{Urllib}

mutual
  -- A `TransportFactoryInterface`: an adapter's, or a `TransportFactory`, over a list or discovering.
  pub data Factory : Type 0 where
    adapter : ℕ → Factory
    listed_factory : Factories → Factory
    discovering : ℕ → Option SerializerInterface → Factory

  pub data Factories : Type 0 where
    no_factories : Factories
    and_factory : Factory → Factories → Factories

-- The factories that were built, and the `_discovered` of every `TransportFactory`.
pub record FactoryWorld : Type 0 where
  pub made : List MadeFactory
  pub caches : Dict ℕ (Dict String ℕ)

-- `self._discovered`
unfoldable pub cache_of : ℕ → FactoryWorld → Dict String ℕ
cache_of c w = elim (get c w.caches) [ none ↦ [] | some cache ↦ cache ]

-- `self._factories`, as a list
abbrev pub listed_behind : Factories → List Factory
listed_behind no_factories = []
listed_behind (and_factory f fs) = f ∷ listed_behind fs

abbrev pub remember : ℕ → String → ℕ → FactoryWorld → FactoryWorld
remember c scheme n w = record w { caches = put c (put scheme n (cache_of c w)) w.caches }

module _ (kinds : ℕ → Dsn → Bool) (entries : List EntryPoint) where
  -- what follows `factory_for` in `_discover`
  abbrev pub keep_discovered :
      ℕ
      → String
      → FactoryWorld
      → Result Error (Option ℕ) × List MadeFactory
      → Result Error (Option ℕ) × FactoryWorld
  keep_discovered c scheme w (raise e, made) = (raise e, record w { made = made })
  keep_discovered c scheme w (ok none, made) = (ok none, record w { made = made })
  keep_discovered c scheme w (ok (some n), made) =
      (ok (some n), remember c scheme n (record w { made = made }))

  abbrev pub known_or :
      ℕ → Option SerializerInterface → Dsn → Option ℕ → Exec Error FactoryWorld (Option ℕ)
  known_or c serializer dsn (some n) w = (ok (some n), w)
  known_or c serializer dsn none w =
      keep_discovered c dsn.scheme w (factory_for kinds serializer dsn entries w.made)

  -- `_discover`
  unfoldable pub discover :
      ℕ → Option SerializerInterface → Dsn → Exec Error FactoryWorld (Option ℕ)
  unfolding factory_for cache_of get put string_discrete ℕ_discrete
  discover c serializer dsn w = known_or c serializer dsn (get dsn.scheme (cache_of c w)) w

  abbrev pub is_discovered :
      Result Error (Option ℕ) × FactoryWorld → Result Error Bool × FactoryWorld
  is_discovered (raise e, w) = (raise e, w)
  is_discovered (ok none, w) = (ok false, w)
  is_discovered (ok (some n), w) = (ok true, w)

  abbrev pub or_next :
      Exec Error FactoryWorld Bool
      → Result Error Bool × FactoryWorld
      → Result Error Bool × FactoryWorld
  or_next rest (raise e, w) = (raise e, w)
  or_next rest (ok true, w) = (ok true, w)
  or_next rest (ok false, w) = rest w

  unfoldable mutual
    unfolding discover

    -- `supports`
    pub supports : Factory → Dsn → Exec Error FactoryWorld Bool
    supports (adapter n) dsn w = (ok (supports_made kinds w.made n dsn), w)
    supports (listed_factory fs) dsn w = any_supports fs dsn w
    supports (discovering c serializer) dsn w = is_discovered (discover c serializer dsn w)

    pub any_supports : Factories → Dsn → Exec Error FactoryWorld Bool
    any_supports no_factories dsn w = (ok false, w)
    any_supports (and_factory f fs) dsn w = or_next (any_supports fs dsn) (supports f dsn w)

  -- the adapter's factory that was discovered
  abbrev pub discovered_or :
      String → Dsn → Result Error (Option ℕ) × FactoryWorld → Result Error ℕ × FactoryWorld
  discovered_or name dsn (raise e, w) = (raise e, w)
  discovered_or name dsn (ok none, w) = (raise (unsupported_dsn name dsn.raw), w)
  discovered_or name dsn (ok (some n), w) = (ok n, w)

  abbrev pub serve_or :
      Exec Error FactoryWorld ℕ
      → Exec Error FactoryWorld ℕ
      → Result Error Bool × FactoryWorld
      → Result Error ℕ × FactoryWorld
  serve_or this others (raise e, w) = (raise e, w)
  serve_or this others (ok true, w) = this w
  serve_or this others (ok false, w) = others w

  -- `serving`, given the first name of the group and its DSN; an adapter's factory is itself
  unfoldable mutual
    unfolding discover supports

    pub serving_dsn : Factory → String → Dsn → Exec Error FactoryWorld ℕ
    serving_dsn (adapter n) name dsn w = (ok n, w)
    serving_dsn (listed_factory fs) name dsn w = serve_first fs name dsn w
    serving_dsn (discovering c serializer) name dsn w =
        discovered_or name dsn (discover c serializer dsn w)

    pub serve_first : Factories → String → Dsn → Exec Error FactoryWorld ℕ
    serve_first no_factories name dsn w = (raise (unsupported_dsn name dsn.raw), w)
    serve_first (and_factory f fs) name dsn w =
        serve_or (serving_dsn f name dsn) (serve_first fs name dsn) (supports f dsn w)

  abbrev pub serve_read : Factory → String → Result Error Dsn → Exec Error FactoryWorld ℕ
  serve_read f name (raise e) w = (raise e, w)
  serve_read f name (ok d) w = serving_dsn f name d w

  -- `serving`; `next(iter(group))` raises for a group without transports
  unfoldable pub serving :
      Urllib → Factory → Dict String TransportConfig → Exec Error FactoryWorld ℕ
  unfolding serving_dsn parse_dsn
  serving u f [] w = (raise (handler_error "StopIteration" ""), w)
  serving u f ((name, config) ∷ group) w = serve_read f name (parsed u config) w

-- `_behind`: those of the list, or what was discovered
unfoldable pub behind : Factory → FactoryWorld → List Factory
unfolding cache_of values
behind (adapter n) w = []
behind (listed_factory fs) w = listed_behind fs
behind (discovering c serializer) w = map adapter (values (cache_of c w))
