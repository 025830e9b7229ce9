-- ===== src/Config.antt =====
-- src/xtr_messenger/transport/transport_config.py and message_bus_config.py: what a bus is
-- configured with. `M` is the type of middlewares.
pub mod Settings
use python_xtr_messenger.Base.{
  Bool, Dict, List, Option, Result, String, [], get, none, ok, put, raise, some, string_discrete,
  string_eq, ◌∷◌,
}
use python_xtr_messenger.Chain.{Entry}
use python_xtr_messenger.Dsn.{Dsn, parse_dsn}
use python_xtr_messenger.Errors.{Error}
use python_xtr_messenger.Transport.Routes.{Table}
use python_xtr_messenger.Urls.{Urllib}

pub record TransportConfig : Type 0 where
  pub dsn : String
  pub queue : Option String
  pub options : Dict String String

-- `parsed`
abbrev pub parsed : Urllib → TransportConfig → Result Error Dsn
parsed u config = parse_dsn u config.dsn

-- `d.update(more)`
unfoldable pub update : {A : Type 0} → Dict String A → Dict String A → Dict String A
unfolding put string_discrete
update d [] = d
update d ((k, v) ∷ more) = update (put k v d) more

abbrev pub with_queue : Option String → Dict String String → Dict String String
with_queue none merged = merged
with_queue (some queue) merged = put "queue" queue merged

-- what follows the reading of the DSN
abbrev pub settings_of : TransportConfig → Result Error Dsn → Result Error (Dict String String)
settings_of config (raise e) = raise e
settings_of config (ok d) = ok (with_queue config.queue (update d.dsn_options config.options))

-- `settings`
unfoldable pub settings : Urllib → TransportConfig → Result Error (Dict String String)
unfolding parse_dsn update put string_discrete
settings u config = settings_of config (parsed u config)

abbrev queue_in : Result Error (Dict String String) → Result Error (Option String)
queue_in (raise e) = raise e
queue_in (ok merged) = ok (get "queue" merged)

-- `queue_name`
unfoldable pub queue_name : Urllib → TransportConfig → Result Error (Option String)
unfolding settings get string_discrete
queue_name u config = queue_in (settings u config)

pub record MessageBusConfig (M : Type 0) : Type 0 where
  pub transports : Dict String TransportConfig
  pub routing : Table
  pub middleware : List (Entry M)
  pub default_middleware : Bool
  pub require_sender : Bool
  pub handle_unrouted : Bool
  pub require_handler : Bool

abbrev connection_from : Result Error Dsn → Result Error String
connection_from (raise e) = raise e
connection_from (ok d) = ok d.connection

-- `transport.parsed.connection`
unfoldable pub connection_of : Urllib → TransportConfig → Result Error String
unfolding parse_dsn
connection_of u config = connection_from (parsed u config)
