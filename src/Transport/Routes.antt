-- ===== src/Transport/Routes.antt =====
-- src/xtr_messenger/transport/sender/senders_locator.py: the routing table.
pub mod Resolution
pub mod Fanout
use python_xtr_messenger.Base.{
  Dict, Eq, List, Option, Result, String, [], contains, get, if◌then◌else◌, keys, map, none, ok,
  raise, some, sorted, string_discrete, string_eq, values, ◌++◌, ◌∷◌,
}
use python_xtr_messenger.Classes.{Classes}
use python_xtr_messenger.Envelope.{
  Envelope, MessageType, MessageType-discrete, last, message_type_eq, type_of_message,
}
use python_xtr_messenger.Errors.{Error, names, unknown_transport}
use python_xtr_messenger.Registry.{Registry, transports_of}
use python_xtr_messenger.Stamps.{Stamp, stamp_eq, transport_names, transport_names_stamp}
use python_xtr_messenger.Transport.Sender.{Sender, Yields, done, fails, yield}

-- A key of the table: a message class, or a text such as "*".
pub data RouteKey : Type 0 where
  type_key : MessageType → RouteKey
  text_key : String → RouteKey

unfoldable pub RouteKey-discrete : Discrete RouteKey
RouteKey-discrete = hlevel (MessageType-discrete, string_discrete)

instance abbrev pub route_key_eq : Eq RouteKey
route_key_eq = record { dec_eq = RouteKey-discrete }

abbrev pub wildcard : RouteKey
wildcard = text_key "*"

abbrev pub Table : Type 0
Table = Dict RouteKey (List String)

pub record SendersLocator (W : Type 0) : Type 0 where
  pub routes : Table
  pub senders : Dict String (Sender W)

-- `d.get(key, ())`
unfoldable pub route : RouteKey → Table → List String
unfolding RouteKey-discrete
route key routes = elim (get key routes) [ none ↦ [] | some names ↦ names ]

module _ {W : Type 0} where
  -- the first name of a route that no sender has
  unfoldable pub first_unknown : Dict String (Sender W) → List String → Option String
  unfolding string_discrete
  first_unknown senders [] = none
  first_unknown senders (n ∷ ns) =
      let rest = first_unknown senders ns in elim (get n senders) [ none ↦ some n | some s ↦ rest ]

  unfoldable pub check_routes :
      Dict String (Sender W) → List (List String) → Result Error (Unit {0})
  unfolding first_unknown
  check_routes senders [] = ok tt
  check_routes senders (names ∷ more) =
      let rest = check_routes senders more in
      elim (first_unknown senders names) [
        | some n ↦ raise (unknown_transport (n ∷ []) (keys senders))
        | none ↦ rest
      ]

  -- `__init__`; a table that gives one name for a key gives a list of one
  unfoldable pub new_senders_locator :
      Table → Dict String (Sender W) → Result Error (SendersLocator W)
  unfolding check_routes
  new_senders_locator routes senders = elim (check_routes senders (values routes)) [
    | ok _ ↦ ok (record { routes = routes; senders = senders })
    | raise e ↦ raise e
  ]

-- the loop over the method resolution order
unfoldable pub matched : Table → List MessageType → List String
unfolding route
matched routes [] = []
matched routes (base ∷ bases) = route (type_key base) routes ++ matched routes bases

-- the names that a stamp gives, if it is a `TransportNamesStamp`
unfoldable pub override_of : Option Stamp → Option (List String)
override_of (some (transport_names names)) = some names
override_of _ = none

-- `xs or ys`
abbrev pub or_names : List String → List String → List String
or_names [] ys = ys
or_names (x ∷ xs) ys = x ∷ xs

-- `_transport_names`
unfoldable pub names_for : Classes → Registry → Table → Envelope → List String
unfolding matched override_of
names_for k r routes env =
    let t = type_of_message env.message in
    elim (override_of (last env transport_names_stamp)) [
      | some names ↦ names
      | none ↦
          or_names (matched routes (k.mro t))
            (or_names (route wildcard routes) (transports_of k r t))
    ]

module _ {W : Type 0} where
  -- the loop of `senders_for`
  unfoldable pub yield_senders :
      Dict String (Sender W) → List String → List String → Yields (String × Sender W)
  unfolding contains string_discrete
  yield_senders senders seen [] = done
  yield_senders senders seen (n ∷ ns) =
      let again = yield_senders senders seen ns in
      let later = yield_senders senders (n ∷ seen) ns in
      if contains seen n then again else (elim (get n senders) [
        | none ↦ fails (unknown_transport (n ∷ []) (keys senders))
        | some s ↦ yield (n, s) later
      ])

  unfoldable pub senders_for :
      Classes → Registry → SendersLocator W → Envelope → Yields (String × Sender W)
  unfolding names_for yield_senders
  senders_for k r l env = yield_senders l.senders [] (names_for k r l.routes env)

abbrev key_name : Classes → RouteKey → String
key_name k (type_key t) = k.qual_name t
key_name k (text_key s) = s

unfoldable pub routed_type_names : {W : Type 0} → Classes → SendersLocator W → List String
routed_type_names k l = sorted (map (key_name k) (keys l.routes))
