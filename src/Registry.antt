-- ===== src/Registry.antt =====
-- src/xtr_messenger/message_registry.py: the wire names and the transports that the
-- application declared for its message classes.
pub mod Names
pub mod Transports
use python_xtr_messenger.Base.{
  Dict, Exec, List, Option, Result, String, [], get, ite, none, ok, put, raise, some,
  string_discrete, string_eq, values, ◌>>=◌, ◌>>◌, ◌∷◌, ◌≟◌,
}
use python_xtr_messenger.Classes.{Classes, default_name}
use python_xtr_messenger.Envelope.{MessageType, MessageType-discrete, message_type_eq}
use python_xtr_messenger.Errors.{Error, name_taken, unknown_message_name}

pub record Registry : Type 0 where
  pub name_by_type : Dict MessageType String
  pub type_by_name : Dict String MessageType
  pub transports_by_type : Dict MessageType (List String)

abbrev pub empty_registry : Registry
empty_registry = record { name_by_type = []; type_by_name = []; transports_by_type = [] }

-- the writes of `_claim`
abbrev pub bind_name : String → MessageType → Registry → Registry
bind_name name t r = record r {
  name_by_type = put t name r.name_by_type;
  type_by_name = put name t r.type_by_name;
}

-- `_claim`
unfoldable pub claim : String → MessageType → Exec Error Registry (Unit {0})
unfolding MessageType-discrete string_discrete
claim name t r = elim (get name r.type_by_name) [
  | none ↦ (ok tt, bind_name name t r)
  | some claimed ↦ ite (claimed ≟ t) (ok tt, bind_name name t r) (raise (name_taken name), r)
]

unfoldable pub claim_name : Classes → MessageType → Option String → Exec Error Registry (Unit {0})
claim_name k t (some name) r = claim name t r
claim_name k t none r = elim (get t r.name_by_type) [
  | none ↦ claim (default_name k t) t r
  | some _ ↦ (ok tt, r)
]

unfoldable pub set_transports : MessageType → List String → Exec Error Registry (Unit {0})
set_transports t [] r = (ok tt, r)
set_transports t (n ∷ ns) r =
    (ok tt, record r { transports_by_type = put t (n ∷ ns) r.transports_by_type })

unfoldable pub register_message :
    Classes → MessageType → Option String → List String → Exec Error Registry (Unit {0})
register_message k t name transports = do claim_name k t name; set_transports t transports

-- The `transport` argument of src/xtr_messenger/decorator/as_message.py.
pub data TransportArgument : Type 0 where
  not_given : TransportArgument
  one : String → TransportArgument
  several : List String → TransportArgument

-- `_as_tuple`
unfoldable pub as_tuple : TransportArgument → List String
as_tuple not_given = []
as_tuple (one name) = name ∷ []
as_tuple (several ns) = ns

-- One use of `@as_message`.
pub record Declaration : Type 0 where
  pub message_type : MessageType
  pub name : Option String
  pub transport : TransportArgument

unfoldable pub as_message : Classes → Declaration → Exec Error Registry (Unit {0})
as_message k d = register_message k d.message_type d.name (as_tuple d.transport)

-- The declarations of a process, in order. One that raises ends its own import only.
unfoldable pub declare_all : Classes → List Declaration → Registry → Registry
declare_all k [] r = r
declare_all k (d ∷ ds) r = declare_all k ds (as_message k d r).1

unfoldable pub declared_names : Registry → List String
declared_names r = values r.name_by_type

unfoldable pub name_of : Classes → Registry → MessageType → String
unfolding MessageType-discrete
name_of k r t = elim (get t r.name_by_type) [ none ↦ default_name k t | some pinned ↦ pinned ]

unfoldable pub type_for_name : Registry → String → Result Error MessageType
unfolding string_discrete
type_for_name r name = elim (get name r.type_by_name) [
  | none ↦ raise (unknown_message_name name)
  | some t ↦ ok t
]

-- the loop of `transports_of`; an empty tuple counts as none declared
unfoldable pub first_declared : Registry → List MessageType → List String
unfolding MessageType-discrete
first_declared r [] = []
first_declared r (base ∷ bases) =
    let rest = first_declared r bases in
    elim (get base r.transports_by_type) [ none ↦ rest | some [] ↦ rest | some (n ∷ ns) ↦ n ∷ ns ]

unfoldable pub transports_of : Classes → Registry → MessageType → List String
transports_of k r t = first_declared r (k.mro t)
