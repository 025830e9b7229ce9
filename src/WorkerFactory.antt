-- ===== src/WorkerFactory.antt =====
-- src/xtr_messenger/worker_factory.py: which transports a worker is built for. `connection` tells the
-- server that a transport's DSN addresses.
pub mod Parts
pub mod Built
pub mod Consumed
pub mod Named
pub mod Sourced
pub mod Ordered
pub mod Chosen
pub mod Exactly
use python_xtr_messenger.Base.{
  Dict, List, Result, String, [], contains, get, keys, none, not, ok, put, raise, select, some,
  string_discrete, string_eq, ◌++◌, ◌||◌, ◌∷◌,
}
use python_xtr_messenger.Config.{TransportConfig}
use python_xtr_messenger.Errors.{Error, names, unknown_transport}

abbrev pub Configured : Type 0
Configured = Dict String TransportConfig

-- the names that are neither configured nor registered
abbrev pub missing_names : List String → List String → List String → List String
missing_names configured registered names =
    select (λ n. not (contains configured n || contains registered n)) names

-- `{name: transports[name] for name in names if name in transports}`
abbrev pub choose : Configured → List String → Configured → Configured
choose transports [] chosen = chosen
choose transports (n ∷ ns) chosen =
    choose transports ns
      (elim (get n transports) [ none ↦ chosen | some config ↦ put n config chosen ])

abbrev pub select_unless :
    Configured → List String → List String → List String → Result Error Configured
select_unless transports registered names [] = ok (choose transports names [])
select_unless transports registered names (m ∷ ms) =
    raise (unknown_transport (m ∷ ms) (keys transports ++ registered))

-- `_select`, given the names of the registered receivers
unfoldable pub select_transports : Configured → List String → List String → Result Error Configured
unfolding get put keys contains select string_discrete
select_transports transports registered names =
    select_unless transports registered names (missing_names (keys transports) registered names)

-- `parts.get(connection, {})`
unfoldable pub part_of : String → Dict String Configured → Configured
unfolding string_discrete
part_of c parts = elim (get c parts) [ none ↦ [] | some part ↦ part ]

-- `parts.setdefault(connection, {})[name] = transport`
unfoldable pub add_part :
    String → String → TransportConfig → Dict String Configured → Dict String Configured
unfolding part_of
add_part c name config parts = put c (put name config (part_of c parts)) parts

module _ (connection : TransportConfig → Result Error String) where
  abbrev pub add_by :
      (Dict String Configured → Result Error (Dict String Configured))
      → String
      → TransportConfig
      → Result Error String
      → Dict String Configured
      → Result Error (Dict String Configured)
  add_by rest name config (raise e) parts = raise e
  add_by rest name config (ok c) parts = rest (add_part c name config parts)

  -- the loop of `_by_connection`
  unfoldable pub parts_from :
      Configured → Dict String Configured → Result Error (Dict String Configured)
  unfolding add_part
  parts_from [] parts = ok parts
  parts_from ((name, config) ∷ group) parts =
      add_by (parts_from group) name config (connection config) parts

  -- `_by_connection`, with the connection of each part
  abbrev pub by_connection : Configured → Result Error (Dict String Configured)
  by_connection group = parts_from group []
