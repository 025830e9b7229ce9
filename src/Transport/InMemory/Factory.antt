-- ===== src/Transport/InMemory/Factory.antt =====
-- src/xtr_messenger/transport/in_memory/in_memory_transport_factory.py. A transport is told by the
-- number of those made before it; a configuration is given by its settings.
pub mod Shared
-- `_made`, and what each transport was built with.
use python_xtr_messenger.Base.{
  Bool, Dict, Exec, List, Option, Result, String, [], false, get, ite, length, nat_eq, none, ok,
  put, raise, some, string_discrete, string_eq, true, ℕ, ◌++◌, ◌∷◌, ◌≟◌,
}
use python_xtr_messenger.Errors.{Error, missing_serializer}
use python_xtr_messenger.Transport.Options.{as_bool, reject_unknown_options}
use python_xtr_messenger.Transport.Serialization.{SerializerInterface}

pub record FactoryState : Type 0 where
  pub made : Dict String ℕ
  pub built : List (Option SerializerInterface)

-- `supports`
abbrev pub supports_in_memory : String → Bool
supports_in_memory scheme = ite (scheme ≟ "in-memory") true false

-- what follows the reading of `serialize`
abbrev pub serializer_if :
    Option SerializerInterface → Bool → Result Error (Option SerializerInterface)
serializer_if serializer false = ok none
serializer_if none true = raise (missing_serializer "in-memory")
serializer_if (some s) true = ok (some s)

abbrev pub serializer_read :
    Option SerializerInterface → Result Error Bool → Result Error (Option SerializerInterface)
serializer_read serializer (raise e) = raise e
serializer_read serializer (ok b) = serializer_if serializer b

abbrev pub serializer_checked :
    Option SerializerInterface
    → Dict String String
    → Result Error (Unit {0})
    → Result Error (Option SerializerInterface)
serializer_checked serializer settings (raise e) = raise e
serializer_checked serializer settings (ok _) =
    serializer_read serializer (as_bool settings "serialize" false)

-- `_serializer_for`
unfoldable pub serializer_for :
    Option SerializerInterface → Dict String String → Result Error (Option SerializerInterface)
unfolding as_bool reject_unknown_options
serializer_for serializer settings =
    serializer_checked serializer settings
      (reject_unknown_options "in-memory" settings ("serialize" ∷ []))

abbrev pub new_transport :
    String → Result Error (Option SerializerInterface) → Exec Error FactoryState ℕ
new_transport name (raise e) s = (raise e, s)
new_transport name (ok serializer) s = (
  ok (length s.built),
  record { made = put name (length s.built) s.made; built = s.built ++ serializer ∷ [] },
)

-- what follows `self._made.get(name)`
abbrev pub transport_from :
    Option SerializerInterface → String → Dict String String → Option ℕ → Exec Error FactoryState ℕ
transport_from serializer name settings (some made) s = (ok made, s)
transport_from serializer name settings none s =
    new_transport name (serializer_for serializer settings) s

-- `_transport`
unfoldable pub transport_named :
    Option SerializerInterface → String → Dict String String → Exec Error FactoryState ℕ
unfolding serializer_for get put string_discrete
transport_named serializer name settings s =
    transport_from serializer name settings (get name s.made) s

abbrev pub and_made :
    String
    → ℕ
    → Result Error (Dict String ℕ) × FactoryState
    → Result Error (Dict String ℕ) × FactoryState
and_made name made (raise e, s) = (raise e, s)
and_made name made (ok more, s) = (ok ((name, made) ∷ more), s)

abbrev pub made_then :
    String
    → Exec Error FactoryState (Dict String ℕ)
    → Result Error ℕ × FactoryState
    → Result Error (Dict String ℕ) × FactoryState
made_then name rest (raise e, s) = (raise e, s)
made_then name rest (ok made, s) = and_made name made (rest s)

-- `create`
unfoldable pub create_in_memory :
    Option SerializerInterface
    → List (String × Dict String String)
    → Exec Error FactoryState (Dict String ℕ)
unfolding transport_named
create_in_memory serializer [] s = (ok [], s)
create_in_memory serializer ((name, settings) ∷ group) s =
    made_then name (create_in_memory serializer group) (transport_named serializer name settings s)
