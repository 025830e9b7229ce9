-- ===== src/Chain.antt =====
-- src/xtr_messenger/middleware/named.py and middleware_arguments.py: the middlewares that a
-- configuration names. `M` is the type of middlewares, and `B` the state that building one changes.
pub mod Layers
pub mod Keys
pub mod Resolved
pub mod Container
pub mod Declared
use mathlib.Core.Option
use python_xtr_messenger.Base.{
  Bool, Dict, Exec, List, Option, Result, String, [], decimal, false, ite, joined, keys, map,
  nat_eq, none, ok, raise, some, string_discrete, string_eq, suc, true, ℕ, ◌+++◌, ◌++◌, ◌∷◌, ◌≟◌,
}
use python_xtr_messenger.Errors.{Error, invalid_middleware_arguments, unknown_middleware}
use python_xtr_messenger.Stamps.{Value, null, num, text}

-- What an entry gives as arguments: a mapping, whose keys should be texts, or another value.
pub data Given : Type 0 where
  mapping : List (Value × Value) → Given
  no_mapping : Value → Given

-- A `MiddlewareEntry`: a name, a middleware that is built already, or a mapping.
pub data Entry (M : Type 0) : Type 0 where
  by_name : String → Entry M
  ready : M → Entry M
  with_arguments : Dict String Given → Entry M

-- A `MiddlewareBuilder`. `complaint` is the text of the `TypeError` that binding arguments to its
-- signature raises, if it raises one.
pub record Builder (B M : Type 0) : Type 0 where
  pub complaint : Dict String Value → Option String
  pub build : Dict String Value → Exec Error B M

-- A `Mapping[str, MiddlewareBuilder]`: its `get`, and its names in the order of its iteration.
pub record NamedBuilders (B M : Type 0) : Type 0 where
  pub find : String → Option (Builder B M)
  pub listed : List String

-- Python's `repr`
pub record Repr : Type 0 where
  pub repr_text : String → String
  pub repr_given : Given → String

-- `entry_key`
unfoldable pub entry_key : String → ℕ → String
unfolding decimal
entry_key name ordinal = name +++ "#" +++ decimal ordinal

-- the mapping, if all its keys are texts
unfoldable pub text_keys : List (Value × Value) → Option (Dict String Value)
text_keys [] = some []
text_keys ((text k, v) ∷ more) = Option.map (◌∷◌ (k, v)) (text_keys more)
text_keys ((null, v) ∷ more) = none
text_keys ((num n, v) ∷ more) = none

abbrev no_names : String → String
no_names names = ite (names ≟ "") "none" names

module _ (r : Repr) where
  abbrev refused_given : String → Given → Error
  refused_given name given =
      invalid_middleware_arguments name
        ("arguments are a mapping of parameter names, not " +++ r.repr_given given)

  abbrev pub arguments_or :
      String → Given → Option (Dict String Value) → Result Error (String × Dict String Value)
  arguments_or name given none = raise (refused_given name given)
  arguments_or name given (some arguments) = ok (name, arguments)

  abbrev pub arguments_of : String → Given → Result Error (String × Dict String Value)
  arguments_of name (no_mapping v) = raise (refused_given name (no_mapping v))
  arguments_of name (mapping items) = arguments_or name (mapping items) (text_keys items)

  abbrev refused_entry : Dict String Given → Error
  refused_entry entry =
      invalid_middleware_arguments (no_names (joined (map r.repr_text (keys entry))))
        "an entry with arguments is a single {name: {argument: value}}"

  -- `entry_arguments`
  unfoldable pub entry_arguments : Dict String Given → Result Error (String × Dict String Value)
  unfolding text_keys joined keys string_discrete
  entry_arguments [] = raise (refused_entry [])
  entry_arguments ((name, given) ∷ []) = arguments_of name given
  entry_arguments (a ∷ b ∷ more) = raise (refused_entry (a ∷ b ∷ more))

-- the ordinal after an entry
abbrev pub ordinal_after : {M : Type 0} → ℕ → Entry M → ℕ
ordinal_after ordinal (by_name _) = ordinal
ordinal_after ordinal (ready _) = ordinal
ordinal_after ordinal (with_arguments _) = suc ordinal

module _ {B M : Type 0} where
  abbrev pub builder_or :
      NamedBuilders B M → String → Option (Builder B M) → Result Error (Builder B M)
  builder_or builders name none = raise (unknown_middleware name builders.listed)
  builder_or builders name (some b) = ok b

  -- `_builder`
  unfoldable pub builder_named : NamedBuilders B M → String → Result Error (Builder B M)
  builder_named builders name = builder_or builders name (builders.find name)

  abbrev pub build_bare : Result Error (Builder B M) → Exec Error B M
  build_bare (raise e) s = (raise e, s)
  build_bare (ok b) s = b.build [] s

  abbrev pub build_unless :
      Builder B M → String → Dict String Value → Option String → Exec Error B M
  build_unless b name arguments (some reason) s =
      (raise (invalid_middleware_arguments name reason), s)
  build_unless b name arguments none s = b.build arguments s

  abbrev pub build_with : String → Dict String Value → Result Error (Builder B M) → Exec Error B M
  build_with name arguments (raise e) s = (raise e, s)
  build_with name arguments (ok b) s = build_unless b name arguments (b.complaint arguments) s

  -- what follows the look for what a container prepared
  abbrev pub prepared_or :
      NamedBuilders B M → String → Dict String Value → Option (Builder B M) → Exec Error B M
  prepared_or builders name arguments (some prepared) s = prepared.build [] s
  prepared_or builders name arguments none s =
      build_with name arguments (builder_named builders name) s

  abbrev pub resolve_arguments :
      NamedBuilders B M → ℕ → Result Error (String × Dict String Value) → Exec Error B M
  resolve_arguments builders ordinal (raise e) s = (raise e, s)
  resolve_arguments builders ordinal (ok (name, arguments)) s =
      prepared_or builders name arguments (builders.find (entry_key name ordinal)) s

  -- one round of the loop of `resolve`
  unfoldable pub resolve_entry : Repr → NamedBuilders B M → ℕ → Entry M → Exec Error B M
  unfolding builder_named entry_key entry_arguments
  resolve_entry r builders ordinal (by_name name) s = build_bare (builder_named builders name) s
  resolve_entry r builders ordinal (ready m) s = (ok m, s)
  resolve_entry r builders ordinal (with_arguments entry) s =
      resolve_arguments builders ordinal (entry_arguments r entry) s

  abbrev pub onto : M → Result Error (List M) × B → Result Error (List M) × B
  onto m (raise e, s) = (raise e, s)
  onto m (ok ms, s) = (ok (m ∷ ms), s)

  abbrev pub and_rest : Exec Error B (List M) → Result Error M × B → Result Error (List M) × B
  and_rest rest (raise e, s) = (raise e, s)
  and_rest rest (ok m, s) = onto m (rest s)

  unfoldable pub resolve_from :
      Repr → NamedBuilders B M → ℕ → List (Entry M) → Exec Error B (List M)
  unfolding resolve_entry
  resolve_from r builders ordinal [] s = (ok [], s)
  resolve_from r builders ordinal (e ∷ es) s =
      and_rest (resolve_from r builders (ordinal_after ordinal e) es)
        (resolve_entry r builders ordinal e s)

  -- `resolve`
  abbrev pub resolve : Repr → NamedBuilders B M → List (Entry M) → Exec Error B (List M)
  resolve r builders entries = resolve_from r builders 0 entries

  abbrev pub around : M → List M → Result Error (List M) × B → Result Error (List M) × B
  around first configured (raise e, s) = (raise e, s)
  around first configured (ok more, s) = (ok (first ∷ (configured ++ more)), s)

  -- what follows the resolution of the configured entries
  abbrev pub chain_of :
      M → Bool → Exec Error B (List M) → Result Error (List M) × B → Result Error (List M) × B
  chain_of first default_middleware defaults (raise e, s) = (raise e, s)
  chain_of first false defaults (ok configured, s) = (ok configured, s)
  chain_of first true defaults (ok configured, s) = around first configured (defaults s)

  -- `chain`; `first` is the `DispatchAfterCurrentBusMiddleware()`
  unfoldable pub chain :
      Repr
      → M
      → Bool
      → List (Entry M)
      → NamedBuilders B M
      → Exec Error B (List M)
      → Exec Error B (List M)
  unfolding resolve_from
  chain r first default_middleware entries builders defaults s =
      chain_of first default_middleware defaults (resolve r builders entries s)
