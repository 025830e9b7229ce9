-- ===== src/Chain/Container.antt =====
-- src/xtr_messenger/bundle/_services.py: the middlewares of a chain that a container builds, once,
-- before the chain is made.
use python_xtr_messenger.Base.{
  Bool, Dict, Exec, List, Result, String, [], false, nat_eq, none, ok, put, raise, some,
  string_discrete, string_eq, suc, true, ℕ, ◌∷◌,
}
use python_xtr_messenger.Chain.{
  Builder, Entry, Repr, by_name, entry_arguments, entry_key, ready, with_arguments,
}
use python_xtr_messenger.Errors.{Error, names}
use python_xtr_messenger.Stamps.{Value}
use python_xtr_messenger.Transport.Sender.{Yields, done, fails, yield}

-- A `ServiceLocator` of middlewares: `name in locator`, and `await locator.get(name)`.
pub record Located (B M : Type 0) : Type 0 where
  pub carries : String → Bool
  pub fetch : String → Exec Error B M

abbrev pub yield_key : ℕ → Result Error (String × Dict String Value) → Yields String → Yields String
yield_key ordinal (raise e) rest = fails e
yield_key ordinal (ok (name, arguments)) rest = yield (entry_key name ordinal) rest

module _ {M : Type 0} where
  -- `_middleware_keys`, from an ordinal on
  unfoldable pub middleware_keys : Repr → ℕ → List (Entry M) → Yields String
  unfolding entry_arguments entry_key
  middleware_keys r ordinal [] = done
  middleware_keys r ordinal (by_name name ∷ es) = yield name (middleware_keys r ordinal es)
  middleware_keys r ordinal (ready m ∷ es) = middleware_keys r ordinal es
  middleware_keys r ordinal (with_arguments entry ∷ es) =
      yield_key ordinal (entry_arguments r entry) (middleware_keys r (suc ordinal) es)

  -- `_in_units_of_work`, on the entries of the configuration
  unfoldable pub in_units_of_work : M → List (Entry M) → List (Entry M)
  in_units_of_work unit_of_work entries = ready unit_of_work ∷ entries

module _ {B M : Type 0} (l : Located B M) where
  abbrev pub keep_built :
      String
      → (Dict String M → Exec Error B (Dict String M))
      → Dict String M
      → Result Error M × B
      → Result Error (Dict String M) × B
  keep_built name rest built (raise e, s) = (raise e, s)
  keep_built name rest built (ok m, s) = rest (put name m built) s

  abbrev pub fetch_if :
      Bool
      → String
      → (Dict String M → Exec Error B (Dict String M))
      → Dict String M
      → Exec Error B (Dict String M)
  fetch_if false name rest built s = rest built s
  fetch_if true name rest built s = keep_built name rest built (l.fetch name s)

  -- the loop of `_named_from_config`
  unfoldable pub fetch_all : Yields String → Dict String M → Exec Error B (Dict String M)
  unfolding put string_discrete
  fetch_all done built s = (ok built, s)
  fetch_all (fails e) built s = (raise e, s)
  fetch_all (yield name names) built s = fetch_if (l.carries name) name (fetch_all names) built s

-- a builder that returns what is built already; its `signature` takes no argument
abbrev pub returning : {B M : Type 0} → M → Builder B M
returning m = record {
  complaint = λ arguments. elim arguments [ [] ↦ none | _ ∷ _ ↦ some "too many arguments" ];
  build = λ arguments s. (ok m, s);
}

-- `_named_from_config`
unfoldable pub named_from_config :
    {B M : Type 0} → Repr → List (Entry M) → Located B M → Exec Error B (Dict String M)
unfolding middleware_keys fetch_all
named_from_config r entries l s = fetch_all l (middleware_keys r 0 entries) [] s
