-- ===== src/Transport/Discovery.antt =====
-- src/xtr_messenger/transport/transport_factory_discovery.py. A factory that was built is told by the
-- number of those built before it.
use python_xtr_messenger.Base.{
  Bool, Exec, List, Option, Result, String, [], contains, false, get_elem?, if◌then◌else◌, ite,
  length, map, nat_eq, none, ok, raise, select, some, sorted, string_discrete, string_eq, text_leb,
  true, ℕ, ◌++◌, ◌∷◌, ◌≟◌,
}
use python_xtr_messenger.Dsn.{Dsn}
use python_xtr_messenger.Errors.{Error, missing_serializer}
use python_xtr_messenger.Transport.Serialization.{SerializerInterface}

-- Whether a builder has a parameter `serializer`, and whether that has a default.
pub data Wants : Type 0 where
  no_serializer optional_serializer required_serializer : Wants

-- What loading an entry point gives: an `ImportError`, a value that cannot be called, or a builder
-- and the kind of factory that it makes, if what it makes is one.
pub data Loaded : Type 0 where
  import_error not_callable : Loaded
  builder : Wants → Option ℕ → Loaded

pub record EntryPoint : Type 0 where
  pub entry_name : String
  pub value : String
  pub loaded : Loaded

-- A factory that was built.
pub record MadeFactory : Type 0 where
  pub kind : ℕ
  pub given : Option SerializerInterface

-- `isinstance(made, TransportFactoryInterface)`
abbrev pub new_factory :
    Option SerializerInterface → Option ℕ → Exec Error (List MadeFactory) (Option ℕ)
new_factory given none made = (ok none, made)
new_factory given (some k) made =
    (ok (some (length made)), made ++ record { kind = k; given = given } ∷ [])

abbrev pub call_builder :
    String
    → Option SerializerInterface
    → Wants
    → Option ℕ
    → Exec Error (List MadeFactory) (Option ℕ)
call_builder name serializer no_serializer k made = new_factory none k made
call_builder name serializer optional_serializer k made = new_factory serializer k made
call_builder name none required_serializer k made = (raise (missing_serializer name), made)
call_builder name (some s) required_serializer k made = new_factory (some s) k made

abbrev pub build_loaded :
    String → Option SerializerInterface → Loaded → Exec Error (List MadeFactory) (Option ℕ)
build_loaded name serializer import_error made = (ok none, made)
build_loaded name serializer not_callable made = (ok none, made)
build_loaded name serializer (builder wants k) made = call_builder name serializer wants k made

-- `_build`
unfoldable pub build_factory :
    EntryPoint → Option SerializerInterface → Exec Error (List MadeFactory) (Option ℕ)
build_factory entry serializer made = build_loaded entry.entry_name serializer entry.loaded made

-- `advertised_schemes`
unfoldable pub advertised_schemes : List EntryPoint → List String
unfolding sorted
advertised_schemes entries = sorted (map (λ e. e.entry_name) entries)

-- `entry_points(group=…, name=name)`
abbrev pub entries_named : String → List EntryPoint → List EntryPoint
entries_named name entries = select (λ e. ite (e.entry_name ≟ name) true false) entries

-- `factory.supports(dsn)`, of a factory that was built
unfoldable pub supports_made : (ℕ → Dsn → Bool) → List MadeFactory → ℕ → Dsn → Bool
supports_made kinds made n dsn = elim (get_elem? made n) [
  | none ↦ false
  | some m ↦ kinds m.kind dsn
]

module _ (kinds : ℕ → Dsn → Bool) (serializer : Option SerializerInterface) (dsn : Dsn) where
  abbrev pub if_supported :
      Exec Error (List MadeFactory) (Option ℕ) → ℕ → Bool → Exec Error (List MadeFactory) (Option ℕ)
  if_supported rest n true made = (ok (some n), made)
  if_supported rest n false made = rest made

  abbrev pub if_built :
      Exec Error (List MadeFactory) (Option ℕ)
      → Result Error (Option ℕ) × List MadeFactory
      → Result Error (Option ℕ) × List MadeFactory
  if_built rest (raise e, made) = (raise e, made)
  if_built rest (ok none, made) = rest made
  if_built rest (ok (some n), made) = if_supported rest n (supports_made kinds made n dsn) made

  -- the loop of `factory_for`
  unfoldable pub first_supporting : List EntryPoint → Exec Error (List MadeFactory) (Option ℕ)
  unfolding build_factory supports_made
  first_supporting [] made = (ok none, made)
  first_supporting (entry ∷ entries) made =
      if_built (first_supporting entries) (build_factory entry serializer made)

  -- `factory_for`
  unfoldable pub factory_for : List EntryPoint → Exec Error (List MadeFactory) (Option ℕ)
  unfolding first_supporting select string_discrete
  factory_for entries made = first_supporting (entries_named dsn.scheme entries) made

-- `sorted(entries, key=lambda e: e.name)`
unfoldable pub insert_entry : EntryPoint → List EntryPoint → List EntryPoint
unfolding sorted
insert_entry e [] = e ∷ []
insert_entry e (f ∷ fs) =
    let rest = insert_entry e fs in
    if text_leb e.entry_name f.entry_name then e ∷ f ∷ fs else f ∷ rest

unfoldable pub sorted_entries : List EntryPoint → List EntryPoint
unfolding insert_entry
sorted_entries [] = []
sorted_entries (e ∷ es) = insert_entry e (sorted_entries es)

abbrev pub and_found :
    ℕ → Result Error (List ℕ) × List MadeFactory → Result Error (List ℕ) × List MadeFactory
and_found n (raise e, made) = (raise e, made)
and_found n (ok ns, made) = (ok (n ∷ ns), made)

abbrev pub keep_found :
    Exec Error (List MadeFactory) (List ℕ)
    → Exec Error (List MadeFactory) (List ℕ)
    → Result Error (Option ℕ) × List MadeFactory
    → Result Error (List ℕ) × List MadeFactory
keep_found unseen now_seen (raise e, made) = (raise e, made)
keep_found unseen now_seen (ok none, made) = unseen made
keep_found unseen now_seen (ok (some n), made) = and_found n (now_seen made)

-- the loop of `default_factories`
unfoldable pub default_from :
    Option SerializerInterface
    → List String
    → List EntryPoint
    → Exec Error (List MadeFactory) (List ℕ)
unfolding build_factory contains string_discrete
default_from serializer seen [] made = (ok [], made)
default_from serializer seen (entry ∷ entries) made =
    let unseen = default_from serializer seen entries in
    let now_seen = default_from serializer (entry.value ∷ seen) entries in
    let built = keep_found unseen now_seen (build_factory entry serializer made) in
    let skipped = unseen made in if contains seen entry.value then skipped else built

-- `default_factories`
unfoldable pub default_factories :
    List EntryPoint → Option SerializerInterface → Exec Error (List MadeFactory) (List ℕ)
unfolding default_from sorted_entries
default_factories entries serializer made = default_from serializer [] (sorted_entries entries) made
