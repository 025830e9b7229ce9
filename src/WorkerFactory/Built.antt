-- ===== src/WorkerFactory/Built.antt =====
-- `WorkerFactory.worker`. `R` is the type of receivers; what an adapter's factory makes of a group is
-- given by the receive half of each transport, if it has one.
use python_xtr_messenger.Base.{
  Bool, Dict, Exec, List, Option, Result, String, [], get, if◌then◌else◌, ite, keys, length, nat_eq,
  none, not, ok, put, raise, some, string_discrete, string_eq, values, ℕ, ℕ_discrete, ◌++◌, ◌∷◌,
}
use python_xtr_messenger.Config.{connection_of, update}
use python_xtr_messenger.Dsn.{Dsn}
use python_xtr_messenger.Errors.{Error, incompatible_receivers, names, not_consumable}
use python_xtr_messenger.Transport.Discovery.{EntryPoint}
use python_xtr_messenger.Transport.Factories.{Factory, FactoryWorld, serving}
use python_xtr_messenger.Urls.{Urllib}
use python_xtr_messenger.WorkerFactory.{Configured, by_connection, parts_from, select_transports}

-- A worker: the one that an adapter brings for a group, or the library's own, over the receivers in
-- order, with the name that each message is received under if there is one receiver.
pub data Built (R : Type 0) : Type 0 where
  provided : ℕ → Configured → Built R
  looping : List (String × R) → Option String → Built R

-- What a worker is built from, besides the bus.
pub record WorkerSources (R : Type 0) : Type 0 where
  pub urls : Urllib
  pub kinds : ℕ → Dsn → Bool
  pub installed : List EntryPoint
  pub factory : Factory
  pub provides : ℕ → Bool
  pub create_receiving : ℕ → Configured → Exec Error FactoryWorld (Dict String (Option R))
  pub receivers : Dict String R

module _ {R : Type 0} where
  -- `{name: self._receivers[name] for name in names if name not in group}`
  unfoldable pub registered_among :
      Dict String R → Configured → List String → Dict String R → Dict String R
  unfolding get put string_discrete
  registered_among receivers group [] chosen = chosen
  registered_among receivers group (n ∷ ns) chosen =
      registered_among receivers group ns (elim (get n group) [
        | some config ↦ chosen
        | none ↦ elim (get n receivers) [ none ↦ chosen | some r ↦ put n r chosen ]
      ])

  -- the transports that can be consumed
  unfoldable pub consumable : Dict String (Option R) → Dict String R
  consumable [] = []
  consumable ((n, none) ∷ made) = consumable made
  consumable ((n, some r) ∷ made) = (n, r) ∷ consumable made

  -- `_receivers_of`
  unfoldable pub receivers_of : Dict String (Option R) → Result Error (Dict String R)
  unfolding consumable keys
  receivers_of made =
      ite (ℕ_discrete (length (consumable made)) (length made)) (ok (consumable made))
        (raise (not_consumable (keys made)))

  -- the receivers of the names that have one, in order
  unfoldable pub ordered_from : Dict String R → List String → List (String × R)
  unfolding get string_discrete
  ordered_from found [] = []
  ordered_from found (n ∷ ns) =
      let rest = ordered_from found ns in
      elim (get n found) [ none ↦ rest | some r ↦ (n, r) ∷ rest ]

  -- `ordered[0] if len(ordered) == 1 else None`
  abbrev pub only_name : List (String × R) → Option String
  only_name [] = none
  only_name ((n, r) ∷ []) = some n
  only_name (_ ∷ _ ∷ _) = none

-- the names of the parts that are served by such a factory
unfoldable pub names_served : (ℕ → Bool) → List (ℕ × Configured) → List String
unfolding keys
names_served p [] = []
names_served p ((n, part) ∷ served) =
    let rest = names_served p served in if p n then keys part ++ rest else rest

-- the first of the factories that bring a worker
unfoldable pub first_providing : (ℕ → Bool) → List (ℕ × Configured) → Option ℕ
first_providing p [] = none
first_providing p ((n, part) ∷ served) =
    let rest = first_providing p served in if p n then some n else rest

module _ {R : Type 0} (f : WorkerSources R) where
  abbrev pub and_served :
      ℕ
      → Configured
      → Result Error (List (ℕ × Configured)) × FactoryWorld
      → Result Error (List (ℕ × Configured)) × FactoryWorld
  and_served n part (raise e, w) = (raise e, w)
  and_served n part (ok served, w) = (ok ((n, part) ∷ served), w)

  abbrev pub serve_rest :
      Configured
      → Exec Error FactoryWorld (List (ℕ × Configured))
      → Result Error ℕ × FactoryWorld
      → Result Error (List (ℕ × Configured)) × FactoryWorld
  serve_rest part rest (raise e, w) = (raise e, w)
  serve_rest part rest (ok n, w) = and_served n part (rest w)

  -- `[(self._transports.serving(part), part) for part in …]`
  unfoldable pub serve_parts : List Configured → Exec Error FactoryWorld (List (ℕ × Configured))
  unfolding serving
  serve_parts [] w = (ok [], w)
  serve_parts (part ∷ parts) w =
      serve_rest part (serve_parts parts) (serving f.kinds f.installed f.urls f.factory part w)

  abbrev pub update_found :
      (Dict String R → Exec Error FactoryWorld (Dict String R))
      → Dict String R
      → Result Error (Dict String R)
      → Exec Error FactoryWorld (Dict String R)
  update_found rest found (raise e) w = (raise e, w)
  update_found rest found (ok more) w = rest (update found more) w

  abbrev pub receive_rest :
      (Dict String R → Exec Error FactoryWorld (Dict String R))
      → Dict String R
      → Result Error (Dict String (Option R)) × FactoryWorld
      → Result Error (Dict String R) × FactoryWorld
  receive_rest rest found (raise e, w) = (raise e, w)
  receive_rest rest found (ok made, w) = update_found rest found (receivers_of made) w

  -- the loop that creates the parts
  unfoldable pub create_parts :
      List (ℕ × Configured) → Dict String R → Exec Error FactoryWorld (Dict String R)
  unfolding receivers_of update
  create_parts [] found w = (ok found, w)
  create_parts ((n, part) ∷ served) found w =
      receive_rest (create_parts served) found (f.create_receiving n part w)

  abbrev pub finish_loop :
      List String
      → Dict String R
      → Result Error (Dict String R) × FactoryWorld
      → Result Error (Built R) × FactoryWorld
  finish_loop names registered (raise e, w) = (raise e, w)
  finish_loop names registered (ok found, w) =
      let ordered = ordered_from (update found registered) names in
      (ok (looping ordered (only_name ordered)), w)

  -- whether others are named besides the transports of an adapter that brings its worker
  abbrev pub provide_unless : ℕ → Configured → List String → List String → Result Error (Built R)
  provide_unless n group brokered [] = ok (provided n group)
  provide_unless n group brokered (other ∷ others) =
      raise (incompatible_receivers brokered (other ∷ others))

  abbrev pub build_served :
      List String
      → Configured
      → Dict String R
      → List (ℕ × Configured)
      → Option ℕ
      → Exec Error FactoryWorld (Built R)
  build_served names group registered served (some n) w = (
    provide_unless n group (names_served f.provides served)
        (names_served (λ m. not (f.provides m)) served ++ keys registered),
    w,
  )
  build_served names group registered served none w =
      finish_loop names registered (create_parts served [] w)

  abbrev pub served_then :
      List String
      → Configured
      → Dict String R
      → Result Error (List (ℕ × Configured)) × FactoryWorld
      → Result Error (Built R) × FactoryWorld
  served_then names group registered (raise e, w) = (raise e, w)
  served_then names group registered (ok served, w) =
      build_served names group registered served (first_providing f.provides served) w

  abbrev pub parts_then :
      List String
      → Configured
      → Dict String R
      → Result Error (Dict String Configured)
      → Exec Error FactoryWorld (Built R)
  parts_then names group registered (raise e) w = (raise e, w)
  parts_then names group registered (ok parts) w =
      served_then names group registered (serve_parts (values parts) w)

  abbrev pub selected_then :
      List String → Result Error Configured → Exec Error FactoryWorld (Built R)
  selected_then names (raise e) w = (raise e, w)
  selected_then names (ok group) w =
      parts_then names group (registered_among f.receivers group names [])
        (by_connection (connection_of f.urls) group) w

  -- `worker`, given the bus that it dispatches through
  unfoldable pub build_worker : Configured → List String → Exec Error FactoryWorld (Built R)
  unfolding select_transports registered_among parts_from connection_of serve_parts create_parts
      first_providing names_served ordered_from keys values update
  build_worker transports names w =
      selected_then names (select_transports transports (keys f.receivers) names) w
