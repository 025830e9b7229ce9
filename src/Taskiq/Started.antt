-- ===== src/Taskiq/Started.antt =====
-- src/xtr_messenger/bridge/taskiq/started_brokers.py: the brokers that one owner opened. A broker's
-- identity is a number. The lock keeps two tasks from opening a broker at once; one task at a time
-- needs none.
pub mod Closed
use python_xtr_messenger.Base.{
  Bool, Exec, List, Result, [], contains, false, if◌then◌else◌, ite, nat_eq, ok, raise, select,
  true, ℕ, ℕ_discrete, ◌++◌, ◌||◌, ◌∷◌, ◌≟◌,
}
use python_xtr_messenger.Errors.{Error}

-- What the package of the brokers does: whether one is a worker's, and its life cycle.
pub record Brokers (S : Type 0) : Type 0 where
  pub is_worker_process : ℕ → S → Bool
  pub startup : ℕ → Exec Error S Unit
  pub shutdown : ℕ → Exec Error S Unit

-- A `StartedBrokers` within the process: `started` is `_started`, in the order of its iteration.
pub record Owner (S : Type 0) : Type 0 where
  pub app : S
  pub started : List ℕ

-- `_started.discard(broker)`
unfoldable pub discard : ℕ → List ℕ → List ℕ
unfolding select
discard broker started = select (λ b. ite (b ≟ broker) false true) started

-- `_started.add(broker)`
unfoldable pub include : ℕ → List ℕ → List ℕ
unfolding contains ℕ_discrete
include broker started = if contains started broker then started else started ++ broker ∷ []

module _ {S : Type 0} (brokers : Brokers S) where
  -- what follows `startup`
  abbrev pub after_startup : ℕ → List ℕ → Result Error Unit × S → Result Error Unit × Owner S
  after_startup broker started (raise e, s) = (raise e, record { app = s; started = started })
  after_startup broker started (ok _, s) =
      (ok tt, record { app = s; started = include broker started })

  unfoldable pub ensure_started : ℕ → Exec Error (Owner S) Unit
  unfolding include contains ℕ_discrete
  ensure_started broker o =
      if brokers.is_worker_process broker o.app || contains o.started broker
      then (ok tt, o)
      else after_startup broker o.started (brokers.startup broker o.app)

  unfoldable pub forget : ℕ → Owner S → Owner S
  unfolding discard
  forget broker o = record o { started = discard broker o.started }

  abbrev pub noted : List Error → Result Error Unit → List Error
  noted failures (ok _) = failures
  noted failures (raise e) = failures ++ e ∷ []

  -- the loop of `close_all`, with the failures so far
  unfoldable pub close_each : List ℕ → List Error → Owner S → List Error × Owner S
  unfolding discard
  close_each [] failures o = (failures, o)
  close_each (broker ∷ more) failures o =
      let (r, s) = brokers.shutdown broker o.app in
      close_each more (noted failures r) (record { app = s; started = discard broker o.started })

  -- the `if failures`, whose exception is the group of the failures
  abbrev pub grouped : List Error × Owner S → Result (List Error) Unit × Owner S
  grouped ([], o) = (ok tt, o)
  grouped (e ∷ es, o) = (raise (e ∷ es), o)

  unfoldable pub close_all : Exec (List Error) (Owner S) Unit
  unfolding close_each
  close_all o = grouped (close_each o.started [] o)
