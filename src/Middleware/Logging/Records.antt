-- ===== src/Middleware/Logging/Records.antt =====
-- What the logger is told of a dispatch.
use python_xtr_messenger.Base.{
  Dict, Exec, List, Option, Result, String, [], ap, append-nil, append_assoc, map, none, ok, pure,
  raise, refl, some, string_eq, subst, sym, ◌++◌, ◌>>◌, ◌∙◌, ◌∷◌, ◌≡◌,
}
use python_xtr_messenger.Envelope.{Envelope, all, last, type_of_message}
use python_xtr_messenger.Errors.{Error, class_name}
use python_xtr_messenger.Middleware.{run}
use python_xtr_messenger.Middleware.Logging.{
  Detail, LogRecord, Logger, after_chain, debug_level, dispatched_details, handled_details,
  id_details, info, info_level, log_dispatch, log_handled, log_result, notice_level, of_text,
  of_texts, of_value, result_details, sent_details, stamped_details,
}
use python_xtr_messenger.Stamps.{
  Stamp, Value, handled, handled_stamp, null, num, sent, sent_stamp, stamp_eq, text,
  transport_message_id, transport_message_id_stamp,
}

-- The process as its log shows it. A logger notes what it is given and does not raise.
pub record LogView {W : Type 0} (logger : Logger W) : Type 0 where
  pub view : W → List LogRecord
  pub notes : (r : LogRecord) (w : W) → view (logger.log r w).1 ≡ view w ++ r ∷ []
  pub quiet : (r : LogRecord) (w : W) → (logger.log r w).0 ≡ ok tt

module _ {W : Type 0} (logger : Logger W) (v : LogView logger) where
  -- An entry of a context, if there is something to tell.
  abbrev pub entry_if : String → Option Detail → Dict String Detail
  entry_if key none = []
  entry_if key (some detail) = (key, detail) ∷ []

  -- The alias that the last `SentStamp` gives, the id that the last `TransportMessageIdStamp` gives,
  -- and what a handler returned, if it is not `None`.
  abbrev pub alias_in : Option Stamp → Option Detail
  alias_in (some (sent class_name name)) = some (of_text name)
  alias_in _ = none

  abbrev pub id_in : Option Stamp → Option Detail
  id_in (some (transport_message_id id)) = some (of_text id)
  id_in _ = none

  abbrev pub outcome_in : Value → Option Detail
  outcome_in null = none
  outcome_in (num n) = some (of_value (num n))
  outcome_in (text t) = some (of_value (text t))

  -- The record of a handler that ran: its name, and what it returned.
  abbrev pub handler_record : String → Stamp → LogRecord
  handler_record message_type (handled name value) = record {
    severity = info_level;
    message = "message handled";
    context =
        ("message_type", of_text message_type)
        ∷ ("handler", of_text name)
        ∷ entry_if "result" (outcome_in value);
  }
  handler_record message_type _ = record {
    severity = info_level;
    message = "message handled";
    context = ("message_type", of_text message_type) ∷ [];
  }

  -- The records that tell of an outcome: one that it was dispatched, with where it went and the id it
  -- got, one for each handler that ran, in order, and one with all its stamps; none of an exception.
  abbrev pub records_of : Result Error Envelope → List LogRecord
  records_of (raise e) = []
  records_of (ok result) =
      let message_type = logger.type_name (type_of_message result.message) in
      record {
        severity = notice_level;
        message = "message dispatched";
        context =
            ("message_type", of_text message_type)
              ∷ entry_if "transport" (alias_in (last result sent_stamp))
            ++ entry_if "message_id" (id_in (last result transport_message_id_stamp));
      }
        ∷ map (handler_record message_type) (all result handled_stamp)
      ++ record {
        severity = debug_level;
        message = "envelope stamped";
        context =
            ("message_type", of_text message_type)
            ∷ ("stamps", of_texts (map logger.repr_stamp result.stamps))
            ∷ [];
      }
        ∷ []

  sent_details-entry_if : (o : Option Stamp) → sent_details o ≡ entry_if "transport" (alias_in o)
  unfolding sent_details
  sent_details-entry_if none = refl
  sent_details-entry_if (some s) =
      elim s as (λ x. sent_details (some x) ≡ entry_if "transport" (alias_in (some x))) [
        | sent c n ↦ refl
        | _ ↦ refl
      ]

  id_details-entry_if : (o : Option Stamp) → id_details o ≡ entry_if "message_id" (id_in o)
  unfolding id_details
  id_details-entry_if none = refl
  id_details-entry_if (some s) =
      elim s as (λ x. id_details (some x) ≡ entry_if "message_id" (id_in (some x))) [
        | transport_message_id i ↦ refl
        | _ ↦ refl
      ]

  -- The same by the code's own contexts.
  abbrev noted_handler : String → Stamp → LogRecord
  noted_handler message_type s = record {
    severity = info_level;
    message = "message handled";
    context = handled_details s message_type;
  }

  abbrev noted_handlers : List Stamp → String → List LogRecord
  noted_handlers [] message_type = []
  noted_handlers (s ∷ ss) message_type =
      noted_handler message_type s ∷ noted_handlers ss message_type

  noted_handler-handler_record :
      (message_type : String) (s : Stamp)
      → noted_handler message_type s ≡ handler_record message_type s
  unfolding handled_details result_details
  noted_handler-handler_record message_type s =
      elim s as (λ x. noted_handler message_type x ≡ handler_record message_type x) [
        | handled name value ↦
            elim value
              as (λ x.
                noted_handler message_type (handled name x)
                ≡ handler_record message_type (handled name x)) [ null ↦ refl | _ ↦ refl ]
        | _ ↦ refl
      ]

  noted_handlers-map :
      (ss : List Stamp) (message_type : String)
      → noted_handlers ss message_type ≡ map (handler_record message_type) ss
  noted_handlers-map [] message_type = refl
  noted_handlers-map (s ∷ ss) message_type =
      ap (◌∷◌ (noted_handler message_type s)) (noted_handlers-map ss message_type)
      ∙ ap (λ r. r ∷ map (handler_record message_type) ss)
          (noted_handler-handler_record message_type s)

  abbrev noted_of : Result Error Envelope → List LogRecord
  noted_of (raise e) = []
  noted_of (ok result) =
      let message_type = logger.type_name (type_of_message result.message) in
      record {
        severity = notice_level;
        message = "message dispatched";
        context = dispatched_details result message_type;
      }
        ∷ noted_handlers (all result handled_stamp) message_type
      ++ record {
        severity = debug_level;
        message = "envelope stamped";
        context = stamped_details logger.repr_stamp result message_type;
      }
        ∷ []

  noted_of-records_of : (o : Result Error Envelope) → noted_of o ≡ records_of o
  unfolding dispatched_details
  noted_of-records_of (raise e) = refl
  noted_of-records_of (ok result) =
      let message_type = logger.type_name (type_of_message result.message) in
      let last_record : LogRecord = record {
        severity = debug_level;
        message = "envelope stamped";
        context = stamped_details logger.repr_stamp result message_type;
      } in
      let first_of : Dict String Detail → Dict String Detail → LogRecord = λ a i. record {
        severity = notice_level;
        message = "message dispatched";
        context = ("message_type", of_text message_type) ∷ a ++ i;
      } in
      let noted = noted_handlers (all result handled_stamp) message_type ++ last_record ∷ [] in
      let sent_ones = sent_details (last result sent_stamp) in
      let ids = entry_if "message_id" (id_in (last result transport_message_id_stamp)) in
      ap (λ i. first_of sent_ones i ∷ noted)
        (id_details-entry_if (last result transport_message_id_stamp))
      ∙ ap (λ a. first_of a ids ∷ noted) (sent_details-entry_if (last result sent_stamp))
      ∙ ap
          (λ hs.
            first_of (entry_if "transport" (alias_in (last result sent_stamp))) ids ∷ hs
            ++ last_record ∷ [])
          (noted_handlers-map (all result handled_stamp) message_type)

  -- What an action that logs tells, and with what result.
  abbrev pub Tells : {A : Type 0} → Exec Error W A → A → List LogRecord → Type 0
  Tells m a rs = (w : W) → ((m w).0 ≡ ok a) × (v.view (m w).1 ≡ v.view w ++ rs)

  log-then :
      {A : Type 0} (r : LogRecord) (m : Exec Error W A) (a : A) (rs : List LogRecord)
      → Tells m a rs
      → Tells (logger.log r >> m) a (r ∷ rs)
  log-then r m a rs h w = go (logger.log r w) (v.quiet r w) (v.notes r w)
    where
      go :
          (o : Result Error Unit × W)
          → o.0 ≡ ok tt
          → v.view o.1 ≡ v.view w ++ r ∷ []
          → ((◌>>◌ {S = W} (λ _. o) m w).0 ≡ ok a)
            × (v.view (◌>>◌ {S = W} (λ _. o) m w).1 ≡ v.view w ++ r ∷ rs)
      go (ok _, w') q n =
          ((h w').0, (h w').1 ∙ ap (λ rs'. rs' ++ rs) n ∙ append_assoc (v.view w) (r ∷ []) rs)
      go (raise e, w') q n = cc q

  -- Actions in sequence, however they are grouped.
  then_assoc :
      {A : Type 0} (a b : Exec Error W Unit) (m : Exec Error W A) (w : W)
      → ((a >> b) >> m) w ≡ (a >> (b >> m)) w
  then_assoc {A} a b m w = go (a w)
    where
      go :
          (o : Result Error Unit × W)
          → ◌>>◌ {S = W} (λ (_ : W). ◌>>◌ {S = W} (λ (_ : W). o) b o.1) m o.1
            ≡ ◌>>◌ {S = W} (λ (_ : W). o) (b >> m) o.1
      go (ok _, w') = refl
      go (raise e, w') = refl

  log_handled-then :
      {A : Type 0} (ss : List Stamp) (message_type : String) (m : Exec Error W A) (a : A)
      (rs : List LogRecord)
      → Tells m a rs
      → Tells (log_handled logger ss message_type >> m) a (noted_handlers ss message_type ++ rs)
  unfolding log_handled
  log_handled-then [] message_type m a rs h w = h w
  log_handled-then (s ∷ ss) message_type m a rs h w =
      subst
        (λ o.
          (o.0 ≡ ok a) × (v.view o.1 ≡ v.view w ++ (noted_handlers (s ∷ ss) message_type ++ rs)))
        (sym (
          then_assoc (info logger "message handled" (handled_details s message_type))
            (log_handled logger ss message_type) m w))
        (log-then _ (log_handled logger ss message_type >> m) a
          (noted_handlers ss message_type ++ rs) (log_handled-then ss message_type m a rs h) w)

  -- Where the logger only takes notes, a dispatch returns or raises what the rest of the chain does,
  -- untouched. What was logged is that it was dispatched, with the transport and the id that it got if
  -- it got them, then each handler that ran by name, in order, with what it returned if it returned
  -- anything, and then every stamp; of an exception, nothing.
  pub run-log_dispatch :
      (rest : Envelope → Exec Error W Envelope) (env : Envelope) (w : W)
      → ((run (log_dispatch logger env) rest w).0 ≡ (rest env w).0)
        × (v.view (run (log_dispatch logger env) rest w).1
            ≡ v.view (rest env w).1 ++ records_of (rest env w).0)
  unfolding run log_dispatch log_result
  run-log_dispatch rest env w =
      let (same, logged) = go (rest env w) in
      (same, logged ∙ ap (λ rs. v.view (rest env w).1 ++ rs) (noted_of-records_of (rest env w).0))
    where
      go :
          (o : Result Error Envelope × W)
          → ((run (after_chain logger o.0) rest o.1).0 ≡ o.0)
            × (v.view (run (after_chain logger o.0) rest o.1).1 ≡ v.view o.1 ++ noted_of o.0)
      go (raise e, w') = (refl, sym (append-nil (v.view w')))
      go (ok result, w') =
          let message_type = logger.type_name (type_of_message result.message) in
          log-then _ _ result _
            (log_handled-then (all result handled_stamp) message_type _ result _
              (log-then _ (pure result) result [] (λ u. (refl, sym (append-nil (v.view u))))))
            w'
