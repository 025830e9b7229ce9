-- ===== src/Transport/InMemory/Stamping.antt =====
-- What `InMemoryTransport.send` hands back and records.
-- The last message id that an envelope carries.
use python_xtr_messenger.Base.{
  Bool, List, Option, Option-cases, Result-cases, String, [], ap, inl, inr, last?, none, ok,
  or_else, raise, refl, select, select-select_of_implies, some, string_eq, ◌++◌, ◌∙◌, ◌∷◌, ◌≡◌, ◌⊎◌,
}
use python_xtr_messenger.Envelope.{Envelope, all, last, with_stamps}
use python_xtr_messenger.Envelope.Laws.{last-with_stamps, message-with_stamps}
use python_xtr_messenger.Errors.{Error, unsupported_stamp}
use python_xtr_messenger.Stamps.{
  Stamp, StampType, delay_stamp, isinstance, stamp_eq, stamp_type_eq, transport_message_id,
  transport_message_id_stamp,
}
use python_xtr_messenger.Transport.InMemory.{
  InMemory, record_sent, recorded_of, send_in_memory, send_recorded, send_unless,
}
use python_xtr_messenger.Transport.Serialization.{SerializerInterface}

abbrev pub message_id : Envelope → Option Stamp
message_id env = last env transport_message_id_stamp

abbrev pub with_id : String → Envelope → Envelope
with_id id env = with_stamps env (transport_message_id id ∷ [])

-- A send that records: one envelope, at the end of the record and of the queue, which has the id
-- that the sender is handed back.
pub record IsSent (t : InMemory) (env r : Envelope) (id : String) (returned : Envelope)
    (t' : InMemory) : Type 0 where
  pub sent_log_is : t'.sent_log ≡ t.sent_log ++ with_id id r ∷ []
  pub queue_is : t'.queue ≡ t.queue ++ with_id id r ∷ []
  pub rejected_log_is : t'.rejected_log ≡ t.rejected_log
  pub recorded_id : message_id (with_id id r) ≡ some (transport_message_id id)
  pub returned_id : message_id returned ≡ some (transport_message_id id)
  pub message_is : returned.message ≡ env.message

-- The ways a send ends; one that is refused, for a delay or by the serializer, changes nothing.
abbrev pub SendOutcome : Option SerializerInterface → String → Envelope → InMemory → Type 0
SendOutcome codec id env t =
    ((s : Stamp) × (last env delay_stamp ≡ some s)
      × (send_in_memory codec id env t ≡ (raise (unsupported_stamp "DelayStamp" "in-memory"), t)))
    ⊎ ((e : Error) × (recorded_of codec env ≡ raise e)
        × (send_in_memory codec id env t ≡ (raise e, t)))
    ⊎ ((r returned : Envelope) × (t' : InMemory) × (last env delay_stamp ≡ none)
        × (recorded_of codec env ≡ ok r)
        × (send_in_memory codec id env t ≡ (ok returned, t'))
        × IsSent t env r id returned t')

last-with_id :
    (id : String) (env : Envelope) → message_id (with_id id env) ≡ some (transport_message_id id)
unfolding isinstance select last?
last-with_id id env = last-with_stamps env (transport_message_id id ∷ []) transport_message_id_stamp

-- Of the stamps of a class, all are of it.
select_twice : (p : Stamp → Bool) (xs : List Stamp) → select p (select p xs) ≡ select p xs
select_twice p xs = select-select_of_implies p p (λ x h. h) xs

last-all :
    (env : Envelope) (t : StampType) → last? (select (λ s. isinstance s t) (all env t)) ≡ last env t
unfolding all last
last-all env t = ap last? (select_twice (λ s. isinstance s t) env.stamps)

returned_has_id :
    (id : String) (env r : Envelope)
    → message_id (with_stamps env (all (with_id id r) transport_message_id_stamp))
      ≡ some (transport_message_id id)
returned_has_id id env r =
    last-with_stamps env (all (with_id id r) transport_message_id_stamp) transport_message_id_stamp
    ∙ ap (λ o. or_else o (last env transport_message_id_stamp))
        (last-all (with_id id r) transport_message_id_stamp ∙ last-with_id id r)

record_sent-IsSent :
    (id : String) (env r : Envelope) (t : InMemory)
    → IsSent t env r id (record_sent id env r t).0 (record_sent id env r t).1
unfolding record_sent
record_sent-IsSent id env r t = record {
  sent_log_is = refl;
  queue_is = refl;
  rejected_log_is = refl;
  recorded_id = last-with_id id r;
  returned_id = returned_has_id id env r;
  message_is = message-with_stamps env (all (with_id id r) transport_message_id_stamp);
}

-- A send to an in-memory transport is refused for a delay, whatever else, or by the serializer,
-- and then changes nothing; or it records one envelope, as it came through the serializer, at the
-- end of the record and of the queue, with the message id that the sender is handed back.
pub send_in_memory-outcome :
    (codec : Option SerializerInterface) (id : String) (env : Envelope) (t : InMemory)
    → SendOutcome codec id env t
unfolding send_in_memory
send_in_memory-outcome codec id env t = elim (Option-cases (last env delay_stamp)) [
  | inr (s, e) ↦ inl (s, e, ap (λ o. send_unless o codec id env t) e)
  | inl e ↦ elim (Result-cases (recorded_of codec env)) [
    | inr (x, f) ↦ inr (inl (x, f, refused e x f))
    | inl (r, f) ↦ inr (
        inr (
          r,
          (record_sent id env r t).0,
          (record_sent id env r t).1,
          e,
          f,
          accepted e r f,
          record_sent-IsSent id env r t,
        ))
  ]
]
  where
    refused :
        last env delay_stamp ≡ none
        → (x : Error) → recorded_of codec env ≡ raise x
        → send_in_memory codec id env t ≡ (raise x, t)
    refused e x f = ap (λ o. send_unless o codec id env t) e ∙ ap (λ o. send_recorded id env o t) f

    accepted :
        last env delay_stamp ≡ none
        → (r : Envelope) → recorded_of codec env ≡ ok r
        → send_in_memory codec id env t
          ≡ (ok (record_sent id env r t).0, (record_sent id env r t).1)
    accepted e r f = ap (λ o. send_unless o codec id env t) e ∙ ap (λ o. send_recorded id env o t) f
