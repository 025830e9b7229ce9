-- ===== src/Transport/InMemory/Queue.antt =====
-- An in-memory transport as a queue: what its callers are told, over any sequence of operations.
use python_xtr_messenger.Base.{
  Bool, Bool-cases, List, Option, Result, String, [], ap, arith, contains, false, if◌then◌else◌,
  inl, inr, ite, nat_eq, none, ok, raise, refl, some, string_eq, subst, suc, sym, true, ℕ, ◌++◌,
  ◌∷◌, ◌≟◌, ◌≡◌,
}
use python_xtr_messenger.Envelope.{Envelope, all, last, with_stamps}
use python_xtr_messenger.Errors.{Error, unsupported_stamp}
use python_xtr_messenger.Stamps.{
  Stamp, ack_receipt, delay_stamp, received, stamp_eq, transport_message_id,
  transport_message_id_stamp,
}
use python_xtr_messenger.Transport.InMemory.{
  InMemory, ack_in_memory, clear, get_from, get_in_memory, record_sent, recorded_of,
  reject_in_memory, send_in_memory, send_recorded, send_unless,
}
use python_xtr_messenger.Transport.Serialization.{SerializerInterface}

-- A call on the transport; `collect_next` asks the receiver of a number, which is one call of `get`, for its
-- next envelope.
pub data QueueCall : Type 0 where
  post : String → Envelope → QueueCall
  collect_next : ℕ → QueueCall
  call_ack call_reject : Envelope → QueueCall
  empty_all : QueueCall

-- What a call tells its caller.
pub data Answer : Type 0 where
  told_sender : Result Error Envelope → Answer
  collected : Option Envelope → Answer
  settled : Answer

-- The promise: a list of envelopes, to which those that are accepted are added at the end, and from
-- which those that are collected are taken at the front; who collected, in order; and the receivers
-- that found nothing left, which are over.
pub record Fifo : Type 0 where
  pub waiting : List Envelope
  pub collectors : List ℕ
  pub over : List ℕ

-- the envelope that a send adds, or why it is refused
abbrev pub acceptance : Option SerializerInterface → Option Stamp → Envelope → Result Error Envelope
acceptance codec (some delayed) env = raise (unsupported_stamp "DelayStamp" "in-memory")
acceptance codec none env = recorded_of codec env

abbrev pub accept : String → Envelope → Result Error Envelope → Fifo → Answer × Fifo
accept id env (raise e) q = (told_sender (raise e), q)
accept id env (ok recorded) q =
    let stamped = with_stamps recorded (transport_message_id id ∷ []) in
    (
      told_sender (ok (with_stamps env (all stamped transport_message_id_stamp))),
      record q { waiting = q.waiting ++ stamped ∷ [] },
    )

-- how many of the collections were a receiver's
abbrev pub times : ℕ → List ℕ → ℕ
times k [] = 0
times k (j ∷ js) = ite (j ≟ k) (suc (times k js)) (times k js)

-- as it is handed to a receiver: with the name of the transport, and its number among those that
-- this receiver collected
abbrev pub delivered : ℕ → List ℕ → Envelope → Envelope
delivered k collectors env =
    with_stamps env (received "in-memory" ∷ ack_receipt (suc (times k collectors)) ∷ [])

abbrev pub take_front : ℕ → List Envelope → Fifo → Answer × Fifo
take_front k [] q = (collected none, record q { over = k ∷ q.over })
take_front k (env ∷ es) q = (
  collected (some (delivered k q.collectors env)),
  record q { waiting = es; collectors = k ∷ q.collectors },
)

abbrev pub take_unless : Bool → ℕ → Fifo → Answer × Fifo
take_unless true k q = (collected none, q)
take_unless false k q = take_front k q.waiting q

abbrev pub fifo_step : Option SerializerInterface → QueueCall → Fifo → Answer × Fifo
fifo_step codec (post id env) q = accept id env (acceptance codec (last env delay_stamp) env) q
fifo_step codec (collect_next k) q = take_unless (contains q.over k) k q
fifo_step codec empty_all q = (settled, record q { waiting = [] })
fifo_step codec (call_ack env) q = (settled, q)
fifo_step codec (call_reject env) q = (settled, q)

abbrev pub fifo_answers : Option SerializerInterface → List QueueCall → Fifo → List Answer
fifo_answers codec [] q = []
fifo_answers codec (o ∷ os) q =
    let (answer, q') = fifo_step codec o q in answer ∷ fifo_answers codec os q'

-- The transport, with the `receipt` of each of its receivers, or none of one that is over.
pub record Serving : Type 0 where
  pub transport : InMemory
  pub receipt : ℕ → Option ℕ

abbrev pub set_receipt : ℕ → Option ℕ → (ℕ → Option ℕ) → ℕ → Option ℕ
set_receipt k o receipt j = ite (k ≟ j) o (receipt j)

abbrev pub served : (Answer × InMemory) → (ℕ → Option ℕ) → Answer × Serving
served (answer, t) receipt = (answer, record { transport = t; receipt = receipt })

abbrev pub resumed : ℕ → (ℕ → Option ℕ) → Option Envelope × ℕ × InMemory → Answer × Serving
resumed k receipt (none, n, t) =
    (collected none, record { transport = t; receipt = set_receipt k none receipt })
resumed k receipt (some env, n, t) =
    (collected (some env), record { transport = t; receipt = set_receipt k (some n) receipt })

abbrev pub resumed_if : Option ℕ → ℕ → Serving → Answer × Serving
resumed_if none k v = (collected none, v)
resumed_if (some n) k v = resumed k v.receipt (get_in_memory n v.transport)

abbrev pub answer_to : Option SerializerInterface → QueueCall → Serving → Answer × Serving
answer_to codec (post id env) v =
    let (r, t) = send_in_memory codec id env v.transport in served (told_sender r, t) v.receipt
answer_to codec (collect_next k) v = resumed_if (v.receipt k) k v
answer_to codec empty_all v = served (settled, clear v.transport) v.receipt
answer_to codec (call_ack env) v = served (settled, ack_in_memory env v.transport) v.receipt
answer_to codec (call_reject env) v = served (settled, reject_in_memory env v.transport) v.receipt

abbrev pub answers : Option SerializerInterface → List QueueCall → Serving → List Answer
answers codec [] v = []
answers codec (o ∷ os) v = let (answer, v') = answer_to codec o v in answer ∷ answers codec os v'

-- The transport's queue is the promised list, and each receiver that is not over has counted what it
-- collected.
pub record Stands (q : Fifo) (v : Serving) : Type 0 where
  pub queued : q.waiting ≡ v.transport.queue
  pub counted :
      (k : ℕ) → v.receipt k ≡ (if contains q.over k then none else some (times k q.collectors))

-- The answers are the same, and what is promised stands.
abbrev Meets : Answer × Fifo → Answer × Serving → Type 0
Meets (a, q) (b, v) = (a ≡ b) × Stands q v

module _ (codec : Option SerializerInterface) where
  Meets-accept :
      (id : String) (env : Envelope) (r : Result Error Envelope) (q : Fifo) (v : Serving)
      → Stands q v
      → Meets (accept id env r q) (
          served
            (
              told_sender (send_recorded id env r v.transport).0,
              (send_recorded id env r v.transport).1,
            )
            v.receipt)
  unfolding record_sent
  Meets-accept id env (raise e) q v s = (refl, s)
  Meets-accept id env (ok recorded) q v s = (
    refl,
    record {
      queued = ap (λ es. es ++ with_stamps recorded (transport_message_id id ∷ []) ∷ []) s.queued;
      counted = s.counted;
    },
  )

  Meets-send :
      (id : String) (env : Envelope) (o : Option Stamp) (q : Fifo) (v : Serving)
      → Stands q v
      → Meets (accept id env (acceptance codec o env) q) (
          served
            (
              told_sender (send_unless o codec id env v.transport).0,
              (send_unless o codec id env v.transport).1,
            )
            v.receipt)
  Meets-send id env (some delayed) q v s = (refl, s)
  Meets-send id env none q v s = Meets-accept id env (recorded_of codec env) q v s

  Meets-take :
      (k : ℕ) (es : List Envelope) (q : Fifo) (v : Serving)
      → Stands q v
      → contains q.over k ≡ false
      → v.transport.queue ≡ es
      → Meets
          (take_front k es q)
          (resumed k v.receipt (get_from es (times k q.collectors) v.transport))
  unfolding contains
  Meets-take k [] q v s e h =
      (refl, record { queued = s.queued; counted = λ j. grind (arith, s.counted j) })
  Meets-take k (env ∷ es) q v s e h =
      (refl, record { queued = refl; counted = λ j. ground (arith, s.counted j) })

  Meets-collect_next :
      (k : ℕ) (q : Fifo) (v : Serving)
      → Stands q v
      → Meets (take_unless (contains q.over k) k q) (resumed_if (v.receipt k) k v)
  unfolding get_in_memory
  Meets-collect_next k q v s = elim (Bool-cases (contains q.over k)) [
    | inl e ↦ rw (e, s.counted k, e) (refl, s)
    | inr e ↦
        rw (e, s.counted k, e)
          (subst
            (λ es.
              Meets (take_front k q.waiting q)
                (resumed k v.receipt (get_from es (times k q.collectors) v.transport)))
            s.queued (Meets-take k q.waiting q v s e (sym s.queued)))
  ]

  Meets-step :
      (o : QueueCall) (q : Fifo) (v : Serving)
      → Stands q v
      → Meets (fifo_step codec o q) (answer_to codec o v)
  unfolding send_in_memory get_in_memory clear ack_in_memory reject_in_memory
  Meets-step (post id env) q v s = Meets-send id env (last env delay_stamp) q v s
  Meets-step (collect_next k) q v s = Meets-collect_next k q v s
  Meets-step empty_all q v s = (refl, record { queued = refl; counted = s.counted })
  Meets-step (call_ack env) q v s = (refl, s)
  Meets-step (call_reject env) q v s = (refl, record { queued = s.queued; counted = s.counted })

  answers_from :
      (os : List QueueCall) (q : Fifo) (v : Serving)
      → Stands q v
      → answers codec os v ≡ fifo_answers codec os q
  answers_from [] q v s = refl
  answers_from (o ∷ os) q v s =
      let (same_answer, stands) = Meets-step o q v s in
      rw (sym same_answer) (
        ap (◌∷◌ (fifo_step codec o q).0)
          (answers_from os (fifo_step codec o q).1 (answer_to codec o v).1 stands))

  -- An in-memory transport is a queue: over any sequence of sends, collections by any receivers,
  -- settlements and clears, callers are told what a list tells them to whose end each accepted
  -- envelope goes and from whose front each collected one comes, with a receipt that counts what its
  -- receiver has collected so far; a receiver that found nothing left collects nothing any more.
  pub answers_refine :
      (os : List QueueCall) (t : InMemory)
      → answers codec os (record { transport = t; receipt = λ k. some 0 })
        ≡ fifo_answers codec os (record { waiting = t.queue; collectors = []; over = [] })
  unfolding contains
  answers_refine os t =
      answers_from os (record { waiting = t.queue; collectors = []; over = [] })
        (record { transport = t; receipt = λ k. some 0 })
        (record { queued = refl; counted = λ k. refl })
