-- ===== src/Transport/Chained/Tickets.antt =====
-- The tickets of a `ChainedReceiver`, over any interleaving of arrivals, stops and settlements.
use python_xtr_messenger.Base.{
  All, List, Option, String, [], ap, arith, get, get-put, get-remove, if_neg, if_pos, last?,
  last?-snoc, nat_eq, none, or_else, refl, remove, select, select-append, some, string_eq, subst,
  sym, true, ℕ, ◌++◌, ◌<◌, ◌∙◌, ◌∷◌, ◌≟◌, ◌≡◌, ◌≢◌,
}
use python_xtr_messenger.Envelope.{Envelope, last, with_stamps}
use python_xtr_messenger.Envelope.Laws.{last-with_stamps}
use python_xtr_messenger.Stamps.{
  Stamp, StampType, ack_receipt, ack_receipt_stamp, isinstance, stamp_eq, stamp_type_eq,
}
use python_xtr_messenger.Transport.Chained.{
  Chained, abandon, forwarded, named_stamps, resume, resume_from, settle_on_origin, take_origin,
  take_ticket, ticket_number, ticketed,
}
use python_xtr_messenger.Worker.Settlement.{given}

pub data Event : Type 0 where
  arrival : ℕ → Envelope → Event
  resumed : Event
  abandoned : List (ℕ × Envelope) → Event
  settlement : Envelope → Event

abbrev pub happen : Option (List String) → Event → Chained → Chained
happen given (arrival position env) c = (ticketed given position env c).1
happen given resumed c = (resume given c).1
happen given (abandoned delivered) c = abandon delivered c
happen given (settlement env) c = (settle_on_origin env c).1

abbrev pub happen_all : Option (List String) → List Event → Chained → Chained
happen_all given [] c = c
happen_all given (event ∷ events) c = happen_all given events (happen given event c)

-- Ticket `n` has been given out, and `v` is what is known of it.
abbrev pub Stands : ℕ → Option (ℕ × Envelope) → Chained → Type 0
Stands n v c = (get n c.outstanding ≡ v) × (n < c.next_ticket)

-- The ticket that an envelope carries.
abbrev pub ticket_in : Envelope → Option ℕ
ticket_in env = ticket_number (last env ack_receipt_stamp)

-- An event that does not settle ticket `n`.
abbrev pub Spares : ℕ → Event → Type 0
Spares n (settlement env) = ticket_in env ≢ some n
Spares n _ = Unit {0}

-- An envelope's last stamp of a class is the last one added, if that is of the class.
last_added :
    (env : Envelope) (ss : List Stamp) (s : Stamp) (t : StampType)
    → isinstance s t ≡ true
    → last (with_stamps env (ss ++ s ∷ [])) t ≡ some s
unfolding select
last_added env ss s t h =
    last-with_stamps env (ss ++ s ∷ []) t
    ∙ ap (λ xs. or_else (last? xs) (last env t))
        (select-append (λ x. isinstance x t) ss (s ∷ []) ∙ rw h)
    ∙ ap (λ o. or_else o (last env t)) (last?-snoc (select (λ x. isinstance x t) ss) s)

forwarded_receipt :
    (env collected : Envelope) (s : Stamp)
    → isinstance s ack_receipt_stamp ≡ true
    → last collected ack_receipt_stamp ≡ some s
    → last (forwarded env collected) ack_receipt_stamp ≡ some s
unfolding forwarded
forwarded_receipt env collected s h e =
    ap
      (λ o.
        last (elim o [ none ↦ env | some receipt ↦ with_stamps env (receipt ∷ []) ])
          ack_receipt_stamp)
      e
    ∙ last_added env [] s ack_receipt_stamp h

module _ (given : Option (List String)) where
  ticketed-Stands :
      (n position : ℕ) (v : Option (ℕ × Envelope)) (env : Envelope) (c : Chained)
      → Stands n v c
      → Stands n v (ticketed given position env c).1
  unfolding ticketed
  ticketed-Stands n position v env c (h, l) = (
    get-put n c.next_ticket (position, env) c.outstanding
        ∙ if_neg (c.next_ticket ≟ n) (λ e. omega (arith, e, l)) _ _
        ∙ h,
    omega (arith, l),
  )

  resume_from-Stands :
      (n : ℕ) (v : Option (ℕ × Envelope)) (left : List (ℕ × Envelope)) (c : Chained)
      → Stands n v c
      → Stands n v (resume_from left given c).1
  resume_from-Stands n v [] c h = h
  resume_from-Stands n v ((position, env) ∷ rest) c h =
      ticketed-Stands n position v env (record c { leftovers = rest }) h

  remove-Stands :
      (n m : ℕ) (v : Option (ℕ × Envelope)) (c : Chained)
      → m ≢ n
      → Stands n v c
      → Stands n v (record c { outstanding = remove m c.outstanding })
  remove-Stands n m v c d (h, l) = (get-remove n m c.outstanding ∙ if_neg (m ≟ n) d _ _ ∙ h, l)

  take_ticket-Stands :
      (n : ℕ) (v : Option (ℕ × Envelope)) (o : Option ℕ) (c : Chained)
      → o ≢ some n
      → Stands n v c
      → Stands n v (take_ticket o c).1
  take_ticket-Stands n v none c d h = h
  take_ticket-Stands n v (some m) c d h = remove-Stands n m v c (λ e. d (ap some e)) h

  happen-Stands :
      (n : ℕ) (v : Option (ℕ × Envelope)) (event : Event) (c : Chained)
      → Spares n event
      → Stands n v c
      → Stands n v (happen given event c)
  unfolding resume abandon settle_on_origin take_origin
  happen-Stands n v (arrival position env) c s h = ticketed-Stands n position v env c h
  happen-Stands n v resumed c s h = resume_from-Stands n v c.leftovers c h
  happen-Stands n v (abandoned delivered) c s h = h
  happen-Stands n v (settlement env) c s h = take_ticket-Stands n v (ticket_in env) c s h

  happen_all-Stands :
      (n : ℕ) (v : Option (ℕ × Envelope)) (events : List Event) (c : Chained)
      → All (Spares n) events
      → Stands n v c
      → Stands n v (happen_all given events c)
  happen_all-Stands n v [] c s h = h
  happen_all-Stands n v (event ∷ events) c (s, ss) h =
      happen_all-Stands n v events (happen given event c) ss (happen-Stands n v event c s h)

  take_ticket-outcome :
      (n : ℕ) (v : Option (ℕ × Envelope)) (env : Envelope) (c : Chained)
      → ticket_in env ≡ some n
      → Stands n v c
      → ((take_origin env c).0 ≡ v) × Stands n none (take_origin env c).1
  unfolding take_origin
  take_ticket-outcome n v env c e (h, l) =
      subst (λ o. ((take_ticket o c).0 ≡ v) × Stands n none (take_ticket o c).1) (sym e)
        (h, (get-remove n n c.outstanding ∙ if_pos (n ≟ n) refl _ _, l))

  ticket_of :
      (position : ℕ) (env : Envelope) (c : Chained)
      → Stands c.next_ticket (some (position, env)) (ticketed given position env c).1
  unfolding ticketed
  ticket_of position env c = (
    get-put c.next_ticket c.next_ticket (position, env) c.outstanding
        ∙ if_pos (c.next_ticket ≟ c.next_ticket) refl _ _,
    omega arith,
  )

  -- A message that one of the receivers delivered, settled with its ticket after anything else that
  -- may happen, arrivals, stops, and the settlement of other messages in any order, is settled on
  -- the receiver that delivered it.
  pub settle_on_origin-ticketed :
      (position : ℕ) (collected env : Envelope) (events : List Event) (c : Chained)
      → All (Spares c.next_ticket) events
      → ticket_in env ≡ some c.next_ticket
      → (settle_on_origin env (happen_all given events (ticketed given position collected c).1)).0
        ≡ some (position, forwarded env collected)
  unfolding settle_on_origin
  settle_on_origin-ticketed position collected env events c s e =
      let c' = happen_all given events (ticketed given position collected c).1 in
      ap (λ o. elim o [ none ↦ none | some p ↦ some (p.0, forwarded env p.1) ])
        (take_ticket-outcome c.next_ticket (some (position, collected)) env c' e (
          happen_all-Stands c.next_ticket (some (position, collected)) events
            (ticketed given position collected c).1 s (ticket_of position collected c))).0

  -- A ticket that was settled stays settled, whatever happens next.
  take_ticket-gone :
      (n : ℕ) (o : Option ℕ) (c : Chained) → Stands n none c → Stands n none (take_ticket o c).1
  take_ticket-gone n none c h = h
  take_ticket-gone n (some m) c h = elim (m ≟ n) [
    | yes e ↦ (get-remove n m c.outstanding ∙ if_pos (m ≟ n) e _ _, h.1)
    | no d ↦ remove-Stands n m none c d h
  ]

  happen_all-gone :
      (n : ℕ) (events : List Event) (c : Chained)
      → Stands n none c
      → Stands n none (happen_all given events c)
  unfolding settle_on_origin take_origin
  happen_all-gone n [] c h = h
  happen_all-gone n (settlement env ∷ events) c h =
      happen_all-gone n events (settle_on_origin env c).1 (take_ticket-gone n (ticket_in env) c h)
  happen_all-gone n (arrival position env ∷ events) c h =
      happen_all-gone n events (ticketed given position env c).1
        (happen-Stands n none (arrival position env) c tt h)
  happen_all-gone n (resumed ∷ events) c h =
      happen_all-gone n events (resume given c).1 (happen-Stands n none resumed c tt h)
  happen_all-gone n (abandoned delivered ∷ events) c h =
      happen_all-gone n events (abandon delivered c)
        (happen-Stands n none (abandoned delivered) c tt h)

  -- A message is settled at most once: after a settlement with its ticket, and whatever happens
  -- next, another with that ticket tells no receiver anything.
  pub settle_on_origin-again :
      (n : ℕ) (env again : Envelope) (events : List Event) (c : Chained)
      → n < c.next_ticket
      → ticket_in env ≡ some n
      → ticket_in again ≡ some n
      → (settle_on_origin again (happen_all given (settlement env ∷ events) c)).0 ≡ none
  unfolding settle_on_origin
  settle_on_origin-again n env again events c l e f =
      let c' = (settle_on_origin env c).1 in
      let c'' = happen_all given events c' in
      ap (λ o. elim o [ none ↦ none | some p ↦ some (p.0, forwarded again p.1) ])
        (take_ticket-outcome n none again c'' f (
          happen_all-gone n events c'
            (take_ticket-outcome n (get n c.outstanding) env c e (refl, l)).1)).0

  -- A message is handed out with its ticket as the receipt that counts, and is given back to its
  -- origin with the origin's own receipt as the one that counts, if the origin gave one.
  pub receipt-ticketed :
      (position m : ℕ) (collected env : Envelope) (c : Chained)
      → last collected ack_receipt_stamp ≡ some (ack_receipt m)
      → (ticket_in (ticketed given position collected c).0 ≡ some c.next_ticket)
        × (last (forwarded env collected) ack_receipt_stamp ≡ some (ack_receipt m))
  unfolding ticketed ticket_number isinstance
  receipt-ticketed position m collected env c e = (
    ap ticket_number (
        last_added collected (named_stamps given position) (ack_receipt c.next_ticket)
          ack_receipt_stamp refl),
    forwarded_receipt env collected (ack_receipt m) refl e,
  )
