-- ===== src/Transport/Chained.antt =====
-- src/xtr_messenger/transport/receiver/chained_receiver.py. A receiver is told by its position, and
-- what arrives from which is an argument: the order is the event loop's.
pub mod Tickets
use python_xtr_messenger.Base.{
  Dict, List, Option, Result, String, [], get, get_elem?, ite, length, nat_eq, none, ok, put, raise,
  remove, some, string_eq, suc, ℕ, ℕ_discrete, ◌++◌, ◌∷◌,
}
use python_xtr_messenger.Envelope.{Envelope, last, with_stamps}
use python_xtr_messenger.Errors.{Error, value_error}
use python_xtr_messenger.Middleware.Send.Added.{count}
use python_xtr_messenger.Stamps.{Stamp, ack_receipt, ack_receipt_stamp, received, stamp_eq}
use python_xtr_messenger.Worker.Settlement.{given}

-- A `ChainedReceiver`, apart from its receivers and names.
pub record Chained : Type 0 where
  pub outstanding : Dict ℕ (ℕ × Envelope)
  pub next_ticket : ℕ
  pub leftovers : List (ℕ × Envelope)

-- `__init__`, given how many receivers there are
unfoldable pub new_chained : ℕ → Option (List String) → Result Error Chained
new_chained count none = ok (record { outstanding = []; next_ticket = 1; leftovers = [] })
new_chained count (some given) =
    ite (ℕ_discrete (length given) count)
      (ok (record { outstanding = []; next_ticket = 1; leftovers = [] }))
      (raise (value_error "ChainedReceiver needs one name per receiver"))

-- `named`; each position has a name, if there are names
unfoldable pub named_stamps : Option (List String) → ℕ → List Stamp
named_stamps none position = []
named_stamps (some given) position = elim (get_elem? given position) [
  | some name ↦ received name ∷ []
  | none ↦ []
]

-- `_ticketed`
unfoldable pub ticketed : Option (List String) → ℕ → Envelope → Chained → Envelope × Chained
unfolding named_stamps with_stamps put
ticketed given position env c = (
  with_stamps env (named_stamps given position ++ ack_receipt c.next_ticket ∷ []),
  record c {
    outstanding = put c.next_ticket (position, env) c.outstanding;
    next_ticket = suc c.next_ticket;
  },
)

-- `ticket.receipt`, if there is a ticket
unfoldable pub ticket_number : Option Stamp → Option ℕ
ticket_number (some (ack_receipt n)) = some n
ticket_number _ = none

-- `self._outstanding.pop(ticket.receipt, None)`, if there is a ticket
abbrev pub take_ticket : Option ℕ → Chained → Option (ℕ × Envelope) × Chained
take_ticket none c = (none, c)
take_ticket (some n) c = (get n c.outstanding, record c { outstanding = remove n c.outstanding })

-- `_take`
unfoldable pub take_origin : Envelope → Chained → Option (ℕ × Envelope) × Chained
unfolding last get remove ticket_number
take_origin env = take_ticket (ticket_number (last env ack_receipt_stamp))

-- The envelope that the origin is handed: with its own receipt last, if it gave one.
unfoldable pub forwarded : Envelope → Envelope → Envelope
unfolding with_stamps
forwarded env collected = elim (last collected ack_receipt_stamp) [
  | none ↦ env
  | some receipt ↦ with_stamps env (receipt ∷ [])
]

-- `ack`, and `reject`: the receiver that is told, if any, and what it is handed
unfoldable pub settle_on_origin : Envelope → Chained → Option (ℕ × Envelope) × Chained
unfolding take_origin forwarded
settle_on_origin env c =
    let (origin, c') = take_origin env c in
    (
      elim origin [
        | none ↦ none
        | some (position, collected) ↦ some (position, forwarded env collected)
      ],
      c',
    )

-- `_abandon`, given what the cancelled waits delivered
unfoldable pub abandon : List (ℕ × Envelope) → Chained → Chained
abandon delivered c = record c { leftovers = c.leftovers ++ delivered }

-- the loop over the leftovers at the start of `get`, once around
abbrev pub resume_from :
    List (ℕ × Envelope) → Option (List String) → Chained → Option Envelope × Chained
resume_from [] given c = (none, c)
resume_from ((position, env) ∷ rest) given c =
    let (out, c') = ticketed given position env (record c { leftovers = rest }) in (some out, c')

unfoldable pub resume : Option (List String) → Chained → Option Envelope × Chained
unfolding ticketed
resume given c = resume_from c.leftovers given c
