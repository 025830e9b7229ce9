-- ===== src/Envelope.antt =====
-- src/xtr_messenger/envelope.py and message/redispatch_message.py.
pub mod Laws
use python_xtr_messenger.Base.{
  Eq, List, Option, String, [], false, ite, last?, length, nat_eq, not, select, string_eq, true, ℕ,
  ℕ_discrete, ◌++◌, ◌∷◌, ◌≟◌,
}
use python_xtr_messenger.Stamps.{Stamp, StampType, Value, isinstance, stamp_eq, stamp_type_eq}

-- A message class. An application's classes are told apart by a number.
pub data MessageType : Type 0 where
  redispatch_message : MessageType
  object : MessageType
  declared : ℕ → MessageType

unfoldable pub MessageType-discrete : Discrete MessageType
MessageType-discrete = hlevel ℕ_discrete

instance abbrev pub message_type_eq : Eq MessageType
message_type_eq = record { dec_eq = MessageType-discrete }

-- A message is an application's object or a `RedispatchMessage`, which carries an envelope or a
-- bare message, and transport names.
mutual
  pub data Message : Type 0 where
    plain : ℕ → Value → Message
    redispatch : Subject → List String → Message

  pub data Subject : Type 0 where
    bare : Message → Subject
    enveloped : Message → List Stamp → Subject

-- `type(message)`
unfoldable pub type_of_message : Message → MessageType
type_of_message (plain c v) = declared c
type_of_message (redispatch s names) = redispatch_message

pub record Envelope : Type 0 where
  pub message : Message
  pub stamps : List Stamp

unfoldable pub with_stamps : Envelope → List Stamp → Envelope
with_stamps e [] = e
with_stamps e (s ∷ ss) = record e { stamps = e.stamps ++ s ∷ ss }

unfoldable pub wrap : Subject → List Stamp → Envelope
unfolding with_stamps
wrap (bare m) extra = record { message = m; stamps = extra }
wrap (enveloped m ss) extra = with_stamps (record { message = m; stamps = ss }) extra

unfoldable pub without_stamps : Envelope → StampType → Envelope
without_stamps e t =
    let kept = select (λ s. not (isinstance s t)) e.stamps in
    ite (ℕ_discrete (length kept) (length e.stamps)) e (record e { stamps = kept })

unfoldable pub all : Envelope → StampType → List Stamp
all e t = select (λ s. isinstance s t) e.stamps

unfoldable pub last : Envelope → StampType → Option Stamp
unfolding all
last e t = last? (all e t)

-- `RedispatchMessage(envelope, transport_names)`; a single name is a list of one
unfoldable pub new_redispatch : Subject → List String → Message
new_redispatch s names = redispatch s (select (λ name. ite (name ≟ "") false true) names)

-- `RedispatchMessage.message`
unfoldable pub carried : Subject → Message
carried (bare m) = m
carried (enveloped m ss) = m
