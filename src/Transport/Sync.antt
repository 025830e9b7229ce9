-- ===== src/Transport/Sync.antt =====
-- src/xtr_messenger/transport/sync/sync_transport.py.
pub mod Handling
pub mod Factory
use python_xtr_messenger.Base.{
  Exec, List, Option, String, [], none, ok, raise, some, string_eq, ◌∷◌,
}
use python_xtr_messenger.Envelope.{Envelope, last, with_stamps}
use python_xtr_messenger.Errors.{Error, class_name, unsupported_stamp}
use python_xtr_messenger.Stamps.{Stamp, delay_stamp, received, sent, sent_stamp, stamp_eq}
use python_xtr_messenger.Transport.Sender.{Sender}

abbrev sender_alias : Option Stamp → String
sender_alias (some (sent class_name name)) = name
sender_alias _ = "sync"

-- `SyncTransport.send`
unfoldable pub sync_send : {W : Type 0} → Envelope → Exec Error W Envelope
sync_send env w = elim (last env delay_stamp) [
  | some _ ↦ (raise (unsupported_stamp "DelayStamp" "sync"), w)
  | none ↦ (ok (with_stamps env (received (sender_alias (last env sent_stamp)) ∷ [])), w)
]

abbrev pub sync_transport : {W : Type 0} → Sender W
sync_transport = record { class_name = "SyncTransport"; send = sync_send }

-- What `SyncTransport.get` yields.
abbrev pub sync_get : List Envelope
sync_get = []

-- `SyncTransport.ack`, and `reject` alike
abbrev pub sync_settle : {W : Type 0} → Envelope → Exec Error W Unit
sync_settle env w = (ok tt, w)
