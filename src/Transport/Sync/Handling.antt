-- ===== src/Transport/Sync/Handling.antt =====
-- The sync transport under the routing middleware.
use python_xtr_messenger.Base.{
  Bool, Exec, List, String, [], ap, append-nil, last?, none, ok, raise, refl, select, some,
  string_eq, ◌∙◌, ◌∷◌, ◌≡◌,
}
use python_xtr_messenger.Envelope.{Envelope, last, with_stamps}
use python_xtr_messenger.Envelope.Laws.{last-with_stamps, with_stamps-append}
use python_xtr_messenger.Errors.{Error}
use python_xtr_messenger.Middleware.{run}
use python_xtr_messenger.Middleware.Send.{added_by, send_message}
use python_xtr_messenger.Middleware.Send.Added.{added_by-with_stamps}
use python_xtr_messenger.Middleware.Send.Outcome.{routed, send_message-routed, sendings}
use python_xtr_messenger.Stamps.{
  Stamp, StampType-discrete, delay_stamp, is_non_sendable, is_subclass, isinstance, received,
  received_stamp, sent, sent_stamp, stamp_eq, type_of,
}
use python_xtr_messenger.Transport.Sender.{Senders, done, yield}
use python_xtr_messenger.Transport.Sync.{sync_send, sync_transport}

sync_send-sent :
    {W : Type 0} (env : Envelope) (sender_class name : String) (w : W)
    → last env delay_stamp ≡ none
    → last env sent_stamp ≡ some (sent sender_class name)
    → sync_send env w ≡ (ok (with_stamps env (received name ∷ [])), w)
unfolding sync_send
sync_send-sent env sender_class name w d s = rw (d, s, sync_send) refl

module _ {W : Type 0} (locator : Senders W) (require_sender handle_unrouted : Bool)
    (rest : Envelope → Exec Error W Envelope) (env : Envelope) (alias : String) where
  -- The stamps that a dispatch through the sync transport leaves.
  abbrev pub sync_stamps : List Stamp
  sync_stamps = sent "SyncTransport" alias ∷ received alias ∷ []

  sendings-sync :
      (w : W)
      → last env delay_stamp ≡ none
      → sendings env (yield (alias, sync_transport) done) w
        ≡ (record { alias = alias; returned = with_stamps env sync_stamps } ∷ [], none, w)
  unfolding select isinstance last? is_subclass is_non_sendable type_of StampType-discrete
  sendings-sync w d =
      let stamped = with_stamps env (sent "SyncTransport" alias ∷ []) in
      ap
        (λ o. elim o.0 [
          | ok returned ↦ (record { alias = alias; returned = returned } ∷ [], none, o.1)
          | raise e ↦ ([], some e, o.1)
        ])
        (sync_send-sent stamped "SyncTransport" alias w
            (last-with_stamps env (sent "SyncTransport" alias ∷ []) delay_stamp ∙ d)
            (last-with_stamps env (sent "SyncTransport" alias ∷ []) sent_stamp)
          ∙ ap (λ x. (ok x, w))
              (with_stamps-append env (sent "SyncTransport" alias ∷ []) (received alias ∷ [])))

  -- A new message without a delay, routed to a sync transport alone, is handled at once: the rest of
  -- the chain has it, stamped as sent and as received under the transport's alias.
  pub send_message-sync :
      (w : W)
      → last env received_stamp ≡ none
      → last env delay_stamp ≡ none
      → locator.senders_for env ≡ yield (alias, sync_transport) done
      → run (send_message locator require_sender handle_unrouted env) rest w
        ≡ rest (with_stamps env sync_stamps) w
  unfolding select isinstance last? is_subclass is_non_sendable type_of StampType-discrete
  send_message-sync w n d l =
      send_message-routed locator require_sender handle_unrouted rest env w
      ∙ ap
          (λ o. elim o [
            | some _ ↦ rest env w
            | none ↦
                routed locator require_sender handle_unrouted rest env
                  (sendings env (locator.senders_for env) w)
          ])
          n
      ∙ ap (λ ys. routed locator require_sender handle_unrouted rest env (sendings env ys w)) l
      ∙ ap (routed locator require_sender handle_unrouted rest env) (sendings-sync w d)
      ∙ ap
          (λ a. elim (last (with_stamps env a) received_stamp) [
            | none ↦ (ok (with_stamps env a), w)
            | some _ ↦ rest (with_stamps env a) w
          ])
          (append-nil (added_by (with_stamps env sync_stamps) env)
            ∙ added_by-with_stamps env sync_stamps)
      ∙ ap
          (λ o. elim o [
            | none ↦ (ok (with_stamps env sync_stamps), w)
            | some _ ↦ rest (with_stamps env sync_stamps) w
          ])
          (last-with_stamps env sync_stamps received_stamp)
