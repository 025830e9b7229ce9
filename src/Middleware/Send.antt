-- ===== src/Middleware/Send.antt =====
-- src/xtr_messenger/middleware/send_message_middleware.py.
pub mod Added
pub mod Outcome
use python_xtr_messenger.Base.{
  Bool, Exec, List, String, [], contains, drop, false, if◌then◌else◌, ite, length, none, ok, raise,
  some, string_eq, true, ◌++◌, ◌∷◌, ◌≟◌,
}
use python_xtr_messenger.Envelope.{Envelope, last, type_of_message, with_stamps}
use python_xtr_messenger.Errors.{Error, class_name, no_sender_for_message}
use python_xtr_messenger.Middleware.{Middleware, Prog, and_then, delegate, perform, ret}
use python_xtr_messenger.Stamps.{Stamp, Stamp-discrete, received_stamp, sent, stamp_eq}
use python_xtr_messenger.Transport.Routes.{routed_type_names, senders_for}
use python_xtr_messenger.Transport.Sender.{Sender, Senders, Yields, done, fails, yield}

-- `xs[:len(ys)] == ys`
unfoldable pub starts_with_stamps : List Stamp → List Stamp → Bool
unfolding Stamp-discrete
starts_with_stamps xs [] = true
starts_with_stamps [] (y ∷ ys) = false
starts_with_stamps (x ∷ xs) (y ∷ ys) = let rest = starts_with_stamps xs ys in ite (x ≟ y) rest false

-- `xs.remove(s)`
unfoldable pub remove_stamp : Stamp → List Stamp → List Stamp
unfolding Stamp-discrete
remove_stamp s [] = []
remove_stamp s (x ∷ xs) = ite (x ≟ s) xs (x ∷ remove_stamp s xs)

-- the loop of `_added_by`
unfoldable pub unmatched_of : List Stamp → List Stamp → List Stamp
unfolding contains remove_stamp Stamp-discrete
unmatched_of unmatched [] = []
unmatched_of unmatched (s ∷ ss) =
    let known = unmatched_of (remove_stamp s unmatched) ss in
    let new = unmatched_of unmatched ss in if contains unmatched s then known else s ∷ new

-- `_added_by`
unfoldable pub added_by : Envelope → Envelope → List Stamp
unfolding starts_with_stamps unmatched_of drop
added_by returned before =
    if starts_with_stamps returned.stamps before.stamps
    then drop (length before.stamps) returned.stamps
    else unmatched_of before.stamps returned.stamps

module _ {W : Type 0} where
  -- the loop over the senders: whether one was sent to, and what they added
  unfoldable pub send_all :
      Envelope → Yields (String × Sender W) → Bool → List Stamp → Exec Error W (Bool × List Stamp)
  unfolding added_by
  send_all env done was_sent added w = (ok (was_sent, added), w)
  send_all env (fails e) was_sent added w = (raise e, w)
  send_all env (yield (alias, sender) rest) was_sent added w =
      let (r, w') = sender.send (with_stamps env (sent sender.class_name alias ∷ [])) w in
      elim r [
        | ok returned ↦ send_all env rest true (added ++ added_by returned env) w'
        | raise e ↦ (raise e, w')
      ]

  -- what follows the loop
  unfoldable pub after_sending :
      Senders W → Bool → Bool → Envelope → Bool × List Stamp → Prog W Envelope
  after_sending locator require_sender handle_unrouted env (true, added) =
      elim (last (with_stamps env added) received_stamp) [
        | none ↦ ret (ok (with_stamps env added))
        | some _ ↦ delegate (with_stamps env added)
      ]
  after_sending locator require_sender handle_unrouted env (false, added) =
      if require_sender
      then ret
          (raise (no_sender_for_message (type_of_message env.message) locator.routed_type_names))
      else if handle_unrouted
      then delegate env
      else ret (ok env)

  -- `handle`
  unfoldable pub send_message : Senders W → Bool → Bool → Middleware W
  unfolding after_sending
  send_message locator require_sender handle_unrouted env = elim (last env received_stamp) [
    | some _ ↦ delegate env
    | none ↦
        and_then (perform (send_all env (locator.senders_for env) false []))
          (after_sending locator require_sender handle_unrouted env)
  ]
