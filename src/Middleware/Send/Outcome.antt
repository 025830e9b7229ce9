-- ===== src/Middleware/Send/Outcome.antt =====
-- What routing a message does, told by what each of its senders returned.
use python_xtr_messenger.Base.{
  Bool, Exec, List, Option, Option-cases, Result, String, [], append-nil, append_assoc, arith,
  false, if◌then◌else◌, inl, inr, none, ok, raise, refl, some, string_eq, subst, sym, true, ◌++◌,
  ◌||◌, ◌∙◌, ◌∷◌, ◌≡◌,
}
use python_xtr_messenger.Envelope.{Envelope, last, type_of_message, with_stamps}
use python_xtr_messenger.Errors.{Error, no_sender_for_message}
use python_xtr_messenger.Middleware.{and_then, delegate, perform, run}
use python_xtr_messenger.Middleware.Runs.{run-delegate, run-perform}
use python_xtr_messenger.Middleware.Send.{added_by, after_sending, send_all, send_message}
use python_xtr_messenger.Stamps.{Stamp, received_stamp, sent, stamp_eq}
use python_xtr_messenger.Transport.Sender.{Sender, Senders, Yields, done, fails, yield}

-- What one sender was handed, and what came back.
pub record Sending : Type 0 where
  pub alias : String
  pub returned : Envelope

module _ {W : Type 0} where
  -- The senders in turn, each handed the envelope with a `SentStamp` of its own, until one raises
  -- or none is left.
  abbrev pub sendings : Envelope → Yields (String × Sender W) → W → List Sending × Option Error × W
  sendings env done w = ([], none, w)
  sendings env (fails e) w = ([], some e, w)
  sendings env (yield (alias, sender) rest) w =
      let (r, w') = sender.send (with_stamps env (sent sender.class_name alias ∷ [])) w in
      elim r [
        | ok returned ↦
            let (more, error, w'') = sendings env rest w' in
            (record { alias = alias; returned = returned } ∷ more, error, w'')
        | raise e ↦ ([], some e, w')
      ]

-- What the senders added, in order.
abbrev pub added_in : Envelope → List Sending → List Stamp
added_in env [] = []
added_in env (s ∷ ss) = added_by s.returned env ++ added_in env ss

abbrev pub any_sent : List Sending → Bool
any_sent [] = false
any_sent (s ∷ ss) = true

or_true : (b : Bool) → (b || true) ≡ true
or_true true = refl
or_true false = refl

or_false : (b : Bool) → (b || false) ≡ b
or_false true = refl
or_false false = refl

module _ {W : Type 0} where
  abbrev result :
      Envelope
      → Bool
      → List Stamp
      → List Sending × Option Error × W
      → Result Error (Bool × List Stamp) × W
  result env was added (ss, none, w) = (ok (was || any_sent ss, added ++ added_in env ss), w)
  result env was added (ss, some e, w) = (raise e, w)

  shift :
      (env : Envelope) (was : Bool) (added : List Stamp) (s : Sending)
      (o : List Sending × Option Error × W)
      → result env true (added ++ added_by s.returned env) o
        ≡ result env was added (s ∷ o.0, o.1, o.2)
  shift env was added s (ss, none, w) =
      rw (or_true was, append_assoc added (added_by s.returned env) (added_in env ss))
  shift env was added s (ss, some e, w) = refl

  turn :
      (env : Envelope) (was : Bool) (added : List Stamp) (name : String)
      (rest : Yields (String × Sender W)) (o : Result Error Envelope × W)
      → ((was' : Bool) (added' : List Stamp) (w' : W)
          → send_all env rest was' added' w' ≡ result env was' added' (sendings env rest w'))
      → (elim o.0 [
        | ok returned ↦ send_all env rest true (added ++ added_by returned env) o.1
        | raise e ↦ (raise e, o.1)
      ])
        ≡ result env was added (elim o.0 [
          | ok returned ↦ (
            record { alias = name; returned = returned } ∷ (sendings env rest o.1).0,
            (sendings env rest o.1).1,
            (sendings env rest o.1).2,
          )
          | raise e ↦ ([], some e, o.1)
        ])
  turn env was added name rest (ok returned, w') ih =
      ih true (added ++ added_by returned env) w'
      ∙ shift env was added (record { alias = name; returned = returned }) (sendings env rest w')
  turn env was added name rest (raise e, w') ih = refl

  send_all-sendings :
      (env : Envelope) (ys : Yields (String × Sender W)) (was : Bool) (added : List Stamp) (w : W)
      → send_all env ys was added w ≡ result env was added (sendings env ys w)
  unfolding send_all
  send_all-sendings env done was added w = rw (or_false was, append-nil added)
  send_all-sendings env (fails e) was added w = refl
  send_all-sendings env (yield (alias, sender) rest) was added w =
      turn env was added alias rest
        (sender.send (with_stamps env (sent sender.class_name alias ∷ [])) w)
        (send_all-sendings env rest)

module _ {W : Type 0} (locator : Senders W) (require_sender handle_unrouted : Bool)
    (rest : Envelope → Exec Error W Envelope) where
  -- What a dispatch does after its sendings: a message that some sender took goes no further unless
  -- a sender handed it back as received, and one that none took is refused, handled here or left
  -- alone, as the bus is configured.
  abbrev pub routed : Envelope → List Sending × Option Error × W → Result Error Envelope × W
  routed env (ss, some e, w) = (raise e, w)
  routed env (s ∷ ss, none, w) =
      let stamped = with_stamps env (added_in env (s ∷ ss)) in
      elim (last stamped received_stamp) [ none ↦ (ok stamped, w) | some _ ↦ rest stamped w ]
  routed env ([], none, w) =
      if require_sender
      then (
        raise (no_sender_for_message (type_of_message env.message) locator.routed_type_names),
        w,
      )
      else if handle_unrouted
      then rest env w
      else (ok env, w)

  after_sending-routed :
      (env : Envelope) (o : List Sending × Option Error × W)
      → (elim (result env false [] o).0 [
        | ok sent_to ↦
            run
              (after_sending locator require_sender handle_unrouted env sent_to)
              rest
              (result env false [] o).1
        | raise e ↦ (raise e, (result env false [] o).1)
      ])
        ≡ routed env o
  unfolding after_sending run
  after_sending-routed env (ss, some e, w) = refl
  after_sending-routed env ([], none, w) = ground arith
  after_sending-routed env (s ∷ ss, none, w) = ground arith

  is_received :
      (env : Envelope) (s : Stamp)
      → last env received_stamp ≡ some s
      → send_message locator require_sender handle_unrouted env ≡ delegate env
  unfolding send_message
  is_received env s e = rw (e, send_message)

  is_new :
      (env : Envelope)
      → last env received_stamp ≡ none
      → send_message locator require_sender handle_unrouted env
        ≡ and_then
            (perform (send_all env (locator.senders_for env) false []))
            (after_sending locator require_sender handle_unrouted env)
  unfolding send_message
  is_new env e = rw (e, send_message)

  routes :
      (env : Envelope) (w : W)
      → run
          (and_then
            (perform (send_all env (locator.senders_for env) false []))
            (after_sending locator require_sender handle_unrouted env))
          rest
          w
        ≡ routed env (sendings env (locator.senders_for env) w)
  routes env w =
      run-perform rest (send_all env (locator.senders_for env) false [])
        (after_sending locator require_sender handle_unrouted env) w
      ∙ subst
          (λ o.
            (elim o.0 [
              | ok sent_to ↦
                  run (after_sending locator require_sender handle_unrouted env sent_to) rest o.1
              | raise e ↦ (raise e, o.1)
            ])
            ≡ routed env (sendings env (locator.senders_for env) w))
          (sym (send_all-sendings env (locator.senders_for env) false [] w))
          (after_sending-routed env (sendings env (locator.senders_for env) w))

  -- A message that came from a transport is not routed: no sender sees it, and the rest of the
  -- chain has it. Any other is handed to each of its senders in turn, with the envelope as it was
  -- before any of them and a stamp of that sender's own, until one raises; then the dispatch goes
  -- on by what was sent.
  pub send_message-routed :
      (env : Envelope) (w : W)
      → run (send_message locator require_sender handle_unrouted env) rest w
        ≡ (elim (last env received_stamp) [
          | some _ ↦ rest env w
          | none ↦ routed env (sendings env (locator.senders_for env) w)
        ])
  send_message-routed env w = elim (Option-cases (last env received_stamp)) [
    | inl e ↦ rw (is_new env e, e) (routes env w)
    | inr (s, e) ↦ rw (is_received env s e, e) (run-delegate rest env w)
  ]
