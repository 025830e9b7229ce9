-- ===== src/Worker/Settlement.antt =====
-- `Worker._settle` and the loop of `Worker.run`: what becomes of a collected message.
-- What a receiver was told.
use python_xtr_messenger.Base.{
  Bool, List, Option, Result, String, [], ap, append-nil, false, length, sym, if◌then◌else◌, nat_eq,
  ok, raise, refl, some, string_eq, true, ℕ, ◌++◌, ◌+◌, ◌∙◌, ◌∷◌, ◌≡◌,
}
use python_xtr_messenger.Envelope.{Envelope, with_stamps}
use python_xtr_messenger.Errors.{Error, class_name}
use python_xtr_messenger.Stamps.{error_details}
use python_xtr_messenger.Worker.{Worker, announce, named_envelope, reset, settle, settle_outcome}
use python_xtr_messenger.Worker.Events.{
  MessageEvent, WorkerEvent, failed_event, handled_event, new_event, received_event,
}
use python_xtr_messenger.Worker.Handling.{
  Outcome, after_dispatch, after_finally, after_handled, after_received, announce_and_settle,
  announce_failure, cause_of, failed, handle, handled_outcome, receiver_name_of, skipped, tell,
}

pub data Entry : Type 0 where
  acked rejected : Envelope → Entry

abbrev pub given : Result Error (Option Envelope) → ℕ
given (ok (some env)) = 1
given _ = 0

-- An observation of the process: what its receiver was told, in order, and how many messages it
-- gave out. Only the receiver's own operations change it.
pub record Journal {S : Type 0} (w : Worker S) : Type 0 where
  pub view : S → List Entry × ℕ
  pub fetch_view :
      (s : S)
      → view (w.receiver.fetch s).1 ≡ ((view s).0, (view s).1 + given (w.receiver.fetch s).0)
  pub ack_view :
      (env : Envelope) (s : S)
      → view (w.receiver.ack env s).1 ≡ ((view s).0 ++ acked env ∷ [], (view s).1)
  pub reject_view :
      (env : Envelope) (s : S)
      → view (w.receiver.reject env s).1 ≡ ((view s).0 ++ rejected env ∷ [], (view s).1)
  pub close_view : (s : S) → view (w.receiver.close s).1 ≡ view s
  pub bus_view : (env : Envelope) (s : S) → view (w.bus env s).1 ≡ view s
  pub tell_view : (event : MessageEvent) (s : S) → view (tell w.dispatcher event s).2 ≡ view s
  pub announce_view : (event : WorkerEvent) (s : S) → view (announce w event s).1 ≡ view s
  pub reset_view : (s : S) → view (reset w s).1 ≡ view s

-- An error that says that handlers failed says which did.
abbrev pub HasCause : Outcome → Type 0
HasCause (failed env e) = (cause : Error) × (cause_of e ≡ ok cause)
HasCause _ = Unit {0}

module _ {S : Type 0} (w : Worker S) where
  -- What the listeners of a failure leave of the envelope, which says what went wrong.
  abbrev pub failed_envelope : String → Envelope → Error → Error → S → Envelope
  failed_envelope name env e cause s =
      let details = error_details (class_name cause) (w.render cause) in
      (tell w.dispatcher (new_event (failed_event e) (with_stamps env (details ∷ [])) name)
        s).1.envelope

  -- What the receiver is to be told of a failure, by its cause.
  abbrev pub told_of : String → Envelope → Error → S → Result Error Error → List Entry
  told_of name env e s (ok cause) = rejected (failed_envelope name env e cause s) ∷ []
  told_of name env e s (raise x) = []

  -- What the receiver is to be told of an outcome.
  abbrev pub told : String → Outcome × S → List Entry
  told name (handled_outcome env, s) = acked env ∷ []
  told name (skipped env, s) = acked env ∷ []
  told name (failed env e, s) = told_of name env e s (cause_of e)

  -- Where the cause is known, that is one thing.
  pub length-told : (name : String) (o : Outcome × S) → HasCause o.0 → length (told name o) ≡ 1
  length-told name (handled_outcome env, s) h = refl
  length-told name (skipped env, s) h = refl
  length-told name (failed env e, s) (cause, h) = ap (λ r. length (told_of name env e s r)) h

module _ {S : Type 0} (w : Worker S) (j : Journal w) where
  pub after_finally_view :
      {A : Type 0} (r : Result Error A) (o : Result Error Unit × S)
      → j.view (after_finally r o).1 ≡ j.view o.1
  after_finally_view r (ok _, s) = refl
  after_finally_view r (raise e, s) = refl

  announce_and_settle_view :
      (o : Result Error Unit × MessageEvent × S)
      → j.view (announce_and_settle w.receiver.reject o).1
        ≡ ((j.view o.2).0 ++ rejected o.1.envelope ∷ [], (j.view o.2).1)
  announce_and_settle_view (r, event, s) =
      after_finally_view r (w.receiver.reject event.envelope s) ∙ j.reject_view event.envelope s

  announce_failure_step :
      (name : String) (env : Envelope) (e cause : Error) (s : S)
      → cause_of e ≡ ok cause
      → announce_failure w.dispatcher w.render w.receiver.reject false name env e s
        ≡ announce_and_settle w.receiver.reject (
            tell w.dispatcher
              (new_event
                (failed_event e)
                (with_stamps env (error_details (class_name cause) (w.render cause) ∷ []))
                name)
              s)
  unfolding announce_failure
  announce_failure_step name env e cause s h = rw (h, announce_failure)

  -- a failure whose cause is not known is not announced, and its message not settled
  failed_told :
      (name : String) (env : Envelope) (e : Error) (s : S)
      → j.view (announce_failure w.dispatcher w.render w.receiver.reject false name env e s).1
        ≡ ((j.view s).0 ++ told w name (failed env e, s), (j.view s).1)
  unfolding announce_failure
  failed_told name env e s = go (cause_of e) refl
    where
      go :
          (r : Result Error Error)
          → cause_of e ≡ r
          → j.view (announce_failure w.dispatcher w.render w.receiver.reject false name env e s).1
            ≡ ((j.view s).0 ++ told_of w name env e s r, (j.view s).1)
      go (raise x) h =
          rw (h, announce_failure) (ap (λ es. (es, (j.view s).1)) (sym (append-nil (j.view s).0)))
      go (ok cause) h =
          let details = error_details (class_name cause) (w.render cause) ∷ [] in
          let event = new_event (failed_event e) (with_stamps env details) name in
          ap (λ o. j.view o.1) (announce_failure_step name env e cause s h)
          ∙ announce_and_settle_view (tell w.dispatcher event s)
          ∙ ap (λ v. (v.0 ++ rejected (failed_envelope w name env e cause s) ∷ [], v.1))
              (j.tell_view event s)

  settle_outcome_view :
      (name : String) (o : Outcome × S)
      → j.view (settle_outcome w name o).1 ≡ ((j.view o.1).0 ++ told w name o, (j.view o.1).1)
  unfolding settle_outcome
  settle_outcome_view name (handled_outcome env, s) = j.ack_view env s
  settle_outcome_view name (skipped env, s) = j.ack_view env s
  settle_outcome_view name (failed env e, s) = failed_told name env e s

  after_handled_view :
      (env : Envelope) (o : Result Error Unit × MessageEvent × S)
      → j.view (after_handled env o).1 ≡ j.view o.2
  after_handled_view env (ok _, event, s) = refl
  after_handled_view env (raise e, event, s) = refl

  after_dispatch_view :
      (name : String) (env : Envelope) (o : Result Error Envelope × S)
      → j.view (after_dispatch w.dispatcher name env o).1 ≡ j.view o.1
  after_dispatch_view name env (raise e, s) = refl
  after_dispatch_view name env (ok returned, s) =
      after_handled_view returned (tell w.dispatcher (new_event handled_event returned name) s)
      ∙ j.tell_view (new_event handled_event returned name) s

  after_received_view :
      (name : String) (env : Envelope) (o : Result Error Unit × MessageEvent × S)
      → j.view (after_received w.bus w.dispatcher name env o).1 ≡ j.view o.2
  after_received_view name env (raise e, event, s) = refl
  after_received_view name env (ok _, event, s) = go event.will_handle
    where
      go :
          (b : Bool)
          → j.view
              (if b
                then after_dispatch w.dispatcher name event.envelope (w.bus event.envelope s)
                else (skipped event.envelope, s)).1
            ≡ j.view s
      go true =
          after_dispatch_view name event.envelope (w.bus event.envelope s)
          ∙ j.bus_view event.envelope s
      go false = refl

  handle_view :
      (env : Envelope) (name : String) (s : S)
      → j.view (handle w.bus w.dispatcher env name s).1 ≡ j.view s
  unfolding handle
  handle_view env name s =
      after_received_view name env (tell w.dispatcher (new_event received_event env name) s)
      ∙ j.tell_view (new_event received_event env name) s

  -- A collected message is settled exactly once, whatever the bus, the listeners, the receiver and
  -- the resetter raise: acknowledged as handling left it if it was handled or skipped, else
  -- rejected as the listeners of the failure left it. Only one that failed with an error that says
  -- that handlers failed, and carries none of their errors, is not settled at all.
  pub settle-IsSettled :
      (env : Envelope) (s : S)
      → j.view (settle w env s).1 ≡ (
        (j.view s).0
            ++ told w (receiver_name_of env w.receiver_name) (
                handle w.bus w.dispatcher
                  (named_envelope w.receiver_name env)
                  (receiver_name_of env w.receiver_name)
                  s),
        (j.view s).1,
      )
  unfolding settle
  settle-IsSettled env s =
      let name = receiver_name_of env w.receiver_name in
      let o = handle w.bus w.dispatcher (named_envelope w.receiver_name env) name s in
      after_finally_view (settle_outcome w name o).0 (reset w (settle_outcome w name o).1)
      ∙ j.reset_view (settle_outcome w name o).1
      ∙ settle_outcome_view name o
      ∙ ap (λ v. (v.0 ++ told w name o, v.1))
          (handle_view (named_envelope w.receiver_name env) name s)
