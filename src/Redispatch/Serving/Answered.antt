-- ===== src/Redispatch/Serving/Answered.antt =====
-- A redispatch is always handled.
use python_xtr_messenger.Base.{
  Bool, Exec, List, [], ap, if◌then◌else◌, inl, inr, refl, sym, true, ◌∙◌, ◌∷◌, ◌≡◌, ◌≢◌, ◌⊎◌,
}
use python_xtr_messenger.Classes.{Classes, issubclass}
use python_xtr_messenger.Envelope.{
  Envelope, MessageType, message_type_eq, redispatch_message, type_of_message,
}
use python_xtr_messenger.Errors.{Error}
use python_xtr_messenger.Handlers.{HandlerDescriptor, handlers_for}
use python_xtr_messenger.Middleware.{run}
use python_xtr_messenger.Middleware.Handle.{handle_message}
use python_xtr_messenger.Middleware.Handle.Trace.{Concludes, handle_message-outcome}
use python_xtr_messenger.Redispatch.Serving.{
  RedispatchingHandlers, found_or, redispatching_for, redispatching_locator,
}

module _ {W : Type 0} (k : Classes) (r : RedispatchingHandlers W) where
  -- The application's own handlers, if there are any, and else the one supplied, alone.
  abbrev pub Chosen : MessageType → List (HandlerDescriptor W) → Type 0
  Chosen t ds =
      ((handlers_for k r.inner t ≡ []) × (ds ≡ r.descriptor ∷ []))
      ⊎ ((handlers_for k r.inner t ≢ []) × (ds ≡ handlers_for k r.inner t))

  found_or-Chosen :
      (t : MessageType) (found : List (HandlerDescriptor W))
      → issubclass k t redispatch_message ≡ true
      → handlers_for k r.inner t ≡ found
      → Chosen t (found_or k r.descriptor t found)
  found_or-Chosen t (x ∷ xs) h e = inr ((λ n. cc (sym e ∙ n)), sym e)
  found_or-Chosen t [] h e = inl (e, ap (λ b. if b then r.descriptor ∷ [] else []) h)

  Chosen-ne : (t : MessageType) (ds : List (HandlerDescriptor W)) → Chosen t ds → ds ≢ []
  Chosen-ne t ds (inl (_, e)) n = cc (sym e ∙ n)
  Chosen-ne t ds (inr (some_own, e)) n = some_own (sym e ∙ n)

  -- A worker's bus handles every redispatch message, by the handlers that the application's own
  -- locator has for it, and if it has none by the one supplied, alone: it never refuses one for lack
  -- of a handler, even if it requires one.
  pub handle_message-redispatching :
      (require_handler : Bool) (env : Envelope) (rest : Envelope → Exec Error W Envelope) (w : W)
      → issubclass k (type_of_message env.message) redispatch_message ≡ true
      → (ds : List (HandlerDescriptor W)) × Chosen (type_of_message env.message) ds
        × Concludes rest ds env w
            (run (handle_message k (redispatching_locator k r) require_handler env) rest w)
  unfolding redispatching_for
  handle_message-redispatching require_handler env rest w h =
      let t = type_of_message env.message in
      let chosen = found_or-Chosen t (handlers_for k r.inner t) h refl in
      (
        redispatching_for k r t,
        chosen,
        elim (handle_message-outcome k (redispatching_locator k r) require_handler env rest w) [
          | inl (concludes, _) ↦ concludes
          | inr (empty, _, _) ↦ absurd (Chosen-ne t (redispatching_for k r t) chosen empty)
        ],
      )
