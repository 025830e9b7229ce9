-- ===== src/Taskiq/Alike.antt =====
-- A task of taskiq and the library's own worker deal with a message in one way.
use python_xtr_messenger.Base.{
  Bool, Dict, Result, String, [], ap, if_neg, if_pos, last?, none, ok, raise, refl, select, some,
  string_eq, subst, sym, ℕ_discrete, ℤ, ◌∙◌, ◌∷◌, ◌≟◌, ◌≡◌,
}
use python_xtr_messenger.Envelope.{Envelope, last, type_of_message, with_stamps}
use python_xtr_messenger.Envelope.Laws.{last-with_stamps}
use python_xtr_messenger.Errors.{Error}
use python_xtr_messenger.Registry.{name_of}
use python_xtr_messenger.Stamps.{
  StampType-discrete, is_subclass, isinstance, received, received_stamp, redelivery, type_of,
}
use python_xtr_messenger.Taskiq.{
  Delivery, Label, Runtime, attempt_from, checked, other_message, rebuild,
}
use python_xtr_messenger.Taskiq.Acknowledged.{throws}
use python_xtr_messenger.Taskiq.Task.{
  Binding, after_rebuild, conclude_task, rebuilt, receiver_name, reset_services, run_task,
  will_retry,
}
use python_xtr_messenger.Worker.{Worker, finally_do, named_envelope, settle, settle_outcome}
use python_xtr_messenger.Worker.Handling.{
  Outcome, after_finally, announce_failure, failed, handle, handled_outcome, receiver_name_of,
  skipped,
}

-- The worker that has what a binding has, and a receiver that needs not be told of a message.
abbrev pub worker_of : {S : Type 0} → Binding S → String → Worker S
worker_of b name = record {
  bus = b.bus;
  receiver = record {
    fetch = λ s. (ok none, s);
    close = λ s. (ok tt, s);
    ack = λ env s. (ok tt, s);
    reject = λ env s. (ok tt, s);
  };
  resetter = b.resetter;
  dispatcher = b.dispatcher;
  receiver_name = some name;
  render = b.render;
}

last_received :
    (decoded : Envelope) (name : String) (k : ℤ)
    → last (with_stamps decoded (received name ∷ redelivery k ∷ [])) received_stamp
      ≡ some (received name)
unfolding select isinstance is_subclass type_of last? StampType-discrete ℕ_discrete
last_received decoded name k =
    last-with_stamps decoded (received name ∷ redelivery k ∷ []) received_stamp

checked-named :
    (rt : Runtime) (labels : Dict String Label) (task_name name : String)
    (r : Result Error Envelope) (env : Envelope)
    → checked rt labels task_name name r ≡ ok env
    → last env received_stamp ≡ some (received name)
unfolding checked
checked-named rt labels task_name name (raise e) env h = cc h
checked-named rt labels task_name name (ok decoded) env h =
    let named =
      with_stamps decoded (received name ∷ redelivery (attempt_from rt.json labels) ∷ []) in
    let other : Result Error Envelope = raise (other_message task_name) in
    elim (name_of rt.classes rt.registry (type_of_message decoded.message) ≟ task_name) [
      | no p ↦ absurd (
          cc (
            sym (
              if_neg (name_of rt.classes rt.registry (type_of_message decoded.message) ≟ task_name)
                p (ok named) other)
            ∙ h))
      | yes p ↦
          let same : ok named ≡ ok env =
            sym (
              if_pos (name_of rt.classes rt.registry (type_of_message decoded.message) ≟ task_name)
                p (ok named) other)
            ∙ h in
          subst (λ x. last x received_stamp ≡ some (received name)) {x = named} {y = env} (cc same)
            (last_received decoded name (attempt_from rt.json labels))
    ]

after_finally-state :
    {S A : Type 0} (r : Result Error A) (o : Result Error Unit × S) → (after_finally r o).1 ≡ o.1
after_finally-state r (ok _, s) = refl
after_finally-state r (raise e, s) = refl

named_envelope-named :
    (name : String) (env : Envelope)
    → last env received_stamp ≡ some (received name)
    → named_envelope (some name) env ≡ env
unfolding named_envelope
named_envelope-named name env h =
    rw (h, named_envelope) (if_pos (name ≟ name) refl env (with_stamps env (received name ∷ [])))

module _ {S : Type 0} (rt : Runtime) (b : Binding S) where
  conclude_task-settle_outcome :
      (name : String) (o : Outcome × S)
      → b.max_attempts ≡ none
      → (conclude_task rt b name o).1 ≡ (settle_outcome (worker_of b name) name o).1
  unfolding conclude_task settle_outcome will_retry
  conclude_task-settle_outcome name (handled_outcome env, s) h = refl
  conclude_task-settle_outcome name (skipped env, s) h = refl
  conclude_task-settle_outcome name (failed env e, s) h =
      let announced = λ (retry : Bool).
        announce_failure b.dispatcher b.render (λ _ s'. (ok tt, s')) retry name env e s in
      (throws (announced (will_retry b.max_attempts env)) e).1
      ∙ ap (λ limit. (announced (will_retry limit env)).1) h

  -- Where the number of attempts is not known, a task that rebuilt its envelope leaves the process
  -- as the library's own worker would, whose receiver keeps no account: the bus, the listeners and
  -- the resetter are asked for the same things in the same order.
  pub run_task-settle :
      (task_name : String) (delivery : Delivery) (env : Envelope) (s : S)
      → b.max_attempts ≡ none
      → rebuilt rt b task_name delivery ≡ ok env
      → (run_task rt b task_name delivery s).1
        ≡ (settle (worker_of b (receiver_name b.receiver_names delivery.labels)) env s).1
  unfolding run_task after_rebuild settle rebuild receiver_name_of
  run_task-settle task_name delivery env s h made =
      let name = receiver_name b.receiver_names delivery.labels in
      let named =
        named_envelope-named name env
          (checked-named rt delivery.labels task_name name _ env made) in
      let w = worker_of b name in
      let here = conclude_task rt b name (handle b.bus b.dispatcher env name s) in
      let there = settle_outcome w name (handle b.bus b.dispatcher env name s) in
      ap (λ r. (finally_do (after_rebuild rt b delivery name r) (reset_services rt b) s).1) made
      ∙ after_finally-state here.0 (reset_services rt b here.1)
      ∙ ap (λ t. (reset_services rt b t).1)
          (conclude_task-settle_outcome name (handle b.bus b.dispatcher env name s) h)
      ∙ sym (after_finally-state there.0 (reset_services rt b there.1))
      ∙ sym (
          ap
            (λ x.
              (finally_do (λ t. settle_outcome w name (handle b.bus b.dispatcher x name t))
                (reset_services rt b) s).1)
            named)
