-- ===== src/Taskiq/Acknowledged.antt =====
-- When a task returns normally, and when it raises.
use python_xtr_messenger.Base.{
  Bool, Exec, Option, Result, String, ap, false, if◌then◌else◌, none, ok, raise, refl, some,
  string_eq, throw, true, ◌>>◌, ◌↔◌, ◌∙◌, ◌≡◌, ◌≢◌,
}
use python_xtr_messenger.Envelope.{Envelope}
use python_xtr_messenger.Errors.{Error}
use python_xtr_messenger.Taskiq.{Delivery, Runtime}
use python_xtr_messenger.Taskiq.Task.{
  Binding, after_rebuild, conclude_task, is_decoding_failure, quarantine, rebuilt, receiver_name,
  reset_services, run_task, task_body, will_retry,
}
use python_xtr_messenger.Worker.Handling.{
  Outcome, after_finally, announce_failure, failed, handle, handled_outcome, skipped,
}

abbrev pub WentWell : Outcome → Type 0
WentWell (failed env e) = ⊥
WentWell _ = Unit

after_finally-ok :
    {S : Type 0} (r : Result Error Unit) (o : Result Error Unit × S)
    → ((after_finally r o).0 ≡ ok tt) ↔ ((r ≡ ok tt) × (o.0 ≡ ok tt))
after_finally-ok r (ok tt, s) = (λ h. (h, refl), λ h. h.0)
after_finally-ok r (raise e, s) = (λ h. cc h, λ h. absurd (cc h.1))

-- Whatever is done before an exception is raised, an exception is raised, in the state that was left.
pub throws :
    {S : Type 0} (o : Result Error Unit × S) (e : Error)
    → ((◌>>◌ {S = S} (λ _. o) (throw {A = Unit} e) o.1).0 ≢ ok tt)
      × ((◌>>◌ {S = S} (λ _. o) (throw {A = Unit} e) o.1).1 ≡ o.1)
throws (ok tt, s) e = (λ h. cc h, refl)
throws (raise x, s) e = (λ h. cc h, refl)

module _ {S : Type 0} (rt : Runtime) (b : Binding S) where
  -- A quarantine that there is holds the delivery.
  abbrev pub Quarantined :
      Delivery → Error → S → Option (Delivery → Error → Exec Error S Unit) → Type 0
  Quarantined delivery e s o =
      (dead_letter : Delivery → Error → Exec Error S Unit) × (o ≡ some dead_letter)
      × ((dead_letter delivery e s).0 ≡ ok tt)

  -- A delivery was rebuilt, and then handled or skipped; or it was not, and then quarantined.
  abbrev pub Dealt : Delivery → String → Result Error Envelope → S → Type 0
  Dealt delivery name (ok env) s = WentWell (handle b.bus b.dispatcher env name s).0
  Dealt delivery name (raise e) s =
      (is_decoding_failure e ≡ true)
      × ((dead_letter : Delivery → Error → Exec Error S Unit) × (b.dead_letter ≡ some dead_letter)
          × ((dead_letter delivery e s).0 ≡ ok tt))

  conclude_task-ok :
      (name : String) (o : Outcome × S) → ((conclude_task rt b name o).0 ≡ ok tt) ↔ WentWell o.0
  unfolding conclude_task
  conclude_task-ok name (handled_outcome env, s) = (λ _. tt, λ _. refl)
  conclude_task-ok name (skipped env, s) = (λ _. tt, λ _. refl)
  conclude_task-ok name (failed env e, s) = (
    (throws
        (announce_failure b.dispatcher b.render (λ _ s'. (ok tt, s'))
          (will_retry b.max_attempts env) name env e s)
        e).0,
    λ h. absurd h,
  )

  abbrev pub buried_in :
      Delivery → Error → S → Option (Delivery → Error → Exec Error S Unit) → Result Error Unit × S
  buried_in delivery e s o = elim o [
    | none ↦ (raise e, s)
    | some dead_letter ↦ dead_letter delivery e s
  ]

  buried_in-ok :
      (delivery : Delivery) (e : Error) (s : S) (o : Option (Delivery → Error → Exec Error S Unit))
      → ((buried_in delivery e s o).0 ≡ ok tt) ↔ Quarantined delivery e s o
  buried_in-ok delivery e s none = (λ h. cc h, λ h. absurd (cc (h.1)))
  buried_in-ok delivery e s (some dead) = (
    λ h. (dead, refl, h),
    λ h. let (other, same, well) = h in ap (λ q. (buried_in delivery e s q).0) same ∙ well,
  )

  undecoded-ok :
      (delivery : Delivery) (e : Error) (s : S) (undecodable : Bool)
      → ((if undecodable then quarantine rt b delivery e s else (raise e, s)).0 ≡ ok tt)
        ↔ ((undecodable ≡ true) × Quarantined delivery e s b.dead_letter)
  unfolding quarantine
  undecoded-ok delivery e s true =
      let (there, back) = buried_in-ok delivery e s b.dead_letter in
      (λ h. (refl, there h), λ h. back h.1)
  undecoded-ok delivery e s false = (λ h. cc h, λ h. absurd (cc (h.0)))

  after_rebuild-ok :
      (delivery : Delivery) (name : String) (r : Result Error Envelope) (s : S)
      → ((after_rebuild rt b delivery name r s).0 ≡ ok tt) ↔ Dealt delivery name r s
  unfolding after_rebuild
  after_rebuild-ok delivery name (ok env) s =
      conclude_task-ok name (handle b.bus b.dispatcher env name s)
  after_rebuild-ok delivery name (raise e) s = undecoded-ok delivery e s (is_decoding_failure e)

  -- A task returns normally exactly when its delivery was rebuilt and its message handled or skipped, or quarantined as one that cannot be decoded, and
  -- the resetter, if there is one, returned after that; in all other cases it raises.
  pub run_task-ok :
      (task_name : String) (delivery : Delivery) (s : S)
      → ((run_task rt b task_name delivery s).0 ≡ ok tt) ↔ (
          Dealt delivery
            (receiver_name b.receiver_names delivery.labels)
            (rebuilt rt b task_name delivery)
            s
          × ((reset_services rt b (task_body rt b task_name delivery s).1).0 ≡ ok tt))
  unfolding run_task
  run_task-ok task_name delivery s =
      let name = receiver_name b.receiver_names delivery.labels in
      let body = task_body rt b task_name delivery s in
      let (dealt, performed) = after_rebuild-ok delivery name (rebuilt rt b task_name delivery) s in
      let (both, back) = after_finally-ok body.0 (reset_services rt b body.1) in
      (λ h. (dealt (both h).0, (both h).1), λ h. back (performed h.0, h.1))
