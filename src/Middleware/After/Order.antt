-- ===== src/Middleware/After/Order.antt =====
-- What `DispatchAfterCurrentBusMiddleware` dispatches, and when.
-- A message that was held back, the chain that it went on with, and what came of it.
use python_xtr_messenger.Base.{
  Bool, Exec, List, Option, Result, [], ap, append-nil, append_assoc, false, inl, inr, length,
  nat_eq, none, ok, raise, refl, some, subst, suc, sym, true, zero, ℕ, ◌++◌, ◌∙◌, ◌∷◌, ◌≡◌, ◌≢◌,
  ◌⊎◌,
}
use python_xtr_messenger.Envelope.{Envelope, last}
use python_xtr_messenger.Errors.{
  Error, Errors, delayed_message_handling, failure, no_errors, raised, raised-add,
}
use python_xtr_messenger.Middleware.After.{
  Context, Held, after_current, after_drain, close_held, current_in, drain, drain_from,
  handle_after, handle_by, handle_current, is_later, keep_error, open_held, outgoing_of, report,
  set_waiting, waiting_of,
}
use python_xtr_messenger.Middleware.After.Waiting.{waiting_of-close_held}
use python_xtr_messenger.Stamps.{dispatch_after_current_bus_stamp}

pub record Dispatch : Type 0 where
  pub envelope : Envelope
  pub stack : ℕ
  pub outcome : Result Error Envelope

abbrev pub sent_out : List Dispatch → List (Envelope × ℕ)
sent_out [] = []
sent_out (d ∷ ds) = (d.envelope, d.stack) ∷ sent_out ds

-- The exceptions of those that failed, in order.
abbrev pub failures : List Dispatch → List Error
failures [] = []
failures (d ∷ ds) = elim d.outcome [ ok _ ↦ failures ds | raise e ↦ e ∷ failures ds ]

raised-keep_error :
    (r : Result Error Envelope) (es : Errors) (env : Envelope) (stack : ℕ) (ds : List Dispatch)
    → raised (keep_error r es) ++ failures ds
      ≡ raised es ++ failures (record { envelope = env; stack = stack; outcome = r } ∷ ds)
raised-keep_error (ok x) es env stack ds = refl
raised-keep_error (raise x) es env stack ds =
    ap (λ xs. xs ++ failures ds) (raised-add "" x es)
    ∙ append_assoc (raised es) (x ∷ []) (failures ds)

module _ {W : Type 0} (rest_of : ℕ → Envelope → Exec Error (Context W) Envelope) (h : ℕ) where
  -- The messages that wait, dispatched one after the other, the first first, until none is left.
  pub data Drains : Context W → List Dispatch → Context W → Type 0 where
    all_sent : {c : Context W} → waiting_of h c ≡ [] → Drains c [] c
    sends :
        {c c' c'' : Context W} {env : Envelope} {stack : ℕ} {more : List (Envelope × ℕ)}
        {r : Result Error Envelope} {ds : List Dispatch}
        → waiting_of h c ≡ (env, stack) ∷ more
        → rest_of stack env (set_waiting h more c) ≡ (r, c')
        → Drains c' ds c''
        → Drains c (record { envelope = env; stack = stack; outcome = r } ∷ ds) c''

  -- What the loop found, if it ended.
  abbrev pub Drained : Context W → Errors → Option (Errors × Context W) → Type 0
  Drained c es none = Unit
  Drained c es (some (es', c')) =
      (ds : List Dispatch) × Drains c ds c' × (raised es' ≡ raised es ++ failures ds)

  Drained-sends :
      (c c' : Context W) (es : Errors) (env : Envelope) (stack : ℕ) (more : List (Envelope × ℕ))
      (r : Result Error Envelope) (o : Option (Errors × Context W))
      → waiting_of h c ≡ (env, stack) ∷ more
      → rest_of stack env (set_waiting h more c) ≡ (r, c')
      → Drained c' (keep_error r es) o
      → Drained c es o
  Drained-sends c c' es env stack more r none w e d = tt
  Drained-sends c c' es env stack more r (some (es', c'')) w e (ds, d, f) = (
    record { envelope = env; stack = stack; outcome = r } ∷ ds,
    sends w e d,
    f ∙ raised-keep_error r es env stack ds,
  )

  drain-Drained :
      (fuel : ℕ) (es : Errors) (c : Context W) → Drained c es (drain rest_of fuel h es c)
  unfolding drain
  drain-Drained zero es c = tt
  drain-Drained (suc fuel) es c = go (drain-Drained fuel) (waiting_of h c) refl
    where
      go :
          ((es' : Errors) (c' : Context W) → Drained c' es' (drain rest_of fuel h es' c'))
          → (ws : List (Envelope × ℕ)) → waiting_of h c ≡ ws
          → Drained c es (drain_from rest_of (drain rest_of fuel h) h ws es c)
      go ih [] e = ([], all_sent e, sym (append-nil (raised es)))
      go ih ((env, stack) ∷ more) e =
          let o = rest_of stack env (set_waiting h more c) in
          Drained-sends c o.1 es env stack more o.0 (drain rest_of fuel h (keep_error o.0 es) o.1) e
            refl (ih (keep_error o.0 es) o.1)

-- What is reported of the messages held back.
abbrev pub Reports : Envelope → List Dispatch → Result Error Envelope → Type 0
Reports env ds o =
    ((failures ds ≡ []) × (o ≡ ok env))
    ⊎ ((es : Errors) × (o ≡ raise (delayed_message_handling env es))
        × (raised es ≡ failures ds)
        × (failures ds ≢ []))

report-Reports :
    (env : Envelope) (es : Errors) (ds : List Dispatch)
    → raised es ≡ failures ds
    → Reports env ds (report env es)
unfolding report raised
report-Reports env no_errors ds e = inl (sym e, refl)
report-Reports env (failure n x es) ds e = inr (failure n x es, refl, e, λ f. cc (e ∙ f))

module _ {W : Type 0} (rest_of : ℕ → Envelope → Exec Error (Context W) Envelope) where
  -- How the handling of a current message ends: with the context variable as it was, nothing left
  -- waiting, and one of two outcomes. `o` is what the rest of its chain did.
  abbrev pub CurrentEnds :
      ℕ
      → Option ℕ
      → Result Error Envelope × Context W
      → Option (Result Error Envelope × Context W)
      → Type 0
  CurrentEnds h before o none = Unit
  CurrentEnds h before o (some (r, c')) =
      (c'.held ≡ before)
      × (waiting_of h c' ≡ [])
      × (((e : Error) × (o.0 ≡ raise e) × (r ≡ raise e) × (c' ≡ close_held h before o.1))
          ⊎ ((env : Envelope) × (ds : List Dispatch) × (c : Context W) × (o.0 ≡ ok env)
              × Drains rest_of h o.1 ds c
              × (c' ≡ close_held h before c)
              × Reports env ds r))

  after_drain-CurrentEnds :
      (h : ℕ) (before : Option ℕ) (env : Envelope) (c : Context W) (d : Option (Errors × Context W))
      → Drained rest_of h c no_errors d
      → CurrentEnds h before (ok env, c) (after_drain rest_of h before env d)
  unfolding raised close_held
  after_drain-CurrentEnds h before env c none d = tt
  after_drain-CurrentEnds h before env c (some (es, c')) (ds, d, f) = (
    refl,
    waiting_of-close_held h before c',
    inr (env, ds, c', refl, d, refl, report-Reports env es ds f),
  )

  after_current-CurrentEnds :
      (fuel h : ℕ) (before : Option ℕ) (o : Result Error Envelope × Context W)
      → CurrentEnds h before o (after_current rest_of fuel h before o)
  unfolding close_held
  after_current-CurrentEnds fuel h before (raise e, c) =
      (refl, waiting_of-close_held h before c, inl (e, refl, refl, refl))
  after_current-CurrentEnds fuel h before (ok env, c) =
      after_drain-CurrentEnds h before env c (drain rest_of fuel h no_errors c)
        (drain-Drained rest_of h fuel no_errors c)

  handle_by-none :
      (fuel stack : ℕ) (later : Bool) (o : Option (ℕ × Held)) (env : Envelope) (c : Context W)
      → o ≡ none
      → handle_by rest_of fuel stack later o env c ≡ handle_current rest_of fuel stack env c
  handle_by-none fuel stack true o env c e = ap (λ x. handle_by rest_of fuel stack true x env c) e
  handle_by-none fuel stack false o env c e = ap (λ x. handle_by rest_of fuel stack false x env c) e

  handle_current-CurrentEnds :
      (fuel stack : ℕ) (env : Envelope) (c : Context W)
      → CurrentEnds
          (length c.heap)
          c.held
          (rest_of stack env (open_held c))
          (handle_current rest_of fuel stack env c)
  unfolding handle_current
  handle_current-CurrentEnds fuel stack env c =
      after_current-CurrentEnds fuel (length c.heap) c.held (rest_of stack env (open_held c))

  -- A message dispatched with none being handled is the current one, whether it is stamped or not:
  -- if the rest of its chain raised, that is raised, and what was held back is dropped unsent; if it
  -- returned, and the loop over what was held back ends, all of that was dispatched, the first
  -- first, each whatever the others raise, and the dispatch returns what the chain did, or raises
  -- all that they raised, in order. Either way the context variable is as it was, and nothing is
  -- left waiting.
  pub handle_after-CurrentEnds :
      (fuel stack : ℕ) (env : Envelope) (c : Context W)
      → current_in c.held c ≡ none
      → CurrentEnds
          (length c.heap)
          c.held
          (rest_of stack
            (outgoing_of (last env dispatch_after_current_bus_stamp) env)
            (open_held c))
          (handle_after rest_of fuel stack env c)
  unfolding handle_after
  handle_after-CurrentEnds fuel stack env c n =
      let stamp = last env dispatch_after_current_bus_stamp in
      subst
        (CurrentEnds (length c.heap) c.held (rest_of stack (outgoing_of stamp env) (open_held c)))
        (sym (
          handle_by-none fuel stack (is_later stamp) (current_in c.held c) (outgoing_of stamp env) c
            n))
        (handle_current-CurrentEnds fuel stack (outgoing_of stamp env) c)
