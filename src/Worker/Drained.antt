-- ===== src/Worker/Drained.antt =====
-- The loop of `Worker.run`: nothing that it collects is left unsettled, and it ends.
use python_xtr_messenger.Base.{
  Bool, Option, Result, String, ap, arith, false, if◌then◌else◌, length, length-append, nat_eq,
  none, ok, raise, refl, some, string_eq, subst, suc, sym, true, zero, ℕ, ◌+◌, ◌>>◌, ◌∙◌, ◌≡◌,
}
use python_xtr_messenger.Envelope.{Envelope}
use python_xtr_messenger.Errors.{Error}
use python_xtr_messenger.Worker.{
  Process, StopFlags, Worker, after_fetch, after_loop, after_settling, after_started, announce,
  begin, is_set, next_unless_stopped, receive, run_worker, settle, stop, wind_up,
}
use python_xtr_messenger.Worker.Events.{WorkerEvent, running, started, stopped_event}
use python_xtr_messenger.Worker.Handling.{after_finally, handle}
use python_xtr_messenger.Worker.Settlement.{
  HasCause, Journal, after_finally_view, given, length-told, settle-IsSettled, told,
}

module _ {W : Type 0} (w : Worker (Process W)) (j : Journal w) where
  -- Of what the receiver gave out, it was told what to do with all.
  abbrev pub Balanced : Process W → Type 0
  Balanced p = length (j.view p).0 ≡ (j.view p).1

  abbrev pub Ends : Option (Result Error Unit × Process W) → Type 0
  Ends none = Unit
  Ends (some (r, p)) = Balanced p

  Balanced-of : (p q : Process W) → j.view p ≡ j.view q → Balanced q → Balanced p
  Balanced-of p q e b = subst (λ v. length v.0 ≡ v.1) (sym e) b

  and_announced_view :
      (o : Result Error Unit × Process W) (event : WorkerEvent)
      → j.view (((λ _. o) >> announce w event) o.1).1 ≡ j.view o.1
  and_announced_view (ok _, p) event = j.announce_view event p
  and_announced_view (raise e, p) event = refl

module _ {W : Type 0} (w : Worker (Process W)) (j : Journal w)
    (causes : (env : Envelope) (name : String) (p : Process W)
      → HasCause (handle w.bus w.dispatcher env name p).0)
    (flags_view : (p : Process W) (f : StopFlags)
      → j.view (record p { flags = f }) ≡ j.view p) where
  after_settling-Ends :
      (rest : Process W → Option (Result Error Unit × Process W))
      → ((p : Process W) → Balanced w j p → Ends w j (rest p))
      → (o : Result Error Unit × Process W) → Balanced w j o.1
      → Ends w j (after_settling w rest o)
  after_settling-Ends rest h (ok _, p) b = h p b
  after_settling-Ends rest h (raise e, p) b = b

  settled_length :
      (env : Envelope) (p : Process W)
      → (j.view p).1 ≡ suc (length (j.view p).0)
      → Balanced w j ((settle w env >> announce w running) p).1
  settled_length env p b =
      Balanced-of w j ((settle w env >> announce w running) p).1 (settle w env p).1
        (and_announced_view w j (settle w env p) running)
        (subst (λ v. length v.0 ≡ v.1) (sym (settle-IsSettled w j env p))
          (length-append (j.view p).0 (told w _ _)
            ∙ ap (λ n. length (j.view p).0 + n) (length-told w _ _ (causes _ _ p))
            ∙ omega (arith, b)))

  after_fetch-Ends :
      (rest : Process W → Option (Result Error Unit × Process W))
      → ((p : Process W) → Balanced w j p → Ends w j (rest p))
      → (o : Result Error (Option Envelope) × Process W)
      → (j.view o.1).1 ≡ length (j.view o.1).0 + given o.0
      → Ends w j (after_fetch w rest o)
  after_fetch-Ends rest h (raise e, p) b = omega arith
  after_fetch-Ends rest h (ok none, p) b = omega arith
  after_fetch-Ends rest h (ok (some env), p) b =
      after_settling-Ends rest h ((settle w env >> announce w running) p)
        (settled_length env p (omega arith))

  next_view :
      (p : Process W)
      → j.view (next_unless_stopped w p).1
        ≡ ((j.view p).0, (j.view p).1 + given (next_unless_stopped w p).0)
  unfolding next_unless_stopped
  next_view p = go (is_set p.flags)
    where
      go :
          (b : Bool)
          → j.view (if b then (ok none, p) else w.receiver.fetch p).1 ≡ (
            (j.view p).0,
            (j.view p).1 + given (if b then (ok none, p) else w.receiver.fetch p).0,
          )
      go true = ap (λ n. ((j.view p).0, n)) (omega arith)
      go false = j.fetch_view p

  receive-Ends : (fuel : ℕ) (p : Process W) → Balanced w j p → Ends w j (receive w fuel p)
  unfolding receive
  receive-Ends zero p b = tt
  receive-Ends (suc fuel) p b =
      after_fetch-Ends (receive w fuel) (receive-Ends fuel) (next_unless_stopped w p) (
        subst (λ v. v.1 ≡ length v.0 + given (next_unless_stopped w p).0) (sym (next_view p))
          (ap (λ n. n + given (next_unless_stopped w p).0) (sym b)))

  wind_up_view : (p : Process W) → j.view (wind_up w p).1 ≡ j.view p
  wind_up_view p =
      let q = record p { flags = record p.flags { stopped = none } } in
      and_announced_view w j (w.receiver.close q) stopped_event
      ∙ j.close_view q
      ∙ flags_view p (record p.flags { stopped = none })

  after_loop-Ends :
      (o : Option (Result Error Unit × Process W)) → Ends w j o → Ends w j (after_loop w o)
  after_loop-Ends none h = tt
  after_loop-Ends (some (r, p)) h =
      Balanced-of w j (after_finally r (wind_up w p)).1 p
        (after_finally_view w j r (wind_up w p) ∙ wind_up_view p) h

  after_started-Ends :
      (fuel : ℕ) (o : Result Error Unit × Process W)
      → Balanced w j o.1
      → Ends w j (after_started w fuel o)
  after_started-Ends fuel (raise e, p) b = b
  after_started-Ends fuel (ok _, p) b = after_loop-Ends (receive w fuel p) (receive-Ends fuel p b)

  -- However a worker's run ends, by the end of its stream, by a stop, or by what a receiver, a
  -- listener or the resetter raised, its receiver was told what to do with as many messages as it
  -- gave out, if that was so when the run began, and if no message is handled with an error that
  -- says that handlers failed and carries none of their errors.
  pub run_worker-Balanced :
      (fuel : ℕ) (p p' : Process W) (r : Result Error Unit)
      → Balanced w j p
      → run_worker w fuel p ≡ some (r, p')
      → Balanced w j p'
  unfolding run_worker
  run_worker-Balanced fuel p p' r b e =
      let q = record p { flags = begin p.flags } in
      subst (Ends w j) e (
        after_started-Ends fuel (announce w started q) (
          Balanced-of w j (announce w started q).1 p
            (j.announce_view started q ∙ flags_view p (begin p.flags)) b))

-- A worker without listeners that is stopped before it runs collects nothing: its run closes the
-- stream and returns, and the next run will collect again.
pub run_worker-stop :
    {W : Type 0} (w : Worker (Process W)) (fuel : ℕ) (app : W) (requested : Bool)
    → run_worker
        (record w { dispatcher = none })
        (suc fuel)
        (record { app = app; flags = stop (record { stopped = none; stop_requested = requested }) })
      ≡ some (
          after_finally (ok tt) (
            wind_up
              (record w { dispatcher = none })
              (record {
                app = app;
                flags = record { stopped = some true; stop_requested = false };
              })))
unfolding run_worker stop begin receive next_unless_stopped is_set
run_worker-stop w fuel app requested = refl
