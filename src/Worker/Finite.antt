-- ===== src/Worker/Finite.antt =====
-- `Worker.run` over a receiver that runs dry, such as one over the in-memory transport.
use python_xtr_messenger.Base.{
  Bool, Option, Result, arith, false, if◌then◌else◌, nat_eq, none, ok, raise, refl, some, suc, true,
  zero, ℕ, ◌+◌, ◌<◌, ◌>>◌, ◌≡◌, ◌≤◌,
}
use python_xtr_messenger.Envelope.{Envelope}
use python_xtr_messenger.Errors.{Error}
use python_xtr_messenger.Worker.{
  Process, Worker, after_fetch, after_loop, after_settling, after_started, announce, begin, is_set,
  next_unless_stopped, receive, run_worker, settle, wind_up,
}
use python_xtr_messenger.Worker.Events.{running, started}
use python_xtr_messenger.Worker.Handling.{after_finally}
use python_xtr_messenger.Worker.Settlement.{given}

abbrev pub Returns {ℓ} : {A : Type ℓ} → Option A → Type ℓ
Returns {A} o = (a : A) × (o ≡ some a)

-- A measure of what is left to collect, which each collected message makes smaller and nothing
-- makes larger.
pub record Drains {W : Type 0} (w : Worker (Process W)) : Type 0 where
  pub pending : Process W → ℕ
  pub pending-fetch :
      (p : Process W) → pending (w.receiver.fetch p).1 + given (w.receiver.fetch p).0 ≤ pending p
  pub pending-settle :
      (env : Envelope) (p : Process W)
      → pending ((settle w env >> announce w running) p).1 ≤ pending p
  pub pending-announce :
      (p : Process W)
      → pending (announce w started (record p { flags = begin p.flags })).1 ≤ pending p

module _ {W : Type 0} (w : Worker (Process W)) (d : Drains w) where
  after_settling-Returns :
      (fuel : ℕ) (o : Result Error Unit × Process W)
      → ((p : Process W) → d.pending p < fuel → Returns (receive w fuel p))
      → d.pending o.1 < fuel
      → Returns (after_settling w (receive w fuel) o)
  after_settling-Returns fuel (raise e, p) h l = ((raise e, p), refl)
  after_settling-Returns fuel (ok _, p) h l = h p l

  after_fetch-Returns :
      (fuel : ℕ) (o : Result Error (Option Envelope) × Process W)
      → ((p : Process W) → d.pending p < fuel → Returns (receive w fuel p))
      → d.pending o.1 + given o.0 < suc fuel
      → Returns (after_fetch w (receive w fuel) o)
  after_fetch-Returns fuel (raise e, p) h l = ((raise e, p), refl)
  after_fetch-Returns fuel (ok none, p) h l = ((ok tt, p), refl)
  after_fetch-Returns fuel (ok (some env), p) h l =
      after_settling-Returns fuel ((settle w env >> announce w running) p) h
        (omega (arith, d.pending-settle env p, l))

  next_pending :
      (p : Process W)
      → d.pending (next_unless_stopped w p).1 + given (next_unless_stopped w p).0 ≤ d.pending p
  unfolding next_unless_stopped
  next_pending p = go (is_set p.flags)
    where
      go :
          (b : Bool)
          → d.pending (if b then (ok none, p) else w.receiver.fetch p).1
              + given (if b then (ok none, p) else w.receiver.fetch p).0
            ≤ d.pending p
      go true = omega arith
      go false = d.pending-fetch p

  receive-Returns : (fuel : ℕ) (p : Process W) → d.pending p < fuel → Returns (receive w fuel p)
  unfolding receive
  receive-Returns zero p l = absurd (omega (arith, l))
  receive-Returns (suc fuel) p l =
      after_fetch-Returns fuel (next_unless_stopped w p) (receive-Returns fuel)
        (omega (arith, next_pending p, l))

  after_loop-Returns :
      (o : Option (Result Error Unit × Process W)) → Returns o → Returns (after_loop w o)
  after_loop-Returns none (a, e) = absurd (cc e)
  after_loop-Returns (some (r, p)) h = (after_finally r (wind_up w p), refl)

  after_started-Returns :
      (fuel : ℕ) (o : Result Error Unit × Process W)
      → d.pending o.1 < fuel
      → Returns (after_started w fuel o)
  after_started-Returns fuel (raise e, p) l = ((raise e, p), refl)
  after_started-Returns fuel (ok _, p) l =
      after_loop-Returns (receive w fuel p) (receive-Returns fuel p l)

  -- A worker whose receiver runs dry returns, or raises, after at most one round for each message
  -- that was left.
  pub run_worker-Returns :
      (fuel : ℕ) (p : Process W) → d.pending p < fuel → Returns (run_worker w fuel p)
  unfolding run_worker
  run_worker-Returns fuel p l =
      after_started-Returns fuel (announce w started (record p { flags = begin p.flags }))
        (omega (arith, d.pending-announce p, l))
