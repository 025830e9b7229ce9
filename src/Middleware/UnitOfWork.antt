-- ===== src/Middleware/UnitOfWork.antt =====
-- src/xtr_messenger/middleware/unit_of_work_middleware.py: a unit of work around the rest of the
-- chain.
use python_xtr_messenger.Base.{
  Bool, Exec, Option, Result, false, nat_eq, none, ok, raise, refl, some, suc, true, ℕ, ◌∙◌, ◌≡◌,
}
use python_xtr_messenger.Envelope.{Envelope, last}
use python_xtr_messenger.Errors.{Error}
use python_xtr_messenger.Middleware.{Middleware, and_then, next, perform, ret, run}
use python_xtr_messenger.Stamps.{received_stamp}
use python_xtr_messenger.Worker.Handling.{after_finally}

-- `ScopeFactoryInterface.unit_of_work`, of another package: the unit that `join` asks for is
-- entered, and left with the exception that ends its block, if one does. Leaving suppresses none.
pub record Scopes (W : Type 0) : Type 0 where
  pub enter : Bool → Exec Error W Unit
  pub leave : Option Error → Exec Error W Unit

-- `envelope.last(ReceivedStamp) is None`
unfoldable pub joins : Envelope → Bool
unfolding last
joins env = elim (last env received_stamp) [ none ↦ true | some s ↦ false ]

module _ {W : Type 0} (scopes : Scopes W) where
  -- the end of the `async with`
  abbrev pub leave_with : Result Error Envelope → Exec Error W Envelope
  leave_with (ok result) w = after_finally (ok result) (scopes.leave none w)
  leave_with (raise e) w = after_finally (raise e) (scopes.leave (some e) w)

  -- `handle`
  unfoldable pub in_unit_of_work : Middleware W
  unfolding joins
  in_unit_of_work env =
      and_then (perform (scopes.enter (joins env))) (λ _. next env (λ r. perform (leave_with r)))

  -- An observation of the process: how many units are open. What the rest of the chain does leaves
  -- as many open as there were.
  pub record Depth : Type 0 where
    pub depth : W → ℕ
    pub deeper :
        (join : Bool) (w : W)
        → (scopes.enter join w).0 ≡ ok tt
        → depth (scopes.enter join w).1 ≡ suc (depth w)
    pub failed_to_enter :
        (join : Bool) (e : Error) (w : W)
        → (scopes.enter join w).0 ≡ raise e
        → depth (scopes.enter join w).1 ≡ depth w
    pub shallower :
        (o : Option Error) (w : W) (n : ℕ) → depth w ≡ suc n → depth (scopes.leave o w).1 ≡ n

  after_finally-depth :
      (d : Depth) (r : Result Error Envelope) (o : Result Error Unit × W)
      → d.depth (after_finally r o).1 ≡ d.depth o.1
  after_finally-depth d r (ok _, w) = refl
  after_finally-depth d r (raise e, w) = refl

  leave_with-depth :
      (d : Depth) (r : Result Error Envelope) (w : W) (n : ℕ)
      → d.depth w ≡ suc n
      → d.depth (leave_with r w).1 ≡ n
  leave_with-depth d (ok result) w n h =
      after_finally-depth d (ok result) (scopes.leave none w) ∙ d.shallower none w n h
  leave_with-depth d (raise e) w n h =
      after_finally-depth d (raise e) (scopes.leave (some e) w) ∙ d.shallower (some e) w n h

  -- However the rest of the chain ends, the unit of work that was opened for it is closed, and no
  -- other, when the rest of the chain leaves as many open as it found.
  pub run-in_unit_of_work :
      (d : Depth) (rest : Envelope → Exec Error W Envelope)
      → ((env : Envelope) (w : W) → d.depth (rest env w).1 ≡ d.depth w)
      → (env : Envelope) (w : W) → d.depth (run (in_unit_of_work env) rest w).1 ≡ d.depth w
  unfolding in_unit_of_work run
  run-in_unit_of_work d rest kept env w =
      go (scopes.enter (joins env) w) (d.deeper (joins env) w)
        (λ e. d.failed_to_enter (joins env) e w)
    where
      go :
          (o : Result Error Unit × W)
          → (o.0 ≡ ok tt → d.depth o.1 ≡ suc (d.depth w))
          → ((e : Error) → o.0 ≡ raise e → d.depth o.1 ≡ d.depth w)
          → d.depth
              (run (and_then (ret o.0) (λ _. next env (λ r. perform (leave_with r)))) rest o.1).1
            ≡ d.depth w
      go (raise e, w') deep same = same e refl
      go (ok tt, w') deep same =
          leave_with-depth d (rest env w').0 (rest env w').1 (d.depth w) (kept env w' ∙ deep refl)
