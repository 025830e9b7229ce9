-- ===== src/Middleware/Runs.antt =====
-- The meaning of each part of a middleware's program.
use python_xtr_messenger.Base.{Exec, Result, ok, raise, refl, ◌∙◌, ◌≡◌}
use python_xtr_messenger.Envelope.{Envelope}
use python_xtr_messenger.Errors.{Error}
use python_xtr_messenger.Middleware.{Prog, act, and_then, delegate, next, perform, ret, run}

module _ {W : Type 0} (rest : Envelope → Exec Error W Envelope) where
  pub run_act :
      {A : Type 0} (g : W → W) (k : W → Prog W A) (w : W)
      → run (act g k) rest w ≡ run (k w) rest (g w)
  unfolding run
  run_act g k w = refl

  pub run_next :
      {A : Type 0} (e : Envelope) (k : Result Error Envelope → Prog W A) (w : W)
      → run (next e k) rest w ≡ run (k (rest e w).0) rest (rest e w).1
  unfolding run
  run_next e k w = refl

  pub run-delegate : (e : Envelope) (w : W) → run (delegate e) rest w ≡ rest e w
  unfolding run
  run-delegate e w = refl

  run_ret :
      {A B : Type 0} (f : A → Prog W B) (o : Result Error A × W)
      → run (and_then (ret o.0) f) rest o.1
        ≡ (elim o.0 [ ok a ↦ run (f a) rest o.1 | raise e ↦ (raise e, o.1) ])
  unfolding run
  run_ret f (ok a, w) = refl
  run_ret f (raise e, w) = refl

  -- An action, then the rest of the program with its result, unless it raised.
  pub run-perform :
      {A B : Type 0} (m : Exec Error W A) (f : A → Prog W B) (w : W)
      → run (and_then (perform m) f) rest w
        ≡ (elim (m w).0 [ ok a ↦ run (f a) rest (m w).1 | raise e ↦ (raise e, (m w).1) ])
  run-perform m f w = run_act (λ v. (m v).1) (λ v. and_then (ret (m v).0) f) w ∙ run_ret f (m w)
