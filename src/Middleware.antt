-- ===== src/Middleware.antt =====
-- src/xtr_messenger/middleware/middleware_interface.py: a middleware's `handle(envelope, stack)`
-- as a program. All that a middleware does with the stack is `await stack.next().handle(e, stack)`,
-- which is the request `next e` of the program; what it does besides is an action on the state of
-- the application, `act`.
pub mod Single
pub mod Runs
pub mod Handle
pub mod Send
pub mod After
pub mod Logging
pub mod UnitOfWork
use python_xtr_messenger.Base.{Exec, List, Result, [], ok, raise, ◌∷◌}
use python_xtr_messenger.Envelope.{Envelope}
use python_xtr_messenger.Errors.{Error}

pub data Prog (W A : Type 0) : Type 0 where
  ret : Result Error A → Prog W A
  act : (W → W) → (W → Prog W A) → Prog W A
  next : Envelope → (Result Error Envelope → Prog W A) → Prog W A

abbrev pub Middleware : Type 0 → Type 0
Middleware W = Envelope → Prog W Envelope

module _ {W : Type 0} where
  -- The outcome of an action, as a program.
  abbrev pub perform : {A : Type 0} → Exec Error W A → Prog W A
  perform m = act (λ w. (m w).1) (λ w. ret (m w).0)

  -- `return await stack.next().handle(envelope, stack)`
  abbrev pub delegate : Envelope → Prog W Envelope
  delegate e = next e ret

  -- A program, then another that takes its result; an exception ends both.
  abbrev pub and_then : {A B : Type 0} → Prog W A → (A → Prog W B) → Prog W B
  and_then (ret (ok a)) f = f a
  and_then (ret (raise e)) f = ret (raise e)
  and_then (act g k) f = act g (λ w. and_then (k w) f)
  and_then (next e k) f = next e (λ r. and_then (k r) f)

  -- A program's meaning, given what the rest of the chain does with an envelope.
  unfoldable pub run : {A : Type 0} → Prog W A → (Envelope → Exec Error W Envelope) → Exec Error W A
  run (ret r) rest w = (r, w)
  run (act g k) rest w = run (k w) rest (g w)
  run (next e k) rest w = let (r, w') = rest e w in run (k r) rest w'

  -- The chain as nested calls: each middleware around those after it, and at the end the envelope
  -- itself.
  unfoldable pub nested : List (Middleware W) → Envelope → Exec Error W Envelope
  nested [] e w = (ok e, w)
  nested (m ∷ ms) e w = run (m e) (nested ms) w
