-- ===== src/Bus.antt =====
-- src/xtr_messenger/middleware/stack_middleware.py and src/xtr_messenger/message_bus.py. The stack
-- is a cursor that every middleware of a dispatch shares and moves.
pub mod Cursor
pub mod Nested
use python_xtr_messenger.Base.{
  List, Option, Result, get_elem?, length, nat_eq, none, ok, some, suc, zero, ℕ, ◌+◌,
}
use python_xtr_messenger.Envelope.{Envelope, Subject, wrap}
use python_xtr_messenger.Errors.{Error}
use python_xtr_messenger.Middleware.{Middleware, Prog, act, delegate, next, ret}
use python_xtr_messenger.Stamps.{Stamp, stamp_eq}

pub record Stack (W : Type 0) : Type 0 where
  pub middlewares : List (Middleware W)
  pub offset : ℕ

module _ {W : Type 0} where
  -- `StackMiddleware.next`; `none` is the cursor itself, past the last middleware
  unfoldable pub advance : Stack W → Option (Middleware W) × Stack W
  advance c = elim (get_elem? c.middlewares c.offset) [
    | none ↦ (none, c)
    | some m ↦ (some m, record c { offset = c.offset + 1 })
  ]

  -- A program run against the cursor. The fuel bounds how deep the middlewares nest; `none` means
  -- that it ran out.
  unfoldable pub run_stack :
      ℕ → Prog W Envelope → Stack W → W → Option (Result Error Envelope × Stack W × W)
  run_stack n (ret r) c w = some (r, c, w)
  run_stack n (act g k) c w = run_stack n (k w) c (g w)
  run_stack zero (next e k) c w = elim ((advance c).0) [
    | none ↦ run_stack zero (k (ok e)) c w
    | some m ↦ none
  ]
  run_stack (suc n) (next e k) c w = elim ((advance c).0) [
    | none ↦ run_stack (suc n) (k (ok e)) c w
    | some m ↦ elim (run_stack n (m e) (advance c).1 w) [
      | none ↦ none
      | some (r, c', w') ↦ run_stack (suc n) (k r) c' w'
    ]
  ]

  -- `MessageBus.dispatch`
  unfoldable pub dispatch :
      List (Middleware W) → Subject → List Stamp → W → Option (Result Error Envelope × Stack W × W)
  unfolding run_stack
  dispatch ms message stamps w =
      run_stack (length ms) (delegate (wrap message stamps))
        (record { middlewares = ms; offset = 0 }) w
