-- ===== src/Middleware/Single.antt =====
-- Programs that ask for the rest of the chain at most once, as every middleware here does.
use python_xtr_messenger.Base.{All, List, Result}
use python_xtr_messenger.Envelope.{Envelope}
use python_xtr_messenger.Errors.{Error}
use python_xtr_messenger.Middleware.{Middleware, Prog, act, next, ret}

module _ {W A : Type 0} where
  -- The program never asks for the rest of the chain.
  abbrev pub Never : Prog W A → Type 0
  Never (ret r) = Unit
  Never (act g k) = (w : W) → Never (k w)
  Never (next e k) = ⊥

  -- The program asks for it once at most, on every path.
  abbrev pub Once : Prog W A → Type 0
  Once (ret r) = Unit
  Once (act g k) = (w : W) → Once (k w)
  Once (next e k) = (r : Result Error Envelope) → Never (k r)

-- Every middleware of the list does, for every envelope.
abbrev pub AllOnce : {W : Type 0} → List (Middleware W) → Type 0
AllOnce ms = All (λ m. (e : Envelope) → Once (m e)) ms
