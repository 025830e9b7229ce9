-- ===== src/Base/Integers.antt =====
-- Python's `int`.
use Prim.Native.Nat.{ℕ, zero, suc}
use mathlib.Core.Bool.{Bool, true, false, not}
use native.Mathlib.Decide.{ℕ_discrete}
use python_xtr_messenger.Base.Tests.{Eq, leb}

-- `negsuc n` is `-1 - n`.
pub data ℤ : Type 0 where
  pos negsuc : ℕ → ℤ

unfoldable pub ℤ_discrete : Discrete ℤ
ℤ_discrete = hlevel ℕ_discrete

instance abbrev pub int_eq : Eq ℤ
int_eq = record { dec_eq = ℤ_discrete }

-- `k - 1`
unfoldable pub pred : ℤ → ℤ
pred (pos zero) = negsuc zero
pred (pos (suc n)) = pos n
pred (negsuc n) = negsuc (suc n)

-- `j < k`
unfoldable pub ltb : ℤ → ℤ → Bool
ltb (pos m) (pos n) = not (leb n m)
ltb (pos m) (negsuc n) = false
ltb (negsuc m) (pos n) = true
ltb (negsuc m) (negsuc n) = not (leb m n)
