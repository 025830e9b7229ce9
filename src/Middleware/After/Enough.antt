-- ===== src/Middleware/After/Enough.antt =====
-- The fuel of the loop over what was held back.
use python_xtr_messenger.Base.{
  Exec, List, ap, arith, length, nat_eq, some, suc, zero, ℕ, ◌<◌, ◌∙◌, ◌≡◌,
}
use python_xtr_messenger.Envelope.{Envelope}
use python_xtr_messenger.Errors.{Error, Errors}
use python_xtr_messenger.Middleware.After.{Context, drain, drain_from, keep_error}
use python_xtr_messenger.Middleware.After.Order.{Dispatch, Drains, all_sent, sends}

module _ {W : Type 0} (rest_of : ℕ → Envelope → Exec Error (Context W) Envelope) (h : ℕ) where
  -- If the messages held back, and those that they hold back, come to an end, the loop ends there:
  -- fuel for one round more than there are messages is enough.
  pub drain-Drains :
      (fuel : ℕ) (es : Errors) (c c' : Context W) (ds : List Dispatch)
      → Drains rest_of h c ds c'
      → length ds < fuel
      → (es' : Errors) × (drain rest_of fuel h es c ≡ some (es', c'))
  unfolding drain
  drain-Drains zero es c c' ds d l = absurd (omega (arith, l))
  drain-Drains (suc fuel) es c c' ds (all_sent w) l =
      (es, ap (λ ws. drain_from rest_of (drain rest_of fuel h) h ws es c) w)
  drain-Drains (suc fuel) es c c'' ds (sends {c' = m} {r = r} {ds = rest} w e d) l =
      let (es', q) = drain-Drains fuel (keep_error r es) m c'' rest d (omega (arith, l)) in
      (
        es',
        ap (λ ws. drain_from rest_of (drain rest_of fuel h) h ws es c) w
            ∙ ap (λ o. drain rest_of fuel h (keep_error o.0 es) o.1) e
            ∙ q,
      )
