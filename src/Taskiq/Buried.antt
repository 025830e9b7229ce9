-- ===== src/Taskiq/Buried.antt =====
-- A poison delivery is quarantined before it is acknowledged.
use python_xtr_messenger.Base.{
  Bool, Option-cases, Result, String, ap, arith, false, if◌then◌else◌, inl, inr, nat_eq, none, ok,
  raise, refl, some, string_eq, suc, true, ℕ, ◌+◌, ◌>>◌, ◌∙◌, ◌≡◌, ◌⊎◌,
}
use python_xtr_messenger.Errors.{Error}
use python_xtr_messenger.Taskiq.Poison.{
  Arrival, PoisonReceiver, acknowledge, bury, poison_reason, screen,
}

-- An observation of the process: how often a delivery was acknowledged here. Neither the quarantine
-- nor the logger acknowledges.
pub record AckCount {S : Type 0} (p : PoisonReceiver S) : Type 0 where
  pub acks : S → ℕ
  pub ack_counts : (incoming : Arrival) (s : S) → acks (p.ack incoming s).1 ≡ suc (acks s)
  pub warn_counts : (reason : String) (s : S) → acks (p.warn reason s) ≡ acks s
  pub bury_counts : (content reason : String) (s : S) → acks (bury p content reason s).1 ≡ acks s

-- What is acknowledged of an arrival, by how its quarantine ended.
abbrev pub settled : Arrival → Result Error Unit → ℕ
settled incoming (raise e) = 0
settled incoming (ok _) = if incoming.ackable then 1 else 0

module _ {S : Type 0} (p : PoisonReceiver S) (j : AckCount p) where
  acknowledge-counts :
      (incoming : Arrival) (s : S)
      → j.acks (acknowledge p incoming s).1 ≡ j.acks s + settled incoming (ok tt)
  acknowledge-counts incoming s = go incoming.ackable
    where
      go :
          (yes_or_no : Bool)
          → j.acks (if yes_or_no then p.ack incoming s else (ok tt, s)).1
            ≡ j.acks s + (if yes_or_no then 1 else 0)
      go true = j.ack_counts incoming s ∙ omega arith
      go false = omega arith

  then_acknowledge :
      (incoming : Arrival) (o : Result Error Unit × S)
      → j.acks (◌>>◌ {S = S} (λ _. o) (acknowledge p incoming) o.1).1
        ≡ j.acks o.1 + settled incoming o.0
  then_acknowledge incoming (ok _, s) = acknowledge-counts incoming s
  then_acknowledge incoming (raise e, s) = omega arith

  -- A poison delivery that can be acknowledged is acknowledged once if its quarantine held it, or
  -- there is none, and stays with the broker if the quarantine raised; one that is not poison is
  -- left to the wrapped loop.
  pub screen-acks :
      (incoming : Arrival) (raise_err : Bool) (s : S)
      → ((poison_reason p incoming.content s ≡ none)
          × (screen p incoming raise_err s ≡ p.callback incoming raise_err s))
        ⊎ ((reason : String) × (poison_reason p incoming.content s ≡ some reason)
            × (j.acks (screen p incoming raise_err s).1
                ≡ j.acks s + settled incoming (bury p incoming.content reason (p.warn reason s)).0))
  unfolding screen
  screen-acks incoming raise_err s = elim (Option-cases (poison_reason p incoming.content s)) [
    | inl sound ↦ inl (sound, rw (sound, screen) refl)
    | inr (reason, poison) ↦ inr (
      reason,
      poison,
      rw (poison, screen)
          (then_acknowledge incoming (bury p incoming.content reason (p.warn reason s))
            ∙ ap (λ n. n + settled incoming (bury p incoming.content reason (p.warn reason s)).0)
                (j.bury_counts incoming.content reason (p.warn reason s) ∙ j.warn_counts reason s)),
    )
  ]
