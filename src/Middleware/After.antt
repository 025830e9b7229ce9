-- ===== src/Middleware/After.antt =====
-- src/xtr_messenger/middleware/dispatch_after_current_bus_middleware.py, within one context. A
-- stack is told by a number, and `rest_of` is what the rest of its chain does with an envelope.
pub mod Order
pub mod Waiting
pub mod Enough
use python_xtr_messenger.Base.{
  Bool, Exec, List, Option, Result, [], false, get_elem?, if◌then◌else◌, length, nat_eq, none, ok,
  raise, some, suc, true, zero, ℕ, ◌++◌, ◌∷◌,
}
use python_xtr_messenger.Envelope.{Envelope, last, without_stamps}
use python_xtr_messenger.Errors.{Error, Errors, add, delayed_message_handling, failure, no_errors}
use python_xtr_messenger.Stamps.{Stamp, dispatch_after_current_bus_stamp, stamp_eq}

-- `_Held`
pub record Held : Type 0 where
  pub envelopes : List (Envelope × ℕ)
  pub is_open : Bool

-- The application's state, every `_Held` that was made, and the context variable.
pub record Context (W : Type 0) : Type 0 where
  pub app : W
  pub heap : List Held
  pub held : Option ℕ

module _ {ℓ} {A : Type ℓ} where
  -- the list with its value at `i` replaced
  unfoldable pub set_at : ℕ → A → List A → List A
  set_at i a [] = []
  set_at zero a (x ∷ xs) = a ∷ xs
  set_at (suc i) a (x ∷ xs) = x ∷ set_at i a xs

-- the current message's `_Held`, if one is handled
abbrev pub if_open : ℕ → Option Held → Option (ℕ × Held)
if_open h none = none
if_open h (some held) = if held.is_open then some (h, held) else none

module _ {W : Type 0} where
  -- `held.envelopes`
  unfoldable pub waiting_of : ℕ → Context W → List (Envelope × ℕ)
  waiting_of h c = elim (get_elem? c.heap h) [ some held ↦ held.envelopes | none ↦ [] ]

  unfoldable pub set_held : ℕ → Held → Context W → Context W
  unfolding set_at
  set_held h held c = record c { heap = set_at h held c.heap }

  abbrev pub current_in : Option ℕ → Context W → Option (ℕ × Held)
  current_in none c = none
  current_in (some h) c = if_open h (get_elem? c.heap h)

  -- what `held.envelopes.pop(0)` leaves
  unfoldable pub set_waiting : ℕ → List (Envelope × ℕ) → Context W → Context W
  unfolding set_held
  set_waiting h more c = elim (get_elem? c.heap h) [
    | some held ↦ set_held h (record held { envelopes = more }) c
    | none ↦ c
  ]

  -- `held.envelopes.append((envelope, stack))`
  abbrev pub hold_back : ℕ × Held → Envelope → ℕ → Context W → Context W
  hold_back (h, held) env stack c =
      set_held h (record held { envelopes = held.envelopes ++ (env, stack) ∷ [] }) c

  -- the start of `_current`: a new `_Held`, which the context variable is set to
  unfoldable pub open_held : Context W → Context W
  open_held c = record c {
    heap = c.heap ++ record { envelopes = []; is_open = true } ∷ [];
    held = some (length c.heap);
  }

  -- the `finally` of `_current`, given what the variable was
  unfoldable pub close_held : ℕ → Option ℕ → Context W → Context W
  unfolding set_held
  close_held h before c = record (set_held h (record { envelopes = []; is_open = false }) c) {
    held = before;
  }

abbrev pub keep_error : Result Error Envelope → Errors → Errors
keep_error (ok _) es = es
keep_error (raise e) es = add "" e es

-- the end of `_current`
unfoldable pub report : Envelope → Errors → Result Error Envelope
report env no_errors = ok env
report env (failure n e es) = raise (delayed_message_handling env (failure n e es))

-- whether the envelope is to be held back, and the envelope that goes on, by what stamp it has
abbrev pub is_later : Option Stamp → Bool
is_later none = false
is_later (some _) = true

unfoldable pub outgoing_of : Option Stamp → Envelope → Envelope
unfolding without_stamps
outgoing_of none env = env
outgoing_of (some _) env = without_stamps env dispatch_after_current_bus_stamp

module _ {W : Type 0} (rest_of : ℕ → Envelope → Exec Error (Context W) Envelope) where
  abbrev pub drain_from :
      (Errors → Context W → Option (Errors × Context W))
      → ℕ
      → List (Envelope × ℕ)
      → Errors
      → Context W
      → Option (Errors × Context W)
  drain_from again h [] es c = some (es, c)
  drain_from again h ((env, stack) ∷ more) es c =
      let (r, c') = rest_of stack env (set_waiting h more c) in again (keep_error r es) c'

  -- the `while` of `_current`, for fewer messages than the fuel
  unfoldable pub drain : ℕ → ℕ → Errors → Context W → Option (Errors × Context W)
  unfolding waiting_of set_waiting
  drain zero h es c = none
  drain (suc fuel) h es c = drain_from (drain fuel h) h (waiting_of h c) es c

  abbrev pub after_drain :
      ℕ
      → Option ℕ
      → Envelope
      → Option (Errors × Context W)
      → Option (Result Error Envelope × Context W)
  after_drain h before env none = none
  after_drain h before env (some (es, c)) = some (report env es, close_held h before c)

  abbrev pub after_current :
      ℕ
      → ℕ
      → Option ℕ
      → Result Error Envelope × Context W
      → Option (Result Error Envelope × Context W)
  after_current fuel h before (raise e, c) = some (raise e, close_held h before c)
  after_current fuel h before (ok env, c) = after_drain h before env (drain fuel h no_errors c)

  -- `_current`
  unfoldable pub handle_current :
      ℕ → ℕ → Envelope → Context W → Option (Result Error Envelope × Context W)
  unfolding drain open_held
  handle_current fuel stack env c =
      after_current fuel (length c.heap) c.held (rest_of stack env (open_held c))

  -- what `handle` does, by whether the envelope is to be held back and by the current message
  abbrev pub handle_by :
      ℕ
      → ℕ
      → Bool
      → Option (ℕ × Held)
      → Envelope
      → Context W
      → Option (Result Error Envelope × Context W)
  handle_by fuel stack true (some current) env c = some (ok env, hold_back current env stack c)
  handle_by fuel stack false (some current) env c = some (rest_of stack env c)
  handle_by fuel stack later none env c = handle_current fuel stack env c

  -- `handle`; none when the fuel does not do
  unfoldable pub handle_after :
      ℕ → ℕ → Envelope → Context W → Option (Result Error Envelope × Context W)
  unfolding handle_current last
  handle_after fuel stack env c =
      let stamp = last env dispatch_after_current_bus_stamp in
      handle_by fuel stack (is_later stamp) (current_in c.held c) (outgoing_of stamp env) c
