-- ===== src/BusFactory/Alike.antt =====
-- Chains that do the same to the messages that no supplied handler would handle.
use python_xtr_messenger.Base.{
  All, Bool, Exec, List, false, if◌then◌else◌, inl, inr, nat_eq, ◌≢◌, ◌⊎◌, Result, [], ap, refl,
  some, string_eq, sym, ◌++◌, ◌∙◌, ◌∷◌, ◌≡◌,
}
use python_xtr_messenger.Envelope.{
  Envelope, MessageType, last, message_type_eq, redispatch_message, type_of_message,
}
use python_xtr_messenger.Errors.{Error}
use python_xtr_messenger.Middleware.{Middleware, Prog, act, nested, next, ret, run}
use python_xtr_messenger.Redispatch.Serving.{found_or}
use python_xtr_messenger.Handlers.{HandlerDescriptor, HandlersLocator, handlers_for}
use python_xtr_messenger.Middleware.Handle.{Locator, handle_message}
use python_xtr_messenger.Classes.{Classes, issubclass}
use python_xtr_messenger.Stamps.{Stamp, received_stamp, stamp_eq}

module _ {W : Type 0} (k : Classes) (handlers : HandlersLocator W) where
  -- Whether two supplied handlers of redispatch messages would make a difference.
  abbrev pub NeedsNoRedispatch : MessageType → Type 0
  NeedsNoRedispatch t =
      (issubclass k t redispatch_message ≡ false) ⊎ (handlers_for k handlers t ≢ [])

  -- A received message that is no redispatch message, or that the application has a handler for.
  abbrev pub IsCollected : Envelope → Type 0
  IsCollected env =
      ((s : Stamp) × (last env received_stamp ≡ some s))
      × NeedsNoRedispatch (type_of_message env.message)

  -- The program asks for the rest of the chain with such envelopes alone.
  abbrev pub OnlyCollected : {A : Type 0} → Prog W A → Type 0
  OnlyCollected (ret r) = Unit
  OnlyCollected (act g rest) = (w : W) → OnlyCollected (rest w)
  OnlyCollected (next env rest) =
      IsCollected env × ((r : Result Error Envelope) → OnlyCollected (rest r))

  -- Every middleware hands such an envelope on as another.
  abbrev pub AllKeepCollected : List (Middleware W) → Type 0
  AllKeepCollected ms = All (λ m. (env : Envelope) → IsCollected env → OnlyCollected (m env)) ms

  -- Two chains do the same to such envelopes.
  abbrev pub SameOnCollected : (rest other : Envelope → Exec Error W Envelope) → Type 0
  SameOnCollected rest other = (env : Envelope) (w : W) → IsCollected env → rest env w ≡ other env w

  run_same :
      {A : Type 0} (rest other : Envelope → Exec Error W Envelope) (p : Prog W A)
      → SameOnCollected rest other
      → OnlyCollected p
      → (w : W) → run p rest w ≡ run p other w
  unfolding run
  run_same rest other (ret r) same h w = refl
  run_same rest other (act g after) same h w = run_same rest other (after w) same (h w) (g w)
  run_same rest other (next env after) same h w =
      ap (λ o. run (after o.0) rest o.1) (same env w h.0)
      ∙ run_same rest other (after (other env w).0) same (h.1 (other env w).0) (other env w).1

  pub same_behind :
      (cs ms ns : List (Middleware W))
      → AllKeepCollected cs
      → SameOnCollected (nested ms) (nested ns)
      → SameOnCollected (nested (cs ++ ms)) (nested (cs ++ ns))
  unfolding nested
  same_behind [] ms ns h same = same
  same_behind (c ∷ cs) ms ns h same = λ env w collected.
      run_same (nested (cs ++ ms)) (nested (cs ++ ns)) (c env) (same_behind cs ms ns h.1 same)
        (h.0 env collected) w

  -- Two handlers that may be supplied, where none of them is.
  pub same_found :
      (d e : HandlerDescriptor W) (t : MessageType) (found : List (HandlerDescriptor W))
      → ((issubclass k t redispatch_message ≡ false) ⊎ (found ≢ []))
      → found_or k d t found ≡ found_or k e t found
  same_found d e t (x ∷ xs) h = refl
  same_found d e t [] (inl other) =
      ap (λ b. if b then d ∷ [] else []) other ∙ ap (λ b. if b then e ∷ [] else []) (sym other)
  same_found d e t [] (inr some_own) = absurd (some_own refl)

  -- Locators that agree on a message handle it alike.
  pub handle_message_same :
      (l m : Locator W) (require_handler : Bool) (env : Envelope)
      → l.handlers_for (type_of_message env.message) ≡ m.handlers_for (type_of_message env.message)
      → l.message_types ≡ m.message_types
      → handle_message k l require_handler env ≡ handle_message k m require_handler env
  unfolding handle_message
  handle_message_same l m require_handler env e e' =
      ap (λ ds. handle_message k (fixed ds l.message_types) require_handler env) e
      ∙ ap
          (λ ts.
            handle_message k (fixed (m.handlers_for (type_of_message env.message)) ts)
              require_handler env)
          e'
    where
      fixed : List (HandlerDescriptor W) → List MessageType → Locator W
      fixed ds ts = record { handlers_for = λ t. ds; message_types = ts }
