-- ===== src/Middleware/After/Waiting.antt =====
-- The queue of messages held back: what goes in at its end comes out at its front.
use python_xtr_messenger.Base.{
  Exec, List, Option, Option-cases, [], ap, append-nil, append_assoc, false, get_elem?,
  if◌then◌else◌, inl, inr, nat_eq, none, ok, refl, some, subst, suc, sym, true, zero, ℕ, ◌++◌, ◌∙◌,
  ◌∷◌, ◌≡◌,
}
use python_xtr_messenger.Envelope.{Envelope, last, without_stamps}
use python_xtr_messenger.Errors.{Error, Errors}
use python_xtr_messenger.Middleware.After.{
  Context, Held, close_held, current_in, drain, drain_from, handle_after, handle_by, hold_back,
  if_open, is_later, keep_error, outgoing_of, set_at, set_held, set_waiting, waiting_of,
}
use python_xtr_messenger.Stamps.{Stamp, dispatch_after_current_bus_stamp, stamp_eq}

module _ {ℓ} {A : Type ℓ} where
  get_elem?-set_at :
      (i : ℕ) (a b : A) (xs : List A)
      → get_elem? xs i ≡ some b
      → get_elem? (set_at i a xs) i ≡ some a
  unfolding set_at
  get_elem?-set_at i a b [] e = cc e
  get_elem?-set_at zero a b (x ∷ xs) e = refl
  get_elem?-set_at (suc i) a b (x ∷ xs) e = get_elem?-set_at i a b xs e

  set_at_missing :
      (i : ℕ) (a : A) (xs : List A) → get_elem? xs i ≡ none → get_elem? (set_at i a xs) i ≡ none
  unfolding set_at
  set_at_missing i a [] e = e
  set_at_missing zero a (x ∷ xs) e = cc e
  set_at_missing (suc i) a (x ∷ xs) e = set_at_missing i a xs e

module _ {W : Type 0} where
  pub waiting_of_found :
      (h : ℕ) (held : Held) (c : Context W)
      → get_elem? c.heap h ≡ some held
      → waiting_of h c ≡ held.envelopes
  unfolding waiting_of
  waiting_of_found h held c e = rw (e, waiting_of) refl

  pub waiting_of_missing : (h : ℕ) (c : Context W) → get_elem? c.heap h ≡ none → waiting_of h c ≡ []
  unfolding waiting_of
  waiting_of_missing h c e = rw (e, waiting_of) refl

  pub waiting_of-set_held :
      (h : ℕ) (held new : Held) (c : Context W)
      → get_elem? c.heap h ≡ some held
      → waiting_of h (set_held h new c) ≡ new.envelopes
  unfolding set_held
  waiting_of-set_held h held new c e =
      waiting_of_found h new (set_held h new c) (get_elem?-set_at h new held c.heap e)

  -- Nothing waits when the handling of a current message ends.
  pub waiting_of-close_held :
      (h : ℕ) (before : Option ℕ) (c : Context W) → waiting_of h (close_held h before c) ≡ []
  unfolding close_held set_held
  waiting_of-close_held h before c =
      let closed : Held = record { envelopes = []; is_open = false } in
      elim (Option-cases (get_elem? c.heap h)) [
        | inl e ↦ waiting_of_missing h (close_held h before c) (set_at_missing h closed c.heap e)
        | inr (held, e) ↦
            waiting_of_found h closed (close_held h before c)
              (get_elem?-set_at h closed held c.heap e)
      ]

  set_waiting_found :
      (h : ℕ) (held : Held) (more : List (Envelope × ℕ)) (c : Context W)
      → get_elem? c.heap h ≡ some held
      → set_waiting h more c ≡ set_held h (record held { envelopes = more }) c
  unfolding set_waiting
  set_waiting_found h held more c e = rw (e, set_waiting) refl

  waiting_of-set_waiting :
      (h : ℕ) (x : Envelope × ℕ) (xs more : List (Envelope × ℕ)) (c : Context W)
      → waiting_of h c ≡ x ∷ xs
      → waiting_of h (set_waiting h more c) ≡ more
  waiting_of-set_waiting h x xs more c w = elim (Option-cases (get_elem? c.heap h)) [
    | inl e ↦ cc (w, waiting_of_missing h c e)
    | inr (held, e) ↦
        ap (waiting_of h) (set_waiting_found h held more c e)
        ∙ waiting_of-set_held h held (record held { envelopes = more }) c e
  ]

module _ {W : Type 0} (rest_of : ℕ → Envelope → Exec Error (Context W) Envelope) where
  -- A stamped message that is dispatched while another is handled is put last among those held
  -- back, without its stamp and with its chain; nothing is dispatched, and the dispatch returns it.
  pub handle_after-waiting :
      (fuel stack h : ℕ) (env : Envelope) (s : Stamp) (held : Held) (c : Context W)
      → last env dispatch_after_current_bus_stamp ≡ some s
      → c.held ≡ some h
      → get_elem? c.heap h ≡ some held
      → held.is_open ≡ true
      → (c' : Context W) × (handle_after rest_of fuel stack env c
          ≡ some (ok (without_stamps env dispatch_after_current_bus_stamp), c'))
        × (c'.app ≡ c.app)
        × (c'.held ≡ c.held)
        × (waiting_of h c'
            ≡ waiting_of h c ++ (without_stamps env dispatch_after_current_bus_stamp, stack) ∷ [])
  unfolding handle_after outgoing_of set_held
  handle_after-waiting fuel stack h env s held c l v e o =
      let env' = without_stamps env dispatch_after_current_bus_stamp in
      let found : current_in c.held c ≡ some (h, held) =
        ap (λ x. current_in x c) v
        ∙ ap (if_open h) e
        ∙ ap (λ b. if b then some (h, held) else none) o in
      (
        hold_back (h, held) env' stack c,
        ap
              (λ x.
                handle_by rest_of fuel stack (is_later x) (current_in c.held c) (outgoing_of x env)
                  c)
              l
            ∙ ap (λ x. handle_by rest_of fuel stack true x env' c) found,
        refl,
        refl,
        waiting_of-set_held h held
              (record held { envelopes = held.envelopes ++ (env', stack) ∷ [] }) c e
            ∙ ap (λ ws. ws ++ (env', stack) ∷ []) (sym (waiting_of_found h held c e)),
      )

-- An observation of the application: what the chains were asked, and all that was held back for the
-- current message. A chain adds its request to the one, and what it holds back to the other and to
-- what waits.
pub record Ledger {W : Type 0} (rest_of : ℕ → Envelope → Exec Error (Context W) Envelope) (h : ℕ)
    : Type 0 where
  pub asked : Context W → List (Envelope × ℕ)
  pub kept : Context W → List (Envelope × ℕ)
  pub new : ℕ → Envelope → Context W → List (Envelope × ℕ)
  pub asks :
      (stack : ℕ) (env : Envelope) (c : Context W)
      → asked (rest_of stack env c).1 ≡ asked c ++ (env, stack) ∷ []
  pub keeps :
      (stack : ℕ) (env : Envelope) (c : Context W)
      → kept (rest_of stack env c).1 ≡ kept c ++ new stack env c
  pub waits :
      (stack : ℕ) (env : Envelope) (c : Context W)
      → waiting_of h (rest_of stack env c).1 ≡ waiting_of h c ++ new stack env c
  pub asked_still :
      (more : List (Envelope × ℕ)) (c : Context W) → asked (set_waiting h more c) ≡ asked c
  pub kept_still :
      (more : List (Envelope × ℕ)) (c : Context W) → kept (set_waiting h more c) ≡ kept c

module _ {W : Type 0} (rest_of : ℕ → Envelope → Exec Error (Context W) Envelope) (h : ℕ)
    (l : Ledger rest_of h) where
  -- What was asked and kept of a run of the loop from a state in which `ws` waits.
  abbrev InTurn : Context W → List (Envelope × ℕ) → Option (Errors × Context W) → Type 0
  InTurn c ws none = Unit
  InTurn c ws (some (es, c')) =
      (later : List (Envelope × ℕ)) × (l.kept c' ≡ l.kept c ++ later)
      × (l.asked c' ≡ l.asked c ++ (ws ++ later))

  InTurn-sends :
      (env : Envelope) (stack : ℕ) (more : List (Envelope × ℕ)) (c : Context W)
      → waiting_of h c ≡ (env, stack) ∷ more
      → (o : Option (Errors × Context W))
      → InTurn
          (rest_of stack env (set_waiting h more c)).1
          (waiting_of h (rest_of stack env (set_waiting h more c)).1)
          o
      → InTurn c ((env, stack) ∷ more) o
  InTurn-sends env stack more c w none t = tt
  InTurn-sends env stack more c w (some (es, c')) (later, kept, asked) =
      let popped = set_waiting h more c in
      let held = l.new stack env popped in
      let waits : waiting_of h (rest_of stack env popped).1 ≡ more ++ held =
        l.waits stack env popped
        ∙ ap (λ ws. ws ++ held) (waiting_of-set_waiting h (env, stack) more more c w) in
      (
        held ++ later,
        kept
            ∙ ap (λ ks. ks ++ later)
                (l.keeps stack env popped ∙ ap (λ ks. ks ++ held) (l.kept_still more c))
            ∙ append_assoc (l.kept c) held later,
        asked
            ∙ ap (λ ws. l.asked (rest_of stack env popped).1 ++ (ws ++ later)) waits
            ∙ ap (λ xs. xs ++ ((more ++ held) ++ later))
                (l.asks stack env popped
                  ∙ ap (λ xs. xs ++ (env, stack) ∷ []) (l.asked_still more c))
            ∙ append_assoc (l.asked c) ((env, stack) ∷ []) ((more ++ held) ++ later)
            ∙ ap (λ ws. l.asked c ++ ((env, stack) ∷ ws)) (append_assoc more held later),
      )

  drain-InTurn :
      (fuel : ℕ) (es : Errors) (c : Context W)
      → InTurn c (waiting_of h c) (drain rest_of fuel h es c)
  unfolding drain
  drain-InTurn zero es c = tt
  drain-InTurn (suc fuel) es c = go (drain-InTurn fuel) (waiting_of h c) refl
    where
      go :
          ((es' : Errors) (d : Context W) → InTurn d (waiting_of h d) (drain rest_of fuel h es' d))
          → (ws : List (Envelope × ℕ)) → waiting_of h c ≡ ws
          → InTurn c ws (drain_from rest_of (drain rest_of fuel h) h ws es c)
      go ih [] w = ([], sym (append-nil (l.kept c)), sym (append-nil (l.asked c)))
      go ih ((env, stack) ∷ more) w =
          let o = rest_of stack env (set_waiting h more c) in
          InTurn-sends env stack more c w (drain rest_of fuel h (keep_error o.0 es) o.1)
            (ih (keep_error o.0 es) o.1)

  -- The loop dispatches what waits when it starts, in the order in which it was held back, and after
  -- that all that is held back while it runs, in that order too, each once and nothing else, whether
  -- or not chains raise: where a chain puts what it holds back last among what waits.
  pub drain-asked :
      (fuel : ℕ) (es es' : Errors) (c c' : Context W)
      → drain rest_of fuel h es c ≡ some (es', c')
      → (later : List (Envelope × ℕ)) × (l.kept c' ≡ l.kept c ++ later)
        × (l.asked c' ≡ l.asked c ++ (waiting_of h c ++ later))
  drain-asked fuel es es' c c' e = subst (InTurn c (waiting_of h c)) e (drain-InTurn fuel es c)
