-- ===== src/Bus/Nested.antt =====
-- The shared cursor behaves as nested calls.
use native.Mathlib.Numerals.{add-one}
use python_xtr_messenger.Base.{
  Exec, List, Option, Result, [], arith, drop, drop-suc, get_elem?_of_drop-nil, length, nat_eq, ok,
  refl, some, suc, zero, ℕ, ◌+◌, ◌∙◌, ◌∷◌, ◌≡◌, ◌≤◌,
}
use python_xtr_messenger.Bus.{Stack, dispatch, run_stack}
use python_xtr_messenger.Bus.Cursor.{run_stack_act, run_stack_step, run_stack_tail}
use python_xtr_messenger.Envelope.{Envelope, Subject, wrap}
use python_xtr_messenger.Errors.{Error}
use python_xtr_messenger.Middleware.{Middleware, Prog, act, delegate, nested, next, ret, run}
use python_xtr_messenger.Middleware.Runs.{run_act, run-delegate, run_next}
use python_xtr_messenger.Middleware.Single.{AllOnce, Never, Once}
use python_xtr_messenger.Stamps.{Stamp, stamp_eq}

module _ {W : Type 0} where
  abbrev outcome :
      Result Error Envelope × W → Stack W → Option (Result Error Envelope × Stack W × W)
  outcome (r, w) c = some (r, c, w)

  run_stack-Never :
      (n : ℕ) (p : Prog W Envelope) (c : Stack W) (w : W) (rest : Envelope → Exec Error W Envelope)
      → Never p
      → run_stack n p c w ≡ outcome (run p rest w) c
  unfolding run run_stack
  run_stack-Never n (ret r) c w rest h = refl
  run_stack-Never n (act g k) c w rest h = run_stack-Never n (k w) c (g w) rest (h w)
  run_stack-Never n (next e k) c w rest h = absurd h

  nested_nil : (e : Envelope) (w : W) → nested [] e w ≡ (ok e, w)
  unfolding nested
  nested_nil e w = refl

  nested_cons :
      (m : Middleware W) (ms : List (Middleware W)) (e : Envelope) (w : W)
      → nested (m ∷ ms) e w ≡ run (m e) (nested ms) w
  unfolding nested
  nested_cons m ms e w = refl

  abbrev Agrees : ℕ → Prog W Envelope → Stack W → List (Middleware W) → W → Type 0
  Agrees n p c rest w = (c' : Stack W) × (run_stack n p c w ≡ outcome (run p (nested rest) w) c')

  run_stack-run :
      (n : ℕ) (p : Prog W Envelope) (c : Stack W) (rest : List (Middleware W)) (w : W)
      → drop c.offset c.middlewares ≡ rest
      → length rest ≤ n
      → AllOnce rest
      → Once p
      → Agrees n p c rest w
  run_stack-run n (ret r) c rest w d l a o = (c, unfold run run_stack in refl)
  run_stack-run n (act g k) c rest w d l a o =
      let (c', e) = run_stack-run n (k w) c rest (g w) d l a (o w) in
      (c', rw (run_stack_act n g k c w, run_act (nested rest) g k w) e)
  run_stack-run n (next e k) c [] w d l a o = (
    c,
    run_stack_tail n e k c w (get_elem?_of_drop-nil c.offset c.middlewares d)
        ∙ rw (run_next (nested []) e k w, nested_nil e w)
            (run_stack-Never n (k (ok e)) c w (nested []) (o (ok e))),
  )
  run_stack-run (suc n) (next e k) c (m ∷ rest) w d l a o =
      let (found, tail) = drop-suc c.offset c.middlewares rest m d in
      let (c', inner) =
        run_stack-run n (m e) (record c { offset = c.offset + 1 }) rest w (rw add-one tail)
          (omega arith) a.1 (a.0 e) in
      let (r, w') = run (m e) (nested rest) w in
      (
        c',
        run_stack_step n e k c w m r c' w' found inner
            ∙ rw (run_next (nested (m ∷ rest)) e k w, nested_cons m rest e w)
                (run_stack-Never (suc n) (k r) c' w' (nested (m ∷ rest)) (o r)),
      )
  run_stack-run zero (next e k) c (m ∷ rest) w d l a o = absurd (omega arith)

-- Over middlewares that each ask for the rest of the chain at most once, a dispatch returns, and
-- its result and the state it leaves are those of the middlewares called one around the next, the
-- first outermost, with the envelope itself at the end.
pub dispatch-nested :
    {W : Type 0} (ms : List (Middleware W)) (message : Subject) (stamps : List Stamp) (w : W)
    → AllOnce ms
    → (c : Stack W) × (dispatch ms message stamps w
        ≡ some ((nested ms (wrap message stamps) w).0, c, (nested ms (wrap message stamps) w).1))
unfolding dispatch
dispatch-nested ms message stamps w a =
    let e = wrap message stamps in
    let (c, q) =
      run_stack-run (length ms) (delegate e) (record { middlewares = ms; offset = 0 }) ms w
        (unfold drop in refl) (omega arith) a (λ r. tt) in
    (c, rw (run-delegate (nested ms) e w) at q)
