-- ===== src/Bus/Cursor.antt =====
-- The cursor of a dispatch never runs out of fuel, and only moves forward.
use native.Mathlib.Nat.{le_trans}
use python_xtr_messenger.Base.{
  List, Option-cases, Result, [], arith, get_elem?, inl, inr, length, nat_eq, none, ok, refl, some,
  suc, zero, ℕ, ◌+◌, ◌<◌, ◌∙◌, ◌∷◌, ◌≡◌, ◌≤◌,
}
use python_xtr_messenger.Bus.{Stack, advance, dispatch, run_stack}
use python_xtr_messenger.Envelope.{Envelope, Subject, wrap}
use python_xtr_messenger.Errors.{Error}
use python_xtr_messenger.Middleware.{Middleware, Prog, act, delegate, next, ret}
use python_xtr_messenger.Stamps.{Stamp, stamp_eq}

module _ {W : Type 0} where
  -- A run from offset `i` that ends, at an offset no smaller, over the same middlewares.
  pub record Ends (n : ℕ) (p : Prog W Envelope) (c : Stack W) (w : W) : Type 0 where
    pub result : Result Error Envelope
    pub stack : Stack W
    pub world : W
    pub returns : run_stack n p c w ≡ some (result, stack, world)
    pub forward : c.offset ≤ stack.offset
    pub same : stack.middlewares ≡ c.middlewares

  abbrev Fits : ℕ → Stack W → Type 0
  Fits n c = length c.middlewares ≤ n + c.offset

  advance-none : (c : Stack W) → get_elem? c.middlewares c.offset ≡ none → (advance c).0 ≡ none
  unfolding advance
  advance-none c e = ground arith

  advance-some :
      (c : Stack W) (m : Middleware W)
      → get_elem? c.middlewares c.offset ≡ some m
      → advance c ≡ (some m, record c { offset = c.offset + 1 })
  unfolding advance
  advance-some c m e = ground arith

  get_elem?_lt :
      (ms : List (Middleware W)) (i : ℕ) (m : Middleware W)
      → get_elem? ms i ≡ some m
      → i < length ms
  get_elem?_lt [] i m e = cc
  get_elem?_lt (x ∷ ms) zero m e = omega arith
  get_elem?_lt (x ∷ ms) (suc i) m e = omega (arith, get_elem?_lt ms i m e)

  pub run_stack_act :
      (n : ℕ) (g : W → W) (k : W → Prog W Envelope) (c : Stack W) (w : W)
      → run_stack n (act g k) c w ≡ run_stack n (k w) c (g w)
  unfolding run_stack
  run_stack_act zero g k c w = refl
  run_stack_act (suc n) g k c w = refl

  -- Past the last middleware the envelope comes back as it is.
  pub run_stack_tail :
      (n : ℕ) (e : Envelope) (k : Result Error Envelope → Prog W Envelope) (c : Stack W) (w : W)
      → get_elem? c.middlewares c.offset ≡ none
      → run_stack n (next e k) c w ≡ run_stack n (k (ok e)) c w
  unfolding run_stack
  run_stack_tail zero e k c w h = ground (arith, advance-none c h)
  run_stack_tail (suc n) e k c w h = ground (arith, advance-none c h)

  pub run_stack_step :
      (n : ℕ) (e : Envelope) (k : Result Error Envelope → Prog W Envelope) (c : Stack W) (w : W)
      (m : Middleware W) (r : Result Error Envelope) (c' : Stack W) (w' : W)
      → get_elem? c.middlewares c.offset ≡ some m
      → run_stack n (m e) (record c { offset = c.offset + 1 }) w ≡ some (r, c', w')
      → run_stack (suc n) (next e k) c w ≡ run_stack (suc n) (k r) c' w'
  unfolding run_stack
  run_stack_step n e k c w m r c' w' h q =
      let found : (advance c).0 ≡ some m = rw (advance-some c m h) in
      let inner : run_stack n (m e) (advance c).1 w ≡ some (r, c', w') =
        rw (advance-some c m h) q in
      rw (found, run_stack) (rw (inner, run_stack))

  continue_with :
      (n : ℕ) (p q : Prog W Envelope) (c c' : Stack W) (w w' : W)
      → run_stack n p c w ≡ run_stack n q c' w'
      → c.offset ≤ c'.offset
      → c'.middlewares ≡ c.middlewares
      → Ends n q c' w'
      → Ends n p c w
  continue_with n p q c c' w w' eq le same e = record {
    result = e.result;
    stack = e.stack;
    world = e.world;
    returns = eq ∙ e.returns;
    forward = le_trans le e.forward;
    same = e.same ∙ same;
  }

  pub run_stack-Ends : (n : ℕ) (p : Prog W Envelope) (c : Stack W) (w : W) → Fits n c → Ends n p c w
  run_stack-Ends n (ret r) c w h = record {
    result = r;
    stack = c;
    world = w;
    returns = unfold run_stack in refl;
    forward = omega arith;
    same = refl;
  }
  run_stack-Ends n (act g k) c w h =
      continue_with n (act g k) (k w) c c w (g w) (run_stack_act n g k c w) (omega arith) refl
        (run_stack-Ends n (k w) c (g w) h)
  run_stack-Ends zero (next x k) c w h = elim (Option-cases (get_elem? c.middlewares c.offset)) [
    | inl q ↦
        continue_with zero (next x k) (k (ok x)) c c w w (run_stack_tail zero x k c w q)
          (omega arith) refl (run_stack-Ends zero (k (ok x)) c w h)
    | inr (m, q) ↦ absurd (omega (arith, get_elem?_lt c.middlewares c.offset m q))
  ]
  run_stack-Ends (suc n) (next x k) c w h = elim (Option-cases (get_elem? c.middlewares c.offset)) [
    | inl q ↦
        continue_with (suc n) (next x k) (k (ok x)) c c w w (run_stack_tail (suc n) x k c w q)
          (omega arith) refl (run_stack-Ends (suc n) (k (ok x)) c w h)
    | inr (m, q) ↦
        let c1 : Stack W = record c { offset = c.offset + 1 } in
        let inner = run_stack-Ends n (m x) c1 w (omega arith) in
        continue_with (suc n) (next x k) (k inner.result) c inner.stack w inner.world
          (run_stack_step n x k c w m inner.result inner.stack inner.world q inner.returns)
          (omega (arith, inner.forward)) inner.same
          (run_stack-Ends (suc n) (k inner.result) inner.stack inner.world
            (rw inner.same (omega (arith, inner.forward))))
  ]

-- A dispatch always returns: the fuel that the bus gives its cursor, one for each middleware, is
-- enough, however often a middleware asks for the rest of the chain.
pub dispatch_total :
    {W : Type 0} (ms : List (Middleware W)) (message : Subject) (stamps : List Stamp) (w : W)
    → (r : Result Error Envelope) × (c : Stack W) × (w' : W) × (dispatch ms message stamps w
        ≡ some (r, c, w'))
unfolding dispatch
dispatch_total ms message stamps w =
    let e =
      run_stack-Ends (length ms) (delegate (wrap message stamps))
        (record { middlewares = ms; offset = 0 }) w (omega arith) in
    (e.result, e.stack, e.world, e.returns)
