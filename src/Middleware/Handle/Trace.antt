-- ===== src/Middleware/Handle/Trace.antt =====
-- What a dispatch that reaches the handlers does, told by what each handler returned or raised.
use python_xtr_messenger.Base.{
  Bool, Bool-cases, Exec, IsDistinct, IsDistinct-snoc, List, List-cases, Result, String, [], ap,
  append-nil, append_assoc, arith, false, if◌then◌else◌, inl, inr, map, ok, raise, refl, sorted,
  string_eq, subst, sym, true, ◌++◌, ◌∙◌, ◌∷◌, ◌≡◌, ◌≢◌, ◌⊎◌,
}
use python_xtr_messenger.Classes.{Classes}
use python_xtr_messenger.Envelope.{Envelope, type_of_message, with_stamps}
use python_xtr_messenger.Envelope.Laws.{with_stamps-append}
use python_xtr_messenger.Errors.{
  Error, Errors, add, failure, handlers_failed, names, names-add, no_errors, no_handler_for_message,
  raised, raised-add,
}
use python_xtr_messenger.Handlers.{HandlerDescriptor, invoke}
use python_xtr_messenger.Middleware.{and_then, perform, run}
use python_xtr_messenger.Middleware.Handle.{
  Locator, conclude, handle_message, run_all, run_handlers, unused,
}
use python_xtr_messenger.Middleware.Handle.Naming.{has_name-names, has_name-unused}
use python_xtr_messenger.Stamps.{Stamp, Value, handled, stamp_eq}

-- What one handler did.
pub record Attempt : Type 0 where
  pub name : String
  pub outcome : Result Error Value

-- The stamps of the handlers that returned, in order.
abbrev pub handled_stamps : List Attempt → List Stamp
handled_stamps [] = []
handled_stamps (a ∷ as') = elim a.outcome [
  | ok v ↦ handled a.name v ∷ handled_stamps as'
  | raise e ↦ handled_stamps as'
]

-- The exceptions of those that raised, in order.
abbrev pub raised_by : List Attempt → List Error
raised_by [] = []
raised_by (a ∷ as') = elim a.outcome [ ok v ↦ raised_by as' | raise e ↦ e ∷ raised_by as' ]

abbrev add_all : List Attempt → Errors → Errors
add_all [] es = es
add_all (a ∷ as') es = elim a.outcome [
  | ok v ↦ add_all as' es
  | raise e ↦ add_all as' (add (unused es a.name) e es)
]

raised-add_all :
    (as' : List Attempt) (es : Errors) → raised (add_all as' es) ≡ raised es ++ raised_by as'
raised-add_all [] es = sym (append-nil _)
raised-add_all (a ∷ as') es =
    elim a.outcome
      as (λ o.
        raised
          (elim o [ ok v ↦ add_all as' es | raise e ↦ add_all as' (add (unused es a.name) e es) ])
        ≡ raised es ++ (elim o [ ok v ↦ raised_by as' | raise e ↦ e ∷ raised_by as' ])) [
          | ok v ↦ raised-add_all as' es
          | raise e ↦
              raised-add_all as' (add (unused es a.name) e es)
              ∙ rw (raised-add (unused es a.name) e es)
                  (append_assoc (raised es) (e ∷ []) (raised_by as'))
        ]

module _ {W : Type 0} where
  -- One handler's turn: what it did, and the envelope after it.
  abbrev after : HandlerDescriptor W → Envelope → Result Error Value → Envelope
  after d env (ok v) = with_stamps env (handled d.name v ∷ [])
  after d env (raise e) = env

  -- Every handler in turn, each with the stamps of those before it that returned.
  abbrev pub attempts : List (HandlerDescriptor W) → Envelope → W → List Attempt × W
  attempts [] env w = ([], w)
  attempts (d ∷ ds) env w =
      let (r, w') = invoke d env w in
      let (as', w'') = attempts ds (after d env r) w' in
      (record { name = d.name; outcome = r } ∷ as', w'')

  -- The envelope, the exceptions and the state after the attempts of some handlers.
  abbrev summary : Envelope → Errors → List Attempt × W → Envelope × Errors × W
  summary env es (as', w) = (with_stamps env (handled_stamps as'), add_all as' es, w)

  turn :
      (d : HandlerDescriptor W) (ds : List (HandlerDescriptor W)) (env : Envelope) (es : Errors)
      (o : Result Error Value × W)
      → ((env' : Envelope) (es' : Errors) (w' : W)
          → run_handlers ds env' es' w' ≡ summary env' es' (attempts ds env' w'))
      → (elim o.0 [
        | ok result ↦ run_handlers ds (with_stamps env (handled d.name result ∷ [])) es o.1
        | raise e ↦ run_handlers ds env (add (unused es d.name) e es) o.1
      ])
        ≡ summary env es (
          record { name = d.name; outcome = o.0 } ∷ (attempts ds (after d env o.0) o.1).0,
          (attempts ds (after d env o.0) o.1).1,
        )
  turn d ds env es (ok v, w') ih =
      let stamp = handled d.name v in
      let (as', w'') = attempts ds (with_stamps env (stamp ∷ [])) w' in
      ih (with_stamps env (stamp ∷ [])) es w'
      ∙ ap (λ env'. (env', add_all as' es, w''))
          (with_stamps-append env (stamp ∷ []) (handled_stamps as'))
  turn d ds env es (raise e, w') ih = ih env (add (unused es d.name) e es) w'

  run_handlers-attempts :
      (ds : List (HandlerDescriptor W)) (env : Envelope) (es : Errors) (w : W)
      → run_handlers ds env es w ≡ summary env es (attempts ds env w)
  unfolding run_handlers
  run_handlers-attempts [] env es w = unfold with_stamps in refl
  run_handlers-attempts (d ∷ ds) env es w =
      turn d ds env es (invoke d env w) (run_handlers-attempts ds)

add_all-IsDistinct :
    (as' : List Attempt) (es : Errors) → IsDistinct (names es) → IsDistinct (names (add_all as' es))
add_all-IsDistinct [] es h = h
add_all-IsDistinct (a ∷ as') es h =
    elim a.outcome
      as (λ o. IsDistinct (
        names (elim o [
          | ok v ↦ add_all as' es
          | raise e ↦ add_all as' (add (unused es a.name) e es)
        ]))) [
          | ok v ↦ add_all-IsDistinct as' es h
          | raise e ↦ add_all-IsDistinct as' (add (unused es a.name) e es) (
              rw names-add (
                IsDistinct-snoc (names es) (unused es a.name) h
                  (sym (has_name-names (unused es a.name) es) ∙ has_name-unused es a.name)))
        ]

module _ {W : Type 0} (rest : Envelope → Exec Error W Envelope) where
  -- How the handlers `ds` conclude in `outcome`, given what they did.
  abbrev pub Concludes :
      List (HandlerDescriptor W) → Envelope → W → Result Error Envelope × W → Type 0
  Concludes ds env w outcome =
      let (as', w') = attempts ds env w in
      let stamped = with_stamps env (handled_stamps as') in
      ((raised_by as' ≡ []) × (outcome ≡ rest stamped w'))
      ⊎ ((es : Errors) × (outcome ≡ (raise (handlers_failed stamped es), w'))
          × (raised es ≡ raised_by as')
          × (raised es ≢ [])
          × IsDistinct (names es))

  conclude-Concludes :
      (ds : List (HandlerDescriptor W)) (env : Envelope) (w : W) (es : Errors)
      → raised es ≡ raised_by (attempts ds env w).0
      → IsDistinct (names es)
      → Concludes ds env w (
          run
            (conclude (with_stamps env (handled_stamps (attempts ds env w).0), es))
            rest
            (attempts ds env w).1)
  unfolding conclude run raised
  conclude-Concludes ds env w no_errors h d = inl (sym h, refl)
  conclude-Concludes ds env w (failure n e es) h d = inr (failure n e es, refl, h, λ p. cc, d)

  proceed-Concludes :
      (ds : List (HandlerDescriptor W)) (env : Envelope) (w : W)
      → Concludes ds env w (run (and_then (perform (run_all ds env)) conclude) rest w)
  unfolding run
  proceed-Concludes ds env w =
      let as' = (attempts ds env w).0 in
      subst (λ o. Concludes ds env w (run (conclude (o.0, o.1)) rest o.2))
        (sym (run_handlers-attempts ds env no_errors w))
        (conclude-Concludes ds env w (add_all as' no_errors)
          (raised-add_all as' no_errors ∙ unfold raised in refl)
          (add_all-IsDistinct as' no_errors (unfold names in tt)))

-- The test for a missing handler lets a dispatch with one, or with none required, proceed.
proceeds :
    {A B : Type 0} (refused proceed : A) (ds : List B) (b : Bool)
    → (ds ≢ []) ⊎ (b ≡ false)
    → (elim ds [ [] ↦ if b then refused else proceed | d ∷ ds' ↦ proceed ]) ≡ proceed
proceeds r p [] true (inl h) = absurd (h refl)
proceeds r p [] true (inr h) = cc
proceeds r p [] false h = refl
proceeds r p (d ∷ ds) b h = refl

module _ {W : Type 0} (k : Classes) (locator : Locator W) (require_handler : Bool) (env : Envelope)
    (rest : Envelope → Exec Error W Envelope) (w : W) where
  abbrev handlers_of : List (HandlerDescriptor W)
  handlers_of = locator.handlers_for (type_of_message env.message)

  handle_message-proceeds :
      ((handlers_of ≢ []) ⊎ (require_handler ≡ false))
      → handle_message k locator require_handler env
        ≡ and_then (perform (run_all handlers_of env)) conclude
  unfolding handle_message
  handle_message-proceeds h = proceeds _ _ handlers_of require_handler h

  going :
      ((handlers_of ≢ []) ⊎ (require_handler ≡ false))
      → Concludes rest handlers_of env w (run (handle_message k locator require_handler env) rest w)
  going h = rw (handle_message-proceeds h) (proceed-Concludes rest handlers_of env w)

  refuses :
      handlers_of ≡ []
      → require_handler ≡ true
      → run (handle_message k locator require_handler env) rest w ≡ (
        raise (
            no_handler_for_message
              (type_of_message env.message)
              (sorted (map k.qual_name locator.message_types))),
        w,
      )
  unfolding handle_message run
  refuses e h = ground arith

  -- Every handler of the message runs, in order, whichever of them raise. If none raised, the
  -- rest of the chain goes on with the envelope stamped by each; if some did, the dispatch raises
  -- all their exceptions, in order, under names that are all different, with the envelope stamped
  -- by those that returned. With no handler, the dispatch is refused, with nothing run, if a
  -- handler is required, and goes on otherwise.
  pub handle_message-outcome :
      (Concludes rest handlers_of env w (run (handle_message k locator require_handler env) rest w)
        × ((handlers_of ≢ []) ⊎ (require_handler ≡ false)))
      ⊎ ((handlers_of ≡ [])
          × (require_handler ≡ true)
          × (run (handle_message k locator require_handler env) rest w ≡ (
            raise (
                no_handler_for_message
                  (type_of_message env.message)
                  (sorted (map k.qual_name locator.message_types))),
            w,
          )))
  handle_message-outcome = elim (List-cases handlers_of) [
    | inr (d, ds, e) ↦ let h = inl (λ p. cc) in inl (going h, h)
    | inl e ↦ elim (Bool-cases require_handler) [
      | inr optional ↦ inl (going (inr optional), inr optional)
      | inl required ↦ inr (e, required, refuses e required)
    ]
  ]
