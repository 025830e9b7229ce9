-- ===== src/Handlers/Decorated/Applied.antt =====
-- Which decorators a handler that is called has, and in which order.
use python_xtr_messenger.Base.{
  Bool, Dict, IsDistinct, IsDistinct-snoc, List, [], ap, append-nil, append_assoc, arith, contains,
  false, fun_ext, get, get-put, if◌then◌else◌, ite, map, nat_eq, refl, subst, sym, true, ℕ, ◌++◌,
  ◌∙◌, ◌∷◌, ◌≟◌, ◌≡◌,
}
use python_xtr_messenger.Envelope.{MessageType, message_type_eq}
use python_xtr_messenger.Handlers.{
  Decorator, HandlerDescriptor, append_to, bound, decorated, new_locator, place,
}
use python_xtr_messenger.Handlers.Decorated.{
  RegistryCall, apply_all, declared_by, decorating, decorators_of, get-decorate_all,
  handlers-apply_all, registering,
}

module _ {W : Type 0} where
  -- The first decorator is applied to the handler itself, each other to what the one before it made.
  abbrev pub applied : List (Decorator W) → HandlerDescriptor W → HandlerDescriptor W
  applied [] d = d
  applied (w ∷ ws) d = applied ws (w.wrap d)

  abbrev pub keys_of : List (Decorator W) → List ℕ
  keys_of [] = []
  keys_of (w ∷ ws) = w.key ∷ keys_of ws

  -- One decorator more: it stands for all that are equal to it, where they stood, or comes last.
  abbrev pub instead : Decorator W → List (Decorator W) → List (Decorator W)
  instead w [] = []
  instead w (v ∷ vs) = ite (v.key ≟ w.key) w v ∷ instead w vs

  abbrev pub one_more : Decorator W → List (Decorator W) → List (Decorator W)
  one_more w ws = if contains (keys_of ws) w.key then instead w ws else ws ++ w ∷ []

  -- The decorators that the calls give.
  abbrev pub given_by : List (RegistryCall W) → List (Decorator W) → List (Decorator W)
  given_by [] ws = ws
  given_by (registering t h ∷ cs) ws = given_by cs ws
  given_by (decorating w ∷ cs) ws = given_by cs (one_more w ws)

  -- The handlers that the calls register for a class, in order.
  abbrev pub registered_for : MessageType → List (RegistryCall W) → List (HandlerDescriptor W)
  registered_for t [] = []
  registered_for t (registering u h ∷ cs) =
      let rest = registered_for t cs in ite (u ≟ t) (h ∷ rest) rest
  registered_for t (decorating w ∷ cs) = registered_for t cs

  decorated-applied :
      (ws : List (Decorator W)) (d : HandlerDescriptor W) → decorated ws d ≡ applied ws d
  unfolding decorated
  decorated-applied [] d = refl
  decorated-applied (w ∷ ws) d = decorated-applied ws (w.wrap d)

  map-decorated :
      (ws : List (Decorator W)) (ds : List (HandlerDescriptor W))
      → map (decorated ws) ds ≡ map (applied ws) ds
  map-decorated ws ds = ap (λ f. map f ds) (fun_ext (decorated-applied ws))

  instead_absent :
      (w : Decorator W) (ws : List (Decorator W))
      → contains (keys_of ws) w.key ≡ false
      → instead w ws ≡ ws
  unfolding contains
  instead_absent w [] h = refl
  instead_absent w (v ∷ vs) h = ground (arith, instead_absent w vs)

  place-one_more :
      (w : Decorator W) (ws : List (Decorator W))
      → IsDistinct (keys_of ws)
      → place w ws ≡ one_more w ws
  unfolding place contains
  place-one_more w [] h = refl
  place-one_more w (v ∷ vs) (h, hs) = ground (arith, place-one_more w vs hs, instead_absent w vs)

  keys_of-instead :
      (w : Decorator W) (ws : List (Decorator W)) → keys_of (instead w ws) ≡ keys_of ws
  keys_of-instead w [] = refl
  keys_of-instead w (v ∷ vs) = ground (arith, keys_of-instead w vs)

  keys_of-append :
      (w : Decorator W) (ws : List (Decorator W))
      → keys_of (ws ++ w ∷ []) ≡ keys_of ws ++ w.key ∷ []
  keys_of-append w [] = refl
  keys_of-append w (v ∷ vs) = ap (◌∷◌ v.key) (keys_of-append w vs)

  one_more-IsDistinct :
      (w : Decorator W) (ws : List (Decorator W))
      → IsDistinct (keys_of ws)
      → IsDistinct (keys_of (one_more w ws))
  one_more-IsDistinct w ws h = go (contains (keys_of ws) w.key) refl
    where
      go :
          (b : Bool)
          → contains (keys_of ws) w.key ≡ b
          → IsDistinct (keys_of (if b then instead w ws else ws ++ w ∷ []))
      go true e = subst IsDistinct (sym (keys_of-instead w ws)) h
      go false e =
          subst IsDistinct (sym (keys_of-append w ws)) (IsDistinct-snoc (keys_of ws) w.key h e)

  decorators_of-given_by :
      (cs : List (RegistryCall W)) (ws : List (Decorator W))
      → IsDistinct (keys_of ws)
      → decorators_of cs ws ≡ given_by cs ws
  decorators_of-given_by [] ws h = refl
  decorators_of-given_by (registering t h' ∷ cs) ws h = decorators_of-given_by cs ws h
  decorators_of-given_by (decorating w ∷ cs) ws h =
      ap (decorators_of cs) (place-one_more w ws h)
      ∙ decorators_of-given_by cs (one_more w ws) (one_more-IsDistinct w ws h)

  bound-append_to :
      (t u : MessageType) (h : HandlerDescriptor W)
      (d : Dict MessageType (List (HandlerDescriptor W)))
      → bound t (append_to u h d) ≡ ite (u ≟ t) (bound t d ++ h ∷ []) (bound t d)
  unfolding bound
  bound-append_to t u h d = ground (arith, get-put t u (bound u d ++ h ∷ []) d)

  ite_append :
      {P : Type 0} (q : Dec P) (xs rs : List (HandlerDescriptor W)) (h : HandlerDescriptor W)
      → ite q (xs ++ h ∷ []) xs ++ rs ≡ xs ++ ite q (h ∷ rs) rs
  ite_append (yes p) xs rs h = append_assoc xs (h ∷ []) rs
  ite_append (no p) xs rs h = refl

  bound-declared_by :
      (t : MessageType) (cs : List (RegistryCall W))
      (d : Dict MessageType (List (HandlerDescriptor W)))
      → bound t (declared_by cs d) ≡ bound t d ++ registered_for t cs
  bound-declared_by t [] d = sym (append-nil (bound t d))
  bound-declared_by t (decorating w ∷ cs) d = bound-declared_by t cs d
  bound-declared_by t (registering u h ∷ cs) d =
      bound-declared_by t cs (append_to u h d)
      ∙ ap (λ hs. hs ++ registered_for t cs) (bound-append_to t u h d)
      ∙ ite_append (u ≟ t) (bound t d) (registered_for t cs) h

  -- Whatever the order in which handlers are registered and decorators given, what is called for a
  -- class is each handler that was registered for it, in order, with all decorators applied to it,
  -- each to what those given before it made; a decorator equal to an earlier one takes its place.
  pub bound-apply_all :
      (cs : List (RegistryCall W)) (t : MessageType)
      → bound t (apply_all cs new_locator).handlers
        ≡ map (applied (given_by cs [])) (registered_for t cs)
  unfolding bound get
  bound-apply_all cs t =
      ap (bound t) (handlers-apply_all cs)
      ∙ get-decorate_all (decorators_of cs []) t (declared_by cs [])
      ∙ ap (map (decorated (decorators_of cs []))) (bound-declared_by t cs [])
      ∙ map-decorated (decorators_of cs []) (registered_for t cs)
      ∙ ap (λ ws. map (applied ws) (registered_for t cs)) (decorators_of-given_by cs [] tt)
