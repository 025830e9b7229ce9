-- ===== src/Handlers/Decorated.antt =====
-- Decorating: every handler that is called is the declared one, decorated by all the decorators.
pub mod Applied
use python_xtr_messenger.Base.{
  Dict, List, [], ap, arith, get, map, map-append, put, refl, sym, ◌++◌, ◌∙◌, ◌∷◌, ◌≡◌,
}
use python_xtr_messenger.Envelope.{MessageType, message_type_eq}
use python_xtr_messenger.Handlers.{
  Decorator, HandlerDescriptor, HandlersLocator, append_to, bound, decorate, decorate_all,
  decorated, new_locator, place, register,
}

module _ {W : Type 0} where
  -- What is called is what was declared, decorated.
  abbrev pub IsDecorated : HandlersLocator W → Type 0
  IsDecorated l = l.handlers ≡ decorate_all l.decorators l.declared

  pub get-decorate_all :
      (ws : List (Decorator W)) (t : MessageType)
      (d : Dict MessageType (List (HandlerDescriptor W)))
      → bound t (decorate_all ws d) ≡ map (decorated ws) (bound t d)
  unfolding bound decorate_all get
  get-decorate_all ws t [] = refl
  get-decorate_all ws t ((u, ds) ∷ d) = ground (arith, get-decorate_all ws t d)

  put-decorate_all :
      (ws : List (Decorator W)) (t : MessageType) (ds : List (HandlerDescriptor W))
      (d : Dict MessageType (List (HandlerDescriptor W)))
      → put t (map (decorated ws) ds) (decorate_all ws d) ≡ decorate_all ws (put t ds d)
  unfolding decorate_all put
  put-decorate_all ws t ds [] = refl
  put-decorate_all ws t ds ((u, es) ∷ d) = ground (arith, put-decorate_all ws t ds d)

  append_to-decorate_all :
      (ws : List (Decorator W)) (t : MessageType) (h : HandlerDescriptor W)
      (d : Dict MessageType (List (HandlerDescriptor W)))
      → append_to t (decorated ws h) (decorate_all ws d) ≡ decorate_all ws (append_to t h d)
  append_to-decorate_all ws t h d = rw (get-decorate_all ws t d) (
      ap (λ hs. put t hs (decorate_all ws d)) (sym (map-append (decorated ws) (bound t d) (h ∷ [])))
      ∙ put-decorate_all ws t (bound t d ++ h ∷ []) d)

  pub register-IsDecorated :
      (t : MessageType) (h : HandlerDescriptor W) (l : HandlersLocator W)
      → IsDecorated l
      → IsDecorated (register t h l).0
  unfolding register
  register-IsDecorated t h l e = rw e (append_to-decorate_all l.decorators t h l.declared)

  pub decorate-IsDecorated : (w : Decorator W) (l : HandlersLocator W) → IsDecorated (decorate w l)
  unfolding decorate
  decorate-IsDecorated w l = refl

-- A call on the registry.
pub data RegistryCall (W : Type 0) : Type 0 where
  registering : MessageType → HandlerDescriptor W → RegistryCall W
  decorating : Decorator W → RegistryCall W

module _ {W : Type 0} where
  unfoldable pub apply_all : List (RegistryCall W) → HandlersLocator W → HandlersLocator W
  apply_all [] l = l
  apply_all (registering t h ∷ cs) l = apply_all cs (register t h l).0
  apply_all (decorating w ∷ cs) l = apply_all cs (decorate w l)

  -- What the registrations among the calls declare, as if there were no decorator.
  abbrev pub declared_by :
      List (RegistryCall W)
      → Dict MessageType (List (HandlerDescriptor W))
      → Dict MessageType (List (HandlerDescriptor W))
  declared_by [] d = d
  declared_by (registering t h ∷ cs) d = declared_by cs (append_to t h d)
  declared_by (decorating w ∷ cs) d = declared_by cs d

  -- The decorators among the calls, as if there were no registration.
  abbrev pub decorators_of : List (RegistryCall W) → List (Decorator W) → List (Decorator W)
  decorators_of [] ws = ws
  decorators_of (registering t h ∷ cs) ws = decorators_of cs ws
  decorators_of (decorating w ∷ cs) ws = decorators_of cs (place w ws)

  apply_all_from :
      (cs : List (RegistryCall W)) (l : HandlersLocator W)
      → IsDecorated l
      → (apply_all cs l).handlers
        ≡ decorate_all (decorators_of cs l.decorators) (declared_by cs l.declared)
  unfolding apply_all register decorate
  apply_all_from [] l e = e
  apply_all_from (registering t h ∷ cs) l e =
      apply_all_from cs (register t h l).0 (register-IsDecorated t h l e)
  apply_all_from (decorating w ∷ cs) l e =
      apply_all_from cs (decorate w l) (decorate-IsDecorated w l)

  pub handlers-apply_all :
      (cs : List (RegistryCall W))
      → (apply_all cs new_locator).handlers ≡ decorate_all (decorators_of cs []) (declared_by cs [])
  handlers-apply_all cs = apply_all_from cs new_locator (unfold decorate_all in refl)
