-- ===== src/Handlers.antt =====
-- src/xtr_messenger/handler/handler_descriptor.py and handler/handlers_locator.py. `W` is the
-- state of the application, which a handler may change.
pub mod Signature
pub mod Lookup
pub mod Decorated
use python_xtr_messenger.Base.{
  Bool, Dict, Exec, List, Option, String, [], contains, get, if◌then◌else◌, ite, keys, map, nat_eq,
  none, put, some, string_eq, ℕ, ◌++◌, ◌∷◌, ◌≟◌,
}
use python_xtr_messenger.Classes.{Classes}
use python_xtr_messenger.Envelope.{
  Envelope, Message, MessageType, MessageType-discrete, message_type_eq,
}
use python_xtr_messenger.Errors.{Error}
use python_xtr_messenger.Stamps.{Value}

-- `handler` is the identity, `id(...)`, of what was declared.
pub record HandlerDescriptor (W : Type 0) : Type 0 where
  pub handler : ℕ
  pub name : String
  pub wants_envelope : Bool
  pub call : Message → Option Envelope → Exec Error W Value

-- A decorator given to `decorate`; `key` stands for what `==` compares of it.
pub record Decorator (W : Type 0) : Type 0 where
  pub key : ℕ
  pub wrap : HandlerDescriptor W → HandlerDescriptor W

pub record HandlersLocator (W : Type 0) : Type 0 where
  pub declared : Dict MessageType (List (HandlerDescriptor W))
  pub handlers : Dict MessageType (List (HandlerDescriptor W))
  pub decorators : List (Decorator W)

module _ {W : Type 0} where
  -- `HandlerDescriptor.invoke`
  unfoldable pub invoke : HandlerDescriptor W → Envelope → Exec Error W Value
  invoke d e = if d.wants_envelope then d.call e.message (some e) else d.call e.message none

  abbrev pub new_locator : HandlersLocator W
  new_locator = record { declared = []; handlers = []; decorators = [] }

  -- `_decorated`
  unfoldable pub decorated : List (Decorator W) → HandlerDescriptor W → HandlerDescriptor W
  decorated [] d = d
  decorated (w ∷ ws) d = decorated ws (w.wrap d)

  -- `d.get(message_type, ())`
  unfoldable pub bound :
      MessageType → Dict MessageType (List (HandlerDescriptor W)) → List (HandlerDescriptor W)
  unfolding MessageType-discrete
  bound t d = elim (get t d) [ none ↦ [] | some ds ↦ ds ]

  abbrev pub append_to :
      MessageType
      → HandlerDescriptor W
      → Dict MessageType (List (HandlerDescriptor W))
      → Dict MessageType (List (HandlerDescriptor W))
  append_to t h d = put t (bound t d ++ h ∷ []) d

  -- `register`, given the descriptor that `HandlerDescriptor.of` made
  unfoldable pub register :
      MessageType
      → HandlerDescriptor W
      → HandlersLocator W
      → HandlersLocator W × HandlerDescriptor W
  register t h l = (
    record l {
      declared = append_to t h l.declared;
      handlers = append_to t (decorated l.decorators h) l.handlers;
    },
    decorated l.decorators h,
  )

  -- the two loops of `handlers_for`: over the handlers of one class, and over the classes
  unfoldable pub collect :
      List (HandlerDescriptor W)
      → List ℕ × List (HandlerDescriptor W)
      → List ℕ × List (HandlerDescriptor W)
  unfolding contains
  collect [] (seen, found) = (seen, found)
  collect (d ∷ ds) (seen, found) =
      collect ds
        (if contains seen d.handler then (seen, found) else (d.handler ∷ seen, found ++ d ∷ []))

  unfoldable pub collect_bases :
      Dict MessageType (List (HandlerDescriptor W))
      → List MessageType
      → List ℕ × List (HandlerDescriptor W)
      → List ℕ × List (HandlerDescriptor W)
  unfolding collect bound
  collect_bases d [] acc = acc
  collect_bases d (base ∷ bases) acc = collect_bases d bases (collect (bound base d) acc)

  unfoldable pub handlers_for :
      Classes → HandlersLocator W → MessageType → List (HandlerDescriptor W)
  unfolding collect_bases
  handlers_for k l t = (collect_bases l.handlers (k.mro t) ([], [])).1

  unfoldable pub message_types : HandlersLocator W → List MessageType
  message_types l = keys l.handlers

  -- `decorators[decorators.index(wrap)] = wrap`, or `decorators.append(wrap)`
  unfoldable pub place : Decorator W → List (Decorator W) → List (Decorator W)
  place w [] = w ∷ []
  place w (v ∷ vs) = ite (v.key ≟ w.key) (w ∷ vs) (v ∷ place w vs)

  unfoldable pub decorate_all :
      List (Decorator W)
      → Dict MessageType (List (HandlerDescriptor W))
      → Dict MessageType (List (HandlerDescriptor W))
  decorate_all ws [] = []
  decorate_all ws ((t, ds) ∷ d) = (t, map (decorated ws) ds) ∷ decorate_all ws d

  unfoldable pub decorate : Decorator W → HandlersLocator W → HandlersLocator W
  unfolding place decorate_all
  decorate w l =
      let ws = place w l.decorators in
      record l { decorators = ws; handlers = decorate_all ws l.declared }
