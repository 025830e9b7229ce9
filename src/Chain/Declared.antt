-- ===== src/Chain/Declared.antt =====
-- src/xtr_messenger/middleware/middleware_registry.py and decorator/as_middleware.py: middleware
-- classes declared by name. `C` is the type of classes.
pub mod Named
use python_xtr_messenger.Base.{
  Dict, Eq, List, String, [], get, none, put, some, string_discrete, string_eq, ◌++◌, ◌∷◌,
}

-- A `MiddlewareRegistry`, and what `as_middleware` wrote on classes. `declared` is `_declared`, and
-- `written` the attribute `__xtr_messenger_middleware_names__` of each class that has its own.
pub record Declarations (C : Type 0) : Type 0 where
  pub declared : Dict String C
  pub written : Dict C (List String)

abbrev pub no_declarations : {C : Type 0} → Declarations C
no_declarations = record { declared = []; written = [] }

module _ {C : Type 0} ⦃e : Eq C⦄ (bases : C → List C) where
  -- `getattr(target, MIDDLEWARE_ATTRIBUTE, ())`: that of the first class that has its own, among the
  -- class and its bases in the order of their resolution
  unfoldable pub attribute_of : Dict C (List String) → List C → List String
  attribute_of written [] = []
  attribute_of written (c ∷ cs) =
      let rest = attribute_of written cs in elim (get c written) [ none ↦ rest | some own ↦ own ]

  -- `middleware_declared_on`, of a class
  unfoldable pub middleware_declared_on : C → Declarations C → List String
  unfolding attribute_of
  middleware_declared_on c d = attribute_of d.written (c ∷ bases c)

  -- `MiddlewareRegistry.register`
  unfoldable pub register_middleware : String → C → Dict String C → Dict String C
  unfolding put string_discrete
  register_middleware name c declared = put name c declared

  -- `declare` of `as_middleware`
  unfoldable pub as_middleware : String → C → Declarations C → Declarations C
  unfolding register_middleware middleware_declared_on
  as_middleware name c d = record {
    declared = register_middleware name c d.declared;
    written = put c (middleware_declared_on c d ++ name ∷ []) d.written;
  }

  -- The declarations of a process, in order.
  unfoldable pub declare_middlewares : List (String × C) → Declarations C → Declarations C
  unfolding as_middleware
  declare_middlewares [] d = d
  declare_middlewares ((name, c) ∷ more) d = declare_middlewares more (as_middleware name c d)
