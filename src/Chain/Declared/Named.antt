-- ===== src/Chain/Declared/Named.antt =====
-- What the registry finds by a name, the class says of itself.
use python_xtr_messenger.Base.{
  Bool, Eq, List, String, [], ap, contains, contains-append, false, get, get-put, if_neg, if_pos,
  inl, inr, refl, some, string_eq, sym, true, true_of_false, ◌++◌, ◌||◌, ◌∙◌, ◌∷◌, ◌≟◌, ◌≡◌, ◌⊎◌,
}
use python_xtr_messenger.Chain.Declared.{
  Declarations, as_middleware, attribute_of, declare_middlewares, middleware_declared_on,
  no_declarations, register_middleware,
}

module _ {C : Type 0} ⦃e : Eq C⦄ (bases : C → List C) where
  -- A class that the registry has under a name has a list of its own with the name in it.
  abbrev pub Listed : Declarations C → Type 0
  Listed d =
      (name : String) (c : C)
      → get name d.declared ≡ some c
      → (own : List String) × (get c d.written ≡ some own) × (contains own name ≡ true)

  declared_own :
      (c : C) (d : Declarations C) (own : List String)
      → get c d.written ≡ some own
      → middleware_declared_on bases c d ≡ own
  unfolding middleware_declared_on attribute_of
  declared_own c d own h = rw (h, middleware_declared_on, attribute_of) refl

  either_of : (a : Bool) {b : Bool} → (a ≡ true) ⊎ (b ≡ true) → (a || b) ≡ true
  either_of true h = refl
  either_of false (inl p) = true_of_false p
  either_of false (inr p) = p

  as_middleware-Listed :
      (name : String) (c : C) (d : Declarations C)
      → Listed d
      → Listed (as_middleware bases name c d)
  unfolding as_middleware register_middleware contains
  as_middleware-Listed name c d h name' c' found =
      let old = middleware_declared_on bases c d in
      elim (c ≟ c') [
        | yes same ↦ (
          old ++ name ∷ [],
          get-put c' c (old ++ name ∷ []) d.written ∙ if_pos (c ≟ c') same _ _,
          contains-append old (name ∷ []) name' ∙ elim (name ≟ name') [
            | yes p ↦ either_of (contains old name') (inr (if_pos (name ≟ name') p true false))
            | no p ↦
                let (own, written, there) =
                  h name' c'
                    (sym (get-put name' name c d.declared ∙ if_neg (name ≟ name') p _ _) ∙ found) in
                either_of (contains old name') (
                  inl (
                    ap (λ ns. contains ns name')
                      (declared_own c d own (ap (λ b. get b d.written) same ∙ written))
                    ∙ there))
          ],
        )
        | no differ ↦ elim (name ≟ name') [
          | yes p ↦ absurd (
              differ
                (cc (sym (get-put name' name c d.declared ∙ if_pos (name ≟ name') p _ _) ∙ found)))
          | no p ↦
              let (own, written, there) =
                h name' c'
                  (sym (get-put name' name c d.declared ∙ if_neg (name ≟ name') p _ _) ∙ found) in
              (
                own,
                get-put c' c (old ++ name ∷ []) d.written ∙ if_neg (c ≟ c') differ _ _ ∙ written,
                there,
              )
        ]
      ]

  -- After any declarations, in any order, what the registry finds by a name is a class that carries
  -- the name.
  pub contains-middleware_declared_on :
      (declarations : List (String × C)) (name : String) (c : C)
      → get name (declare_middlewares bases declarations no_declarations).declared ≡ some c
      → contains
          (middleware_declared_on bases c (declare_middlewares bases declarations no_declarations))
          name
        ≡ true
  unfolding declare_middlewares get
  contains-middleware_declared_on declarations name c found =
      let all_declared = declare_middlewares bases declarations no_declarations in
      let (own, written, there) = go declarations no_declarations (λ n b h. cc h) name c found in
      ap (λ ns. contains ns name) (declared_own c all_declared own written) ∙ there
    where
      go :
          (ds : List (String × C)) (d : Declarations C)
          → Listed d
          → Listed (declare_middlewares bases ds d)
      go [] d h = h
      go ((n, b) ∷ ds) d h = go ds (as_middleware bases n b d) (as_middleware-Listed n b d h)
