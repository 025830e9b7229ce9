-- ===== src/Chain/Layers.antt =====
-- `named_middleware` and `_Names`: names read through layers.
use mathlib.Core.Option
use python_xtr_messenger.Base.{
  Bool, Bool-cases, Dict, IsDistinct, List, Option, String, [], ap, arith, contains,
  contains-append, false, get, if◌then◌else◌, inl, inr, ite, keys, length, nat_eq, none, not,
  or_else, refl, some, string_discrete, string_eq, sym, true, ℕ, ◌&&◌, ◌++◌, ◌||◌, ◌∙◌, ◌∷◌, ◌≟◌,
  ◌≡◌,
}
use python_xtr_messenger.Chain.{Builder, NamedBuilders}

-- `dict.fromkeys(names)`, after those that were seen
unfoldable pub once_each : List String → List String → List String
unfolding contains string_discrete
once_each seen [] = []
once_each seen (n ∷ ns) =
    let again = once_each seen ns in
    let rest = once_each (n ∷ seen) ns in if contains seen n then again else n ∷ rest

module _ {A : Type 0} where
  -- `_Names.__getitem__`, without its exception
  unfoldable pub find_in : List (Dict String A) → String → Option A
  unfolding get string_discrete
  find_in [] name = none
  find_in (layer ∷ layers) name = or_else (get name layer) (find_in layers name)

  -- the names of the layers, the last layer first
  unfoldable pub names_of_layers : List (Dict String A) → List String
  unfolding keys
  names_of_layers [] = []
  names_of_layers (layer ∷ layers) = names_of_layers layers ++ keys layer

  -- `_Names.__iter__`
  unfoldable pub listed_in : List (Dict String A) → List String
  unfolding once_each names_of_layers
  listed_in layers = once_each [] (names_of_layers layers)

  -- `_Names.__len__`
  unfoldable pub count_listed : List (Dict String A) → ℕ
  unfolding listed_in
  count_listed layers = length (listed_in layers)

module _ {B M C : Type 0} where
  abbrev pub builders_of : (C → Builder B M) → Dict String C → Dict String (Builder B M)
  builders_of as_builder [] = []
  builders_of as_builder ((n, c) ∷ d) = (n, as_builder c) ∷ builders_of as_builder d

  abbrev pub layers_of :
      Builder B M
      → Dict String (Builder B M)
      → (C → Builder B M)
      → Dict String C
      → List (Dict String (Builder B M))
  layers_of logging own as_builder classes =
      own ∷ builders_of as_builder classes ∷ (("logging", logging) ∷ []) ∷ []

  -- `named_middleware`; `logging` builds the library's own, and a declared class is a builder
  unfoldable pub named_middleware :
      Builder B M
      → Dict String (Builder B M)
      → (C → Builder B M)
      → Dict String C
      → NamedBuilders B M
  unfolding find_in listed_in
  named_middleware logging own as_builder classes = record {
    find = find_in (layers_of logging own as_builder classes);
    listed = listed_in (layers_of logging own as_builder classes);
  }

abbrev pub is_some {ℓ} : {A : Type ℓ} → Option A → Bool
is_some none = false
is_some (some a) = true

contains-once_each :
    (seen ns : List String) (n : String)
    → contains (once_each seen ns) n ≡ (contains ns n && not (contains seen n))
unfolding once_each contains string_discrete
contains-once_each seen [] n = refl
contains-once_each seen (m ∷ ns) n =
    ground (arith, contains-once_each seen ns n, contains-once_each (m ∷ seen) ns n)

once_each-IsDistinct : (seen ns : List String) → IsDistinct (once_each seen ns)
unfolding once_each contains
once_each-IsDistinct seen [] = tt
once_each-IsDistinct seen (m ∷ ns) = elim (Bool-cases (contains seen m)) [
  | inl old ↦ rw old (once_each-IsDistinct seen ns)
  | inr new ↦
      rw new (contains-once_each (m ∷ seen) ns m ∙ ground arith, once_each-IsDistinct (m ∷ seen) ns)
]

contains-keys :
    {A : Type 0} (d : Dict String A) (n : String) → contains (keys d) n ≡ is_some (get n d)
unfolding keys get contains
contains-keys [] n = refl
contains-keys ((k, v) ∷ d) n = ground (arith, contains-keys d n)

is_some-or_else : {A : Type 0} (o p : Option A) → is_some (or_else o p) ≡ (is_some p || is_some o)
is_some-or_else none none = refl
is_some-or_else none (some p) = refl
is_some-or_else (some o) none = refl
is_some-or_else (some o) (some p) = refl

or_else-none : {A : Type 0} (o : Option A) → or_else o none ≡ o
or_else-none none = refl
or_else-none (some a) = refl

and-true : (b : Bool) → (b && not (contains {A = String} [] "")) ≡ b
unfolding contains
and-true true = refl
and-true false = refl

contains-names_of_layers :
    {A : Type 0} (layers : List (Dict String A)) (n : String)
    → contains (names_of_layers layers) n ≡ is_some (find_in layers n)
unfolding names_of_layers find_in contains
contains-names_of_layers [] n = refl
contains-names_of_layers (layer ∷ layers) n =
    contains-append (names_of_layers layers) (keys layer) n
    ∙ rw (contains-names_of_layers layers n, contains-keys layer n)
        (sym (is_some-or_else (get n layer) (find_in layers n)))

contains-listed_in :
    {A : Type 0} (layers : List (Dict String A)) (n : String)
    → contains (listed_in layers) n ≡ is_some (find_in layers n)
unfolding listed_in contains
contains-listed_in layers n =
    (contains-once_each [] (names_of_layers layers) n
      ∙ and-true (contains (names_of_layers layers) n)
      ∙ contains-names_of_layers layers n)

module _ {B M C : Type 0} (as_builder : C → Builder B M) where
  pub get-builders_of :
      (classes : Dict String C) (n : String)
      → get n (builders_of as_builder classes) ≡ Option.map as_builder (get n classes)
  unfolding get
  get-builders_of [] n = refl
  get-builders_of ((k, c) ∷ d) n = ground (arith, get-builders_of d n)

  -- What a name stands for is the application's own builder, else the class declared under it, else
  -- the library's if it is the library's; the names that are listed as known are exactly those that
  -- stand for something, each once.
  pub find-named_middleware :
      (logging : Builder B M) (own : Dict String (Builder B M)) (classes : Dict String C)
      → IsDistinct (named_middleware logging own as_builder classes).listed
        × ((n : String)
            → ((named_middleware logging own as_builder classes).find n
                ≡ or_else (get n own) (
                    or_else
                      (Option.map as_builder (get n classes))
                      (ite ("logging" ≟ n) (some logging) none)))
              × (contains (named_middleware logging own as_builder classes).listed n
                  ≡ is_some ((named_middleware logging own as_builder classes).find n)))
  unfolding named_middleware
  find-named_middleware logging own classes =
      let layers = layers_of logging own as_builder classes in
      (
        once_each-IsDistinct [] (names_of_layers layers),
        λ n. (
          rw (get-builders_of classes n) (
              ap (λ o. or_else (get n own) (or_else (Option.map as_builder (get n classes)) o))
                (or_else-none (ite ("logging" ≟ n) (some logging) none))),
          contains-listed_in layers n,
        ),
      )
