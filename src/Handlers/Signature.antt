-- ===== src/Handlers/Signature.antt =====
-- `_wants_envelope` of src/xtr_messenger/handler/handler_descriptor.py: which shapes of a handler's
-- parameters the bus can call.
pub mod Shapes
use python_xtr_messenger.Base.{
  All, Bool, List, Result, String, [], false, if◌then◌else◌, ite, not, ok, raise, select,
  string_discrete, string_eq, true, ◌∷◌, ◌≟◌, ◌≡◌,
}
use python_xtr_messenger.Errors.{Error, handler_signature}

-- What a parameter's annotation is, as far as the code tells annotations apart.
pub data Hint : Type 0 where
  envelope_hint : Hint
  container_hint : Hint
  other_hint : Hint
  no_hint : Hint

abbrev pub Parameter : Type 0
Parameter = String × Hint

-- `_supplied_by_container`
unfoldable pub supplied_by_container : Hint → Bool
supplied_by_container container_hint = true
supplied_by_container _ = false

abbrev pub is_envelope : Hint → Bool
is_envelope envelope_hint = true
is_envelope _ = false

-- the parameters that the bus supplies
abbrev pub own_parameters : List Parameter → List Parameter
own_parameters ps = select (λ p. not (supplied_by_container p.1)) ps

-- `declared[: len(own)] == own`
unfoldable pub is_prefix : List String → List String → Bool
unfolding string_discrete
is_prefix [] ys = true
is_prefix (x ∷ xs) [] = false
is_prefix (x ∷ xs) (y ∷ ys) = let rest = is_prefix xs ys in ite (x ≟ y) rest false

unfoldable pub parameter_names : List Parameter → List String
parameter_names [] = []
parameter_names ((n, h) ∷ ps) = n ∷ parameter_names ps

-- the tests on the parameters of the bus, by their number
unfoldable pub check_own : List Parameter → Error → Result Error Bool
check_own [] e = raise e
check_own (p ∷ []) e = ok false
check_own (p ∷ q ∷ []) e = if is_envelope q.1 then ok true else raise e
check_own (p ∷ q ∷ r ∷ ps) e = raise e

unfoldable pub check_signature : String → List Parameter → Result Error Bool
unfolding check_own is_prefix parameter_names supplied_by_container
check_signature name ps =
    let error = handler_signature name (parameter_names ps) in
    if is_prefix (parameter_names (own_parameters ps)) (parameter_names ps)
    then check_own (own_parameters ps) error
    else raise error

-- The container supplies every parameter.
abbrev pub AllSupplied : List Parameter → Type 0
AllSupplied ps = All (λ p. supplied_by_container p.1 ≡ true) ps

-- The shapes that the bus can call, with what each asks for.
pub data Callable : List Parameter → Bool → Type 0 where
  with_message :
      {p : Parameter} {rest : List Parameter}
      → supplied_by_container p.1 ≡ false
      → AllSupplied rest
      → Callable (p ∷ rest) false
  with_message_and_envelope :
      {p q : Parameter} {rest : List Parameter}
      → supplied_by_container p.1 ≡ false
      → is_envelope q.1 ≡ true
      → AllSupplied rest
      → Callable (p ∷ q ∷ rest) true
