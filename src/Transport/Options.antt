-- ===== src/Transport/Options.antt =====
-- src/xtr_messenger/transport/transport_options.py. Python's `int` and `float` of a text are
-- parameters: none when they raise `ValueError`.
pub mod Checked
use python_xtr_messenger.Base.{
  Bool, Dict, List, Option, Result, String, [], contains, false, get, if◌then◌else◌, ite, joined,
  keys, none, not, ok, pos, raise, select, some, sorted, string_discrete, string_eq, true, ℤ, ◌+++◌,
  ◌∷◌, ◌≟◌,
}
use python_xtr_messenger.Errors.{Error, invalid_transport_option, unknown_transport_option}

-- `set(options) - set(known)`, as the list of its names
abbrev pub unknown_options : Dict String String → List String → List String
unknown_options options known = select (λ n. not (contains known n)) (keys options)

abbrev pub none_unknown : String → List String → List String → Result Error (Unit {0})
none_unknown scheme known [] = ok tt
none_unknown scheme known (n ∷ ns) = raise (unknown_transport_option scheme (n ∷ ns) (sorted known))

unfoldable pub reject_unknown_options :
    String → Dict String String → List String → Result Error (Unit {0})
unfolding sorted contains keys select string_discrete
reject_unknown_options scheme options known =
    none_unknown scheme known (sorted (unknown_options options known))

-- what follows `options.get(key)` in `as_bool`
abbrev pub bool_of : String → Bool → Option String → Result Error Bool
bool_of key fallback none = ok fallback
bool_of key fallback (some raw) =
    ite (raw ≟ "true") (ok true) (
      ite (raw ≟ "false") (ok false) (raise (invalid_transport_option key raw "'true' or 'false'")))

unfoldable pub as_bool : Dict String String → String → Bool → Result Error Bool
unfolding get string_discrete
as_bool options key fallback = bool_of key fallback (get key options)

unfoldable pub choice_of : String → List String → String → Option String → Result Error String
unfolding joined contains sorted
choice_of key allowed fallback none = ok fallback
choice_of key allowed fallback (some raw) =
    if contains allowed raw
    then ok raw
    else raise (invalid_transport_option key raw ("one of: " +++ joined (sorted allowed)))

unfoldable pub as_choice : Dict String String → String → List String → String → Result Error String
unfolding get choice_of string_discrete
as_choice options key allowed fallback = choice_of key allowed fallback (get key options)

-- what follows `options.get(key)` in `as_int` and `as_float`
abbrev pub number_of :
    {A : Type 0} → (String → Option A) → String → String → A → Option String → Result Error A
number_of read expected key fallback none = ok fallback
number_of read expected key fallback (some raw) = elim (read raw) [
  | none ↦ raise (invalid_transport_option key raw expected)
  | some value ↦ ok value
]

unfoldable pub as_int : (String → Option ℤ) → Dict String String → String → ℤ → Result Error ℤ
unfolding get string_discrete
as_int int_of options key fallback =
    number_of int_of "a whole number" key fallback (get key options)

-- `F` is the type of floats.
unfoldable pub as_float :
    {F : Type 0} → (String → Option F) → Dict String String → String → F → Result Error F
unfolding get string_discrete
as_float float_of options key fallback =
    number_of float_of "a number" key fallback (get key options)

abbrev pub optional : {A : Type 0} → Result Error A → Result Error (Option A)
optional (ok value) = ok (some value)
optional (raise e) = raise e

unfoldable pub as_optional_int :
    (String → Option ℤ) → Dict String String → String → Option ℤ → Result Error (Option ℤ)
unfolding as_int contains keys string_discrete
as_optional_int int_of settings key fallback =
    if contains (keys settings) key
    then optional (as_int int_of settings key (pos 0))
    else ok fallback

-- `nought` is `0.0`.
unfoldable pub as_optional_float :
    {F : Type 0}
    → F
    → (String → Option F)
    → Dict String String
    → String
    → Option F
    → Result Error (Option F)
unfolding as_float contains keys string_discrete
as_optional_float nought float_of settings key fallback =
    if contains (keys settings) key
    then optional (as_float float_of settings key nought)
    else ok fallback
