-- ===== src/Handlers/Signature/Shapes.antt =====
-- The shapes of parameters that `_wants_envelope` accepts are those that the bus can call.
-- The names of a signature's parameters are all different.
use python_xtr_messenger.Base.{
  All, Bool, Bool-cases, List, Result, String, [], ap, false, if_neg, if_pos, if◌then◌else◌, inl,
  inr, not, ok, raise, refl, select, string_eq, subst, sym, true, true_of_false, ◌↔◌, ◌∙◌, ◌∷◌, ◌≟◌,
  ◌≡◌, ◌≢◌,
}
use python_xtr_messenger.Errors.{Error, handler_signature}
use python_xtr_messenger.Handlers.Signature.{
  AllSupplied, Callable, Hint, Parameter, check_own, check_signature, container_hint, envelope_hint,
  is_envelope, is_prefix, no_hint, other_hint, own_parameters, parameter_names,
  supplied_by_container, with_message, with_message_and_envelope,
}

abbrev pub Unlike : String → List Parameter → Type 0
Unlike n ps = All (λ p. p.0 ≢ n) ps

abbrev pub DistinctNames : List Parameter → Type 0
DistinctNames [] = Unit
DistinctNames (p ∷ ps) = Unlike p.0 ps × DistinctNames ps

own_supplied :
    (p : Parameter) (ps : List Parameter)
    → supplied_by_container p.1 ≡ true
    → own_parameters (p ∷ ps) ≡ own_parameters ps
unfolding select
own_supplied p ps h = ap (λ b. if not b then p ∷ own_parameters ps else own_parameters ps) h

own_needed :
    (p : Parameter) (ps : List Parameter)
    → supplied_by_container p.1 ≡ false
    → own_parameters (p ∷ ps) ≡ p ∷ own_parameters ps
unfolding select
own_needed p ps h = ap (λ b. if not b then p ∷ own_parameters ps else own_parameters ps) h

own_of_supplied : (ps : List Parameter) → AllSupplied ps → own_parameters ps ≡ []
unfolding select
own_of_supplied [] h = refl
own_of_supplied (p ∷ ps) (h, hs) = own_supplied p ps h ∙ own_of_supplied ps hs

supplied_of_own : (ps : List Parameter) → own_parameters ps ≡ [] → AllSupplied ps
supplied_of_own [] e = tt
supplied_of_own (p ∷ ps) e = elim (Bool-cases (supplied_by_container p.1)) [
  | inl h ↦ (h, supplied_of_own ps (sym (own_supplied p ps h) ∙ e))
  | inr h ↦ cc (own_needed p ps h, e)
]

Unlike-own : (n : String) (ps : List Parameter) → Unlike n ps → Unlike n (own_parameters ps)
unfolding select
Unlike-own n [] u = tt
Unlike-own n (p ∷ ps) (u, us) = elim (Bool-cases (supplied_by_container p.1)) [
  | inl h ↦ subst (Unlike n) (sym (own_supplied p ps h)) (Unlike-own n ps us)
  | inr h ↦ subst (Unlike n) (sym (own_needed p ps h)) (u, Unlike-own n ps us)
]

-- Where the first parameter is the container's, so are all, if the others come first.
first_supplied :
    (p : Parameter) (ps own : List Parameter)
    → Unlike p.0 own
    → is_prefix (parameter_names own) (parameter_names (p ∷ ps)) ≡ true
    → own ≡ []
unfolding parameter_names is_prefix
first_supplied p ps [] u h = refl
first_supplied p ps (q ∷ qs) (u, us) h = true_of_false (sym (if_neg (q.0 ≟ p.0) u _ _) ∙ h)

prefix_tail : (n : String) (xs ys : List String) → is_prefix (n ∷ xs) (n ∷ ys) ≡ is_prefix xs ys
unfolding is_prefix
prefix_tail n xs ys = if_pos (n ≟ n) refl _ _

-- What the tests find of the parameters.
abbrev Accepts : List Parameter → List Parameter → Error → Bool → Type 0
Accepts own ps e b =
    (is_prefix (parameter_names own) (parameter_names ps) ≡ true) × (check_own own e ≡ ok b)

Accepts-none : (own ps : List Parameter) (e : Error) (b : Bool) → own ≡ [] → Accepts own ps e b → ⊥
unfolding check_own
Accepts-none own ps e b o (_, c) = cc (ap (λ x. check_own x e) o, c)

only_message :
    (p : Parameter) (ps : List Parameter) (e : Error) (b : Bool)
    → supplied_by_container p.1 ≡ false
    → AllSupplied ps
    → check_own (p ∷ own_parameters ps) e ≡ ok b
    → Callable (p ∷ ps) b
unfolding check_own
only_message p ps e b h a c =
    let is_false : false ≡ b = cc (sym (ap (λ x. check_own (p ∷ x) e) (own_of_supplied ps a)), c) in
    subst (Callable (p ∷ ps)) is_false (with_message h a)

both_needed :
    (p q : Parameter) (qs own : List Parameter) (e : Error) (b : Bool)
    → supplied_by_container p.1 ≡ false
    → own_parameters qs ≡ own
    → check_own (p ∷ q ∷ own) e ≡ ok b
    → Callable (p ∷ q ∷ qs) b
unfolding check_own
both_needed p q qs (r ∷ rs) e b h o c = cc c
both_needed p q qs [] e b h o c = go (is_envelope q.1) refl c
  where
    go :
        (i : Bool)
        → is_envelope q.1 ≡ i
        → (if i then ok true else raise e) ≡ ok b
        → Callable (p ∷ q ∷ qs) b
    go true i c =
        let is_true : true ≡ b = cc c in
        subst (Callable (p ∷ q ∷ qs)) is_true (with_message_and_envelope h i (supplied_of_own qs o))
    go false i c = cc c

after_message :
    (p : Parameter) (ps : List Parameter) (e : Error) (b : Bool)
    → DistinctNames ps
    → supplied_by_container p.1 ≡ false
    → is_prefix (parameter_names (own_parameters ps)) (parameter_names ps) ≡ true
    → check_own (p ∷ own_parameters ps) e ≡ ok b
    → Callable (p ∷ ps) b
after_message p [] e b d h i c = only_message p [] e b h tt c
after_message p (q ∷ qs) e b (u, us) h i c = elim (Bool-cases (supplied_by_container q.1)) [
  | inl s ↦
      only_message p (q ∷ qs) e b h
        (
          s,
          supplied_of_own qs (
              first_supplied q qs (own_parameters qs) (Unlike-own q.0 qs u) (
                sym (
                  ap (λ x. is_prefix (parameter_names x) (parameter_names (q ∷ qs)))
                    (own_supplied q qs s))
                ∙ i)),
        )
        c
  | inr n ↦
      both_needed p q qs (own_parameters qs) e b h refl
        (sym (ap (λ x. check_own (p ∷ x) e) (own_needed q qs n)) ∙ c)
]

Accepts-Callable :
    (ps : List Parameter) (e : Error) (b : Bool)
    → DistinctNames ps
    → Accepts (own_parameters ps) ps e b
    → Callable ps b
unfolding parameter_names select check_own
Accepts-Callable [] e b d (_, c) = cc c
Accepts-Callable (p ∷ ps) e b (u, us) (i, c) = elim (Bool-cases (supplied_by_container p.1)) [
  | inl s ↦ absurd (
      Accepts-none (own_parameters (p ∷ ps)) (p ∷ ps) e b
        (own_supplied p ps s
          ∙ first_supplied p ps (own_parameters ps) (Unlike-own p.0 ps u) (
              sym (
                ap (λ x. is_prefix (parameter_names x) (parameter_names (p ∷ ps)))
                  (own_supplied p ps s))
              ∙ i))
        (i, c))
  | inr n ↦
      after_message p ps e b us n
        (sym (prefix_tail p.0 (parameter_names (own_parameters ps)) (parameter_names ps))
          ∙ sym (
              ap (λ x. is_prefix (parameter_names x) (parameter_names (p ∷ ps)))
                (own_needed p ps n))
          ∙ i)
        (sym (ap (λ x. check_own x e) (own_needed p ps n)) ∙ c)
]

envelope_needed : (t : Hint) → is_envelope t ≡ true → supplied_by_container t ≡ false
unfolding supplied_by_container
envelope_needed envelope_hint h = refl
envelope_needed container_hint h = cc h
envelope_needed other_hint h = refl
envelope_needed no_hint h = refl

Callable-Accepts :
    (ps : List Parameter) (e : Error) (b : Bool)
    → Callable ps b
    → Accepts (own_parameters ps) ps e b
unfolding parameter_names check_own is_prefix
Callable-Accepts [] e b x = elim x [ ]
Callable-Accepts (p ∷ rest) e b (with_message h a) =
    let own : own_parameters (p ∷ rest) ≡ p ∷ [] =
      own_needed p rest h ∙ ap (◌∷◌ p) (own_of_supplied rest a) in
    subst (λ x. Accepts x (p ∷ rest) e false) (sym own)
      (prefix_tail p.0 [] (parameter_names rest), refl)
Callable-Accepts (p ∷ q ∷ rest) e b (with_message_and_envelope h i a) =
    let own : own_parameters (p ∷ q ∷ rest) ≡ p ∷ q ∷ [] =
      own_needed p (q ∷ rest) h
      ∙ ap (◌∷◌ p)
          (own_needed q rest (envelope_needed q.1 i) ∙ ap (◌∷◌ q) (own_of_supplied rest a)) in
    subst (λ x. Accepts x (p ∷ q ∷ rest) e true) (sym own)
      (
        prefix_tail p.0 (q.0 ∷ []) (q.0 ∷ parameter_names rest)
            ∙ prefix_tail q.0 [] (parameter_names rest),
        ap (λ x. if x then ok true else raise e) i,
      )

if_ok :
    (i : Bool) (c : Result Error Bool) (e : Error) (b : Bool)
    → ((if i then c else raise e) ≡ ok b) ↔ ((i ≡ true) × (c ≡ ok b))
if_ok true c e b = (λ h. (refl, h), λ h. h.1)
if_ok false c e b = (λ h. cc h, λ h. true_of_false h.0)

-- A handler whose parameters have different names is accepted, as taking the message alone or the
-- message and the envelope, exactly when the bus can call it so: its first parameters are those that
-- the bus passes, by position, and the container supplies all others.
pub check_signature-Callable :
    (name : String) (ps : List Parameter) (b : Bool)
    → DistinctNames ps
    → (check_signature name ps ≡ ok b) ↔ Callable ps b
unfolding check_signature
check_signature-Callable name ps b d =
    let e = handler_signature name (parameter_names ps) in
    let own = own_parameters ps in
    let tests =
      if_ok (is_prefix (parameter_names own) (parameter_names ps)) (check_own own e) e b in
    (λ h. Accepts-Callable ps e b d (tests.0 h), λ h. tests.1 (Callable-Accepts ps e b h))
