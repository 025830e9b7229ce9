-- ===== src/Transport/Options/Checked.antt =====
-- Which options an adapter accepts.
-- Every option that is given is a known one.
use python_xtr_messenger.Base.{
  All, Bool, Dict, List, String, [], ap, contains, false, if◌then◌else◌, keys, not, ok, refl,
  select, sorted, sorted_nil, string_eq, true, true_of_false, ◌↔◌, ◌∷◌, ◌≡◌,
}
use python_xtr_messenger.Transport.Options.{none_unknown, reject_unknown_options, unknown_options}

abbrev pub AllKnown : List String → List String → Type 0
AllKnown known ns = All (λ n. contains known n ≡ true) ns

none_unknown_iff :
    (known ns : List String) → (select (λ n. not (contains known n)) ns ≡ []) ↔ AllKnown known ns
unfolding select
none_unknown_iff known [] = (λ e. tt, λ h. refl)
none_unknown_iff known (n ∷ ns) = go (contains known n) (none_unknown_iff known ns)
  where
    go :
        (b : Bool)
        → ((select (λ m. not (contains known m)) ns ≡ []) ↔ AllKnown known ns)
        → ((if not b
              then n ∷ select (λ m. not (contains known m)) ns
              else select (λ m. not (contains known m)) ns)
            ≡ [])
          ↔ ((b ≡ true) × AllKnown known ns)
    go true ih = (λ e. (refl, ih.0 e), λ h. ih.1 h.1)
    go false ih = (λ e. cc e, λ h. true_of_false h.0)

none_unknown_ok :
    (scheme : String) (known ns : List String) → none_unknown scheme known ns ≡ ok tt → ns ≡ []
none_unknown_ok scheme known [] h = refl
none_unknown_ok scheme known (n ∷ ns) h = cc h

-- An adapter's options are accepted exactly when all of them are known.
pub reject_unknown_options_iff :
    (scheme : String) (options : Dict String String) (known : List String)
    → (reject_unknown_options scheme options known ≡ ok tt) ↔ AllKnown known (keys options)
unfolding reject_unknown_options sorted
reject_unknown_options_iff scheme options known =
    let ns = unknown_options options known in
    let iff = none_unknown_iff known (keys options) in
    (
      λ h. iff.0 (sorted_nil ns (none_unknown_ok scheme known (sorted ns) h)),
      λ h. ap (λ x. none_unknown scheme known (sorted x)) (iff.1 h),
    )
