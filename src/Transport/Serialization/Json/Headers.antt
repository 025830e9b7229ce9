-- ===== src/Transport/Serialization/Json/Headers.antt =====
-- The headers that `JsonSerializer.encode` puts together, and what `decode` reads of them.
-- No two entries under one key.
use python_xtr_messenger.Base.{
  All, All-map, All-of, All-right, Dict, List, Result, String, [], ap, append-nil, append_assoc,
  if_neg, keys, none, ok, put, raise, refl, some, string_eq, strip_prefix, strip_prefix-append,
  subst, sym, ℕ_discrete, ◌+++◌, ◌++◌, ◌∙◌, ◌∷◌, ◌≟◌, ◌≡◌, ◌≢◌,
}
use python_xtr_messenger.Stamps.{Stamp, StampType, stamp_eq, stamp_type_eq}
use python_xtr_messenger.Transport.Serialization.Json.{
  Writer, and_header, stamp_header_prefix, type_header, update, write_groups, written_as,
}
use python_xtr_messenger.Transport.Serialization.Json.Grouping.{Grouped, not_a_key}

abbrev pub DistinctKeys : Dict String String → Type 0
DistinctKeys [] = Unit
DistinctKeys ((k, v) ∷ d) = All (λ p. p.0 ≢ k) d × DistinctKeys d

put_fresh :
    (k v : String) (d : Dict String String) → All (λ p. p.0 ≢ k) d → put k v d ≡ d ++ (k, v) ∷ []
unfolding put
put_fresh k v [] h = refl
put_fresh k v ((j, w) ∷ d) (h, hs) = if_neg (j ≟ k) h _ _ ∙ ap (◌∷◌ (j, w)) (put_fresh k v d hs)

distinct_before :
    (k v : String) (acc d : Dict String String)
    → DistinctKeys (acc ++ (k, v) ∷ d)
    → All (λ p. p.0 ≢ k) acc
distinct_before k v [] d h = tt
distinct_before k v ((a, x) ∷ acc) d (h, hs) =
    (λ e. (All-right (λ p. p.0 ≢ a) acc ((k, v) ∷ d) h).0 (sym e), distinct_before k v acc d hs)

-- An update by new keys appends.
pub update_fresh : (acc d : Dict String String) → DistinctKeys (acc ++ d) → update acc d ≡ acc ++ d
unfolding update
update_fresh acc [] h = sym (append-nil acc)
update_fresh acc ((k, v) ∷ d) h =
    ap (λ a. update a d) (put_fresh k v acc (distinct_before k v acc d h))
    ∙ update_fresh (acc ++ (k, v) ∷ []) d
        (subst DistinctKeys (sym (append_assoc acc ((k, v) ∷ []) d)) h)
    ∙ append_assoc acc ((k, v) ∷ []) d

-- A stamp header class_names one class.
header_injective : (a b : String) → stamp_header_prefix +++ a ≡ stamp_header_prefix +++ b → a ≡ b
header_injective a b e =
    let same : some a ≡ some b =
      sym (strip_prefix-append stamp_header_prefix a)
      ∙ ap (strip_prefix stamp_header_prefix) e
      ∙ strip_prefix-append stamp_header_prefix b in
    cc same

pub type_has_no_prefix : strip_prefix stamp_header_prefix type_header ≡ none
unfolding strip_prefix ℕ_discrete
type_has_no_prefix = refl

header_not_type : (a : String) → stamp_header_prefix +++ a ≢ type_header
header_not_type a e = cc (
    sym (strip_prefix-append stamp_header_prefix a)
    ∙ ap (strip_prefix stamp_header_prefix) e
    ∙ type_has_no_prefix)

-- What two parts of a result that is there are.
pub and_header_ok :
    (header : String) (a : Result String String) (b : Result String (Dict String String))
    (headers : Dict String String)
    → and_header header a b ≡ ok headers
    → (value : String) × (more : Dict String String) × (a ≡ ok value)
      × (b ≡ ok more)
      × (headers ≡ (header, value) ∷ more)
and_header_ok header (raise e) b headers h = cc h
and_header_ok header (ok value) (raise e) headers h = cc h
and_header_ok header (ok value) (ok more) headers h = (value, more, refl, refl, cc h)

module _ (w : Writer) where
  write_keys :
      (P : String → Type 0) (groups : Dict String (List Stamp)) (headers : Dict String String)
      → All (λ k. P (stamp_header_prefix +++ k)) (keys groups)
      → write_groups w groups ≡ ok headers
      → All (λ p. P p.0) headers
  unfolding write_groups keys
  write_keys P [] headers h e = subst (All (λ p. P p.0)) {x = []} (cc e) tt
  write_keys P ((k, group) ∷ groups) headers (h, hs) e =
      let (value, more, _, rest, shape) =
        and_header_ok (stamp_header_prefix +++ k) (w.serialize_stamps (written_as group) group)
          (write_groups w groups) headers e in
      subst (All (λ p. P p.0)) (sym shape) (h, write_keys P groups more hs rest)

  write_DistinctKeys :
      (class_names : StampType → String) (groups : Dict String (List Stamp))
      (headers : Dict String String)
      → Grouped class_names groups
      → write_groups w groups ≡ ok headers
      → DistinctKeys headers
  unfolding write_groups
  write_DistinctKeys class_names [] headers g e = subst DistinctKeys {x = []} (cc e) tt
  write_DistinctKeys class_names ((k, group) ∷ groups) headers (g, others, gs) e =
      let (value, more, _, rest, shape) =
        and_header_ok (stamp_header_prefix +++ k) (w.serialize_stamps (written_as group) group)
          (write_groups w groups) headers e in
      subst DistinctKeys (sym shape) (
        write_keys (λ x. x ≢ stamp_header_prefix +++ k) groups more
            (All-map (λ a. a ≢ k) (λ a. stamp_header_prefix +++ a ≢ stamp_header_prefix +++ k)
              (λ a d e. d (header_injective a k e)) (keys groups)
              (not_a_key class_names k groups gs others))
            rest,
        write_DistinctKeys class_names groups more gs rest,
      )

  -- The headers of an encoded envelope are its type's and then those of the groups.
  pub update_type :
      (class_names : StampType → String) (groups : Dict String (List Stamp))
      (headers : Dict String String) (name : String)
      → Grouped class_names groups
      → write_groups w groups ≡ ok headers
      → update ((type_header, name) ∷ []) headers ≡ (type_header, name) ∷ headers
  update_type class_names groups headers name g e =
      update_fresh ((type_header, name) ∷ []) headers (
        write_keys (λ x. x ≢ type_header) groups headers
            (All-of (λ k. stamp_header_prefix +++ k ≢ type_header) header_not_type (keys groups)) e,
        write_DistinctKeys class_names groups headers g e,
      )
