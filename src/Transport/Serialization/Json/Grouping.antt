-- ===== src/Transport/Serialization/Json/Grouping.antt =====
-- `JsonSerializer._encode_stamps`: the grouping of stamps by class name.
-- All that the groups hold, group after group.
use python_xtr_messenger.Base.{
  All, All-append, All-left, All-right, Bool, Bool-cases, Dict, List, String, [], ap, append-nil,
  append_assoc, false, if_neg, if_pos, if◌then◌else◌, inl, inr, ite, keys, refl, select,
  select-append, string_eq, subst, sym, true, true_of_false, ◌++◌, ◌∙◌, ◌∷◌, ◌≟◌, ◌≡◌, ◌≢◌, ◌⊎◌,
}
use python_xtr_messenger.StampRegistry.{stamp_name}
use python_xtr_messenger.Stamps.{
  Stamp, StampType, StampType-discrete, stamp_eq, stamp_type_eq, type_of,
}
use python_xtr_messenger.Transport.Serialization.Json.{append_group, group_from}

abbrev pub flat : Dict String (List Stamp) → List Stamp
flat [] = []
flat ((key, group) ∷ groups) = group ++ flat groups

-- The stamps of exactly one class.
abbrev pub of_type : StampType → Stamp → Bool
of_type t s = ite (StampType-discrete (type_of s) t) true false

type_of-true : (t : StampType) (s : Stamp) → of_type t s ≡ true → type_of s ≡ t
type_of-true t s h = elim (StampType-discrete (type_of s) t) [
  | yes e ↦ e
  | no d ↦ true_of_false (sym (if_neg (StampType-discrete (type_of s) t) d true false) ∙ h)
]

unselected : (p : Stamp → Bool) (s : Stamp) → p s ≡ false → select p (s ∷ []) ≡ []
unfolding select
unselected p s e = rw e refl

-- A value at the end of one list, before a list that has nothing selected with it.
snoc_past :
    (p : Stamp → Bool) (xs ys : List Stamp) (s : Stamp)
    → (p s ≡ true → select p ys ≡ [])
    → select p ((xs ++ s ∷ []) ++ ys) ≡ select p (xs ++ ys) ++ select p (s ∷ [])
snoc_past p xs ys s h =
    select-append p (xs ++ s ∷ []) ys
    ∙ ap (λ l. l ++ select p ys) (select-append p xs (s ∷ []))
    ∙ go (Bool-cases (p s))
    ∙ ap (λ l. l ++ select p (s ∷ [])) (sym (select-append p xs ys))
  where
    go :
        (p s ≡ true) ⊎ (p s ≡ false)
        → (select p xs ++ select p (s ∷ [])) ++ select p ys
          ≡ (select p xs ++ select p ys) ++ select p (s ∷ [])
    go (inl e) = rw (h e, append-nil, append-nil) refl
    go (inr e) =
        let alone : select p (s ∷ []) ≡ [] = unselected p s e in
        rw (alone, append-nil, append-nil) refl

module _ (names : StampType → String) where
  abbrev pub header_name : Stamp → String
  header_name s = stamp_name names (type_of s)

  -- A group that is not empty, under the name that all its stamps have.
  abbrev pub IsGroup : String → List Stamp → Type 0
  IsGroup key [] = ⊥
  IsGroup key (s ∷ ss) = All (λ x. header_name x ≡ key) (s ∷ ss)

  -- Groups, one for each name.
  abbrev pub Grouped : Dict String (List Stamp) → Type 0
  Grouped [] = Unit
  Grouped ((key, group) ∷ groups) =
      IsGroup key group × All (λ x. header_name x ≢ key) (flat groups) × Grouped groups

  append_group_here :
      (key name : String) (group : List Stamp) (s : Stamp) (groups : Dict String (List Stamp))
      → key ≡ name
      → append_group name s ((key, group) ∷ groups) ≡ (key, group ++ s ∷ []) ∷ groups
  unfolding append_group
  append_group_here key name group s groups e = if_pos (key ≟ name) e _ _

  append_group_later :
      (key name : String) (group : List Stamp) (s : Stamp) (groups : Dict String (List Stamp))
      → key ≢ name
      → append_group name s ((key, group) ∷ groups) ≡ (key, group) ∷ append_group name s groups
  unfolding append_group
  append_group_later key name group s groups d = if_neg (key ≟ name) d _ _

  -- Of a class with another name, a list has no stamp.
  none_of :
      (t : StampType) (xs : List Stamp)
      → All (λ x. header_name x ≢ stamp_name names t) xs
      → select (of_type t) xs ≡ []
  unfolding select
  none_of t [] h = refl
  none_of t (x ∷ xs) (h, hs) =
      ap (λ b. if b then x ∷ select (of_type t) xs else select (of_type t) xs)
        (if_neg (StampType-discrete (type_of x) t) (λ e. h (ap (stamp_name names) e)) true false)
      ∙ none_of t xs hs

  -- A stamp at the end of its group, seen by class, is at the end of all.
  past_others :
      (t : StampType) (group others : List Stamp) (s : Stamp)
      → All (λ x. header_name x ≢ header_name s) others
      → select (of_type t) ((group ++ s ∷ []) ++ others)
        ≡ select (of_type t) (group ++ others) ++ select (of_type t) (s ∷ [])
  past_others t group others s h =
      snoc_past (of_type t) group others s (λ e. none_of t others (go e h))
    where
      go :
          of_type t s ≡ true
          → All (λ x. header_name x ≢ header_name s) others
          → All (λ x. header_name x ≢ stamp_name names t) others
      go e =
          subst
            (λ n.
              All (λ x. header_name x ≢ header_name s) others → All (λ x. header_name x ≢ n) others)
            (ap (stamp_name names) (type_of-true t s e)) (λ k. k)

  flat-append_group :
      (t : StampType) (s : Stamp) (groups : Dict String (List Stamp))
      → Grouped groups
      → select (of_type t) (flat (append_group (header_name s) s groups))
        ≡ select (of_type t) (flat groups) ++ select (of_type t) (s ∷ [])
  unfolding append_group select
  flat-append_group t s [] h = refl
  flat-append_group t s ((key, group) ∷ groups) (g, others, rest) = elim (key ≟ header_name s) [
    | yes e ↦
        ap (λ d. select (of_type t) (flat d))
          (append_group_here key (header_name s) group s groups e)
        ∙ past_others t group (flat groups) s
            (subst (λ k. All (λ x. header_name x ≢ k) (flat groups)) e others)
    | no d ↦
        ap (λ d. select (of_type t) (flat d))
          (append_group_later key (header_name s) group s groups d)
        ∙ select-append (of_type t) group (flat (append_group (header_name s) s groups))
        ∙ ap (◌++◌ (select (of_type t) group)) (flat-append_group t s groups rest)
        ∙ sym (append_assoc (select (of_type t) group) _ _)
        ∙ ap (λ l. l ++ select (of_type t) (s ∷ []))
            (sym (select-append (of_type t) group (flat groups)))
  ]

  All-flat :
      (P : Stamp → Type 0) (s : Stamp) (groups : Dict String (List Stamp))
      → P s
      → All P (flat groups)
      → All P (flat (append_group (header_name s) s groups))
  unfolding append_group
  All-flat P s [] h k = (h, tt)
  All-flat P s ((key, group) ∷ groups) h k = elim (key ≟ header_name s) [
    | yes e ↦
        subst (λ d. All P (flat d)) (sym (append_group_here key (header_name s) group s groups e))
          (All-append P (group ++ s ∷ []) (flat groups)
            (All-append P group (s ∷ []) (All-left P group (flat groups) k) (h, tt))
            (All-right P group (flat groups) k))
    | no d ↦
        subst (λ d. All P (flat d)) (sym (append_group_later key (header_name s) group s groups d))
          (All-append P group (flat (append_group (header_name s) s groups))
            (All-left P group (flat groups) k)
            (All-flat P s groups h (All-right P group (flat groups) k)))
  ]

  IsGroup-snoc :
      (key : String) (group : List Stamp) (s : Stamp)
      → IsGroup key group
      → header_name s ≡ key
      → IsGroup key (group ++ s ∷ [])
  IsGroup-snoc key [] s g e = (e, tt)
  IsGroup-snoc key (x ∷ xs) s g e =
      All-append (λ y. header_name y ≡ key) (x ∷ xs) (s ∷ []) g (e, tt)

  append_group-Grouped :
      (s : Stamp) (groups : Dict String (List Stamp))
      → Grouped groups
      → Grouped (append_group (header_name s) s groups)
  unfolding append_group
  append_group-Grouped s [] h = ((refl, tt), tt, tt)
  append_group-Grouped s ((key, group) ∷ groups) (g, others, rest) = elim (key ≟ header_name s) [
    | yes e ↦
        subst Grouped (sym (append_group_here key (header_name s) group s groups e))
          (IsGroup-snoc key group s g (sym e), others, rest)
    | no d ↦ subst Grouped (sym (append_group_later key (header_name s) group s groups d)) (
      g,
      All-flat (λ x. header_name x ≢ key) s groups (λ e. d (sym e)) others,
      append_group-Grouped s groups rest,
    )
  ]

  pub group_from-Grouped :
      (groups : Dict String (List Stamp)) (ss : List Stamp)
      → Grouped groups
      → Grouped (group_from names groups ss)
  unfolding group_from
  group_from-Grouped groups [] h = h
  group_from-Grouped groups (s ∷ ss) h =
      group_from-Grouped (append_group (header_name s) s groups) ss
        (append_group-Grouped s groups h)

  pub group_from-All :
      (P : Stamp → Type 0) (groups : Dict String (List Stamp)) (ss : List Stamp)
      → All P (flat groups)
      → All P ss
      → All P (flat (group_from names groups ss))
  unfolding group_from
  group_from-All P groups [] h k = h
  group_from-All P groups (s ∷ ss) h (k, ks) =
      group_from-All P (append_group (header_name s) s groups) ss (All-flat P s groups k h) ks

  -- Grouping keeps the stamps of each class, in order.
  pub flat-group_from :
      (t : StampType) (groups : Dict String (List Stamp)) (ss : List Stamp)
      → Grouped groups
      → select (of_type t) (flat (group_from names groups ss))
        ≡ select (of_type t) (flat groups) ++ select (of_type t) ss
  unfolding group_from select
  flat-group_from t groups [] h = sym (append-nil (select (of_type t) (flat groups)))
  flat-group_from t groups (s ∷ ss) h =
      flat-group_from t (append_group (header_name s) s groups) ss (append_group-Grouped s groups h)
      ∙ ap (λ l. l ++ select (of_type t) ss) (flat-append_group t s groups h)
      ∙ append_assoc (select (of_type t) (flat groups)) (select (of_type t) (s ∷ []))
          (select (of_type t) ss)
      ∙ ap (◌++◌ (select (of_type t) (flat groups))) (sym (select-append (of_type t) (s ∷ []) ss))

  -- A name that no stamp of some groups has is not the name of one of the groups.
  pub not_a_key :
      (key : String) (groups : Dict String (List Stamp))
      → Grouped groups
      → All (λ x. header_name x ≢ key) (flat groups)
      → All (λ k. k ≢ key) (keys groups)
  unfolding keys
  not_a_key key [] g h = tt
  not_a_key key ((k, []) ∷ groups) (g, others, rest) h = absurd g
  not_a_key key ((k, s ∷ ss) ∷ groups) ((named, _), others, rest) (h, hs) = (
    λ e. h (named ∙ e),
    not_a_key key groups rest (All-right (λ x. header_name x ≢ key) ss (flat groups) hs),
  )
