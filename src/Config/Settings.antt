-- ===== src/Config/Settings.antt =====
-- Which of several settings of one name a transport has.
use python_xtr_messenger.Base.{
  Dict, IsDistinct, Option, String, [], ap, arith, contains, false, get, get-put, if_neg, if_pos,
  ite, keys, none, ok, or_else, put, refl, some, string_eq, subst, sym, ◌∙◌, ◌∷◌, ◌≟◌, ◌≡◌,
}
use python_xtr_messenger.Config.{TransportConfig, parsed, settings, settings_of, update, with_queue}
use python_xtr_messenger.Dsn.{Dsn}
use python_xtr_messenger.Urls.{Urllib}

get-none :
    {A : Type 0} (d : Dict String A) (k : String) → contains (keys d) k ≡ false → get k d ≡ none
unfolding contains keys get
get-none [] k h = refl
get-none ((j, v) ∷ d) k h = ground (arith, get-none d k)

or_else-some : {A : Type 0} (o p : Option A) (a : A) → o ≡ none → p ≡ some a → or_else o p ≡ some a
or_else-some o p a e f = rw (e, f) refl

-- Setting every entry of a mapping, whose keys differ, makes the last word its own.
get-update :
    {A : Type 0} (k : String) (d more : Dict String A)
    → IsDistinct (keys more)
    → get k (update d more) ≡ or_else (get k more) (get k d)
unfolding update get keys
get-update k d [] h = refl
get-update k d ((j, v) ∷ more) h =
    get-update k (put j v d) more h.1 ∙ ap (or_else (get k more)) (get-put k j v d) ∙ elim (j ≟ k) [
      | yes e ↦
          ap (or_else (get k more)) (if_pos (j ≟ k) e _ _)
          ∙ or_else-some (get k more) (some v) v
              (subst (λ i. get i more ≡ none) e (get-none more j h.0)) refl
          ∙ sym (ap (λ o. or_else o (get k d)) (if_pos (j ≟ k) e _ _))
      | no f ↦
          ap (or_else (get k more)) (if_neg (j ≟ k) f _ _)
          ∙ sym (ap (λ o. or_else o (get k d)) (if_neg (j ≟ k) f _ _))
    ]

-- The transport's own word on a setting: its queue, for that one, before its options.
abbrev pub own_setting : TransportConfig → String → Option String
own_setting config k = or_else (ite ("queue" ≟ k) config.queue none) (get k config.options)

get-with_queue :
    (q : Option String) (k : String) (d : Dict String String)
    → get k (with_queue q d) ≡ or_else (ite ("queue" ≟ k) q none) (get k d)
get-with_queue none k d = elim ("queue" ≟ k) [
  | yes e ↦ sym (ap (λ o. or_else o (get k d)) (if_pos ("queue" ≟ k) e _ _))
  | no f ↦ sym (ap (λ o. or_else o (get k d)) (if_neg ("queue" ≟ k) f _ _))
]
get-with_queue (some q) k d = get-put k "queue" q d ∙ elim ("queue" ≟ k) [
  | yes e ↦
      if_pos ("queue" ≟ k) e _ _ ∙ sym (ap (λ o. or_else o (get k d)) (if_pos ("queue" ≟ k) e _ _))
  | no f ↦
      if_neg ("queue" ≟ k) f _ _ ∙ sym (ap (λ o. or_else o (get k d)) (if_neg ("queue" ≟ k) f _ _))
]

or_else_assoc : {A : Type 0} (o p q : Option A) → or_else o (or_else p q) ≡ or_else (or_else o p) q
or_else_assoc none p q = refl
or_else_assoc (some a) p q = refl

-- A setting of a transport whose DSN can be read is, for the queue, its queue if it names one, else
-- what its options say, else what its DSN says.
pub get-settings :
    (u : Urllib) (config : TransportConfig) (d : Dsn) (k : String)
    → parsed u config ≡ ok d
    → IsDistinct (keys config.options)
    → (merged : Dict String String) × (settings u config ≡ ok merged)
      × (get k merged ≡ or_else (own_setting config k) (get k d.dsn_options))
unfolding settings
get-settings u config d k e h = (
  with_queue config.queue (update d.dsn_options config.options),
  ap (settings_of config) e,
  get-with_queue config.queue k (update d.dsn_options config.options)
      ∙ ap (or_else (ite ("queue" ≟ k) config.queue none))
          (get-update k d.dsn_options config.options h)
      ∙ or_else_assoc (ite ("queue" ≟ k) config.queue none) (get k config.options)
          (get k d.dsn_options),
)
