-- ===== src/Transport/Routes/Fanout.antt =====
-- What `SendersLocator.senders_for` yields, told from the names it goes through.
use python_xtr_messenger.Base.{
  All, Bool-cases, Dict, IsDistinct, List, Option, Option-cases, String, [], arith, contains, false,
  get, inl, inr, keys, none, not, refl, some, string_eq, true, ◌&&◌, ◌∷◌, ◌≡◌, ◌≢◌, ◌⊎◌,
}
use python_xtr_messenger.Classes.{Classes}
use python_xtr_messenger.Envelope.{Envelope}
use python_xtr_messenger.Errors.{Error, unknown_transport}
use python_xtr_messenger.Registry.{Registry}
use python_xtr_messenger.Transport.Routes.{SendersLocator, names_for, senders_for, yield_senders}
use python_xtr_messenger.Transport.Sender.{Sender, Yields, done, fails, yield}

abbrev pub KnownBy : {W : Type 0} → Dict String (Sender W) → String → Type 0
KnownBy senders n = get n senders ≢ none

-- The aliases that a run of the generator yields, in order.
abbrev pub aliases : {W : Type 0} → Yields (String × Sender W) → List String
aliases done = []
aliases (fails e) = []
aliases (yield p rest) = p.0 ∷ aliases rest

-- What the generator raises at its end, if it raises.
abbrev pub ended : {W : Type 0} → Yields (String × Sender W) → Option Error
ended done = none
ended (fails e) = some e
ended (yield p rest) = ended rest

-- Each alias comes with the sender the locator has for it.
abbrev pub PairsFrom : {W : Type 0} → Dict String (Sender W) → Yields (String × Sender W) → Type 0
PairsFrom senders done = Unit
PairsFrom senders (fails e) = Unit
PairsFrom senders (yield p rest) = (get p.0 senders ≡ some p.1) × PairsFrom senders rest

module _ {W : Type 0} (senders : Dict String (Sender W)) where
  -- The three ways the loop goes on at a name.
  abbrev NameCases : List String → String → List String → Type 0
  NameCases seen n ns =
      ((contains seen n ≡ true)
        × (yield_senders senders seen (n ∷ ns) ≡ yield_senders senders seen ns))
      ⊎ ((contains seen n ≡ false)
          × (get n senders ≡ none)
          × (yield_senders senders seen (n ∷ ns)
              ≡ fails (unknown_transport (n ∷ []) (keys senders))))
      ⊎ ((contains seen n ≡ false)
          × ((s : Sender W) × (get n senders ≡ some s)
              × (yield_senders senders seen (n ∷ ns)
                  ≡ yield (n, s) (yield_senders senders (n ∷ seen) ns))))

  step_seen :
      (seen : List String) (n : String) (ns : List String)
      → contains seen n ≡ true
      → yield_senders senders seen (n ∷ ns) ≡ yield_senders senders seen ns
  unfolding yield_senders
  step_seen seen n ns h = rw h

  step_unknown :
      (seen : List String) (n : String) (ns : List String)
      → contains seen n ≡ false
      → get n senders ≡ none
      → yield_senders senders seen (n ∷ ns) ≡ fails (unknown_transport (n ∷ []) (keys senders))
  unfolding yield_senders
  step_unknown seen n ns h g = rw (h, g)

  step_known :
      (seen : List String) (n : String) (ns : List String) (s : Sender W)
      → contains seen n ≡ false
      → get n senders ≡ some s
      → yield_senders senders seen (n ∷ ns) ≡ yield (n, s) (yield_senders senders (n ∷ seen) ns)
  unfolding yield_senders
  step_known seen n ns s h g = rw (h, g)

  name_cases : (seen : List String) (n : String) (ns : List String) → NameCases seen n ns
  name_cases seen n ns = elim (Bool-cases (contains seen n)) [
    | inl h ↦ inl (h, step_seen seen n ns h)
    | inr h ↦ elim (Option-cases (get n senders)) [
      | inl g ↦ inr (inl (h, g, step_unknown seen n ns h g))
      | inr (s, g) ↦ inr (inr (h, (s, g, step_known seen n ns s h g)))
    ]
  ]

  aliases-avoid :
      (seen ns : List String) (a : String)
      → contains seen a ≡ true
      → contains (aliases (yield_senders senders seen ns)) a ≡ false
  unfolding contains yield_senders
  aliases-avoid seen [] a h = refl
  aliases-avoid seen (n ∷ ns) a h = elim (name_cases seen n ns) [
    | inl (_, e) ↦ rw e (aliases-avoid seen ns a h)
    | inr (inl (_, _, e)) ↦ rw e refl
    | inr (inr (fresh, (s, _, e))) ↦ rw e (ground (arith, aliases-avoid (n ∷ seen) ns a))
  ]

  aliases-IsDistinct :
      (seen ns : List String) → IsDistinct (aliases (yield_senders senders seen ns))
  unfolding contains yield_senders
  aliases-IsDistinct seen [] = tt
  aliases-IsDistinct seen (n ∷ ns) = elim (name_cases seen n ns) [
    | inl (_, e) ↦ rw e (aliases-IsDistinct seen ns)
    | inr (inl (_, _, e)) ↦ rw e tt
    | inr (inr (fresh, (s, _, e))) ↦
        rw e (aliases-avoid (n ∷ seen) ns n (ground arith), aliases-IsDistinct (n ∷ seen) ns)
  ]

  yield_senders-PairsFrom :
      (seen ns : List String) → PairsFrom senders (yield_senders senders seen ns)
  unfolding yield_senders
  yield_senders-PairsFrom seen [] = tt
  yield_senders-PairsFrom seen (n ∷ ns) = elim (name_cases seen n ns) [
    | inl (_, e) ↦ rw e (yield_senders-PairsFrom seen ns)
    | inr (inl (_, _, e)) ↦ rw e tt
    | inr (inr (fresh, (s, g, e))) ↦ rw e (g, yield_senders-PairsFrom (n ∷ seen) ns)
  ]

  -- With a sender for every name, the generator raises nothing.
  pub ended-yield_senders :
      (seen ns : List String)
      → All (KnownBy senders) ns
      → ended (yield_senders senders seen ns) ≡ none
  unfolding yield_senders
  ended-yield_senders seen [] h = refl
  ended-yield_senders seen (n ∷ ns) h = elim (name_cases seen n ns) [
    | inl (_, e) ↦ rw e (ended-yield_senders seen ns h.1)
    | inr (inl (_, g, e)) ↦ absurd (h.0 g)
    | inr (inr (fresh, (s, g, e))) ↦ rw e (ended-yield_senders (n ∷ seen) ns h.1)
  ]

  pub contains-aliases :
      (seen ns : List String) (a : String)
      → All (KnownBy senders) ns
      → contains (aliases (yield_senders senders seen ns)) a
        ≡ (contains ns a && not (contains seen a))
  unfolding contains yield_senders
  contains-aliases seen [] a h = refl
  contains-aliases seen (n ∷ ns) a h = elim (name_cases seen n ns) [
    | inl (k, e) ↦ rw e (ground (arith, contains-aliases seen ns a h.1))
    | inr (inl (_, g, e)) ↦ absurd (h.0 g)
    | inr (inr (fresh, (s, g, e))) ↦ rw e (ground (arith, contains-aliases (n ∷ seen) ns a h.1))
  ]

-- However its names are found, an envelope goes to no transport twice, and to each by the sender
-- that the locator has for it.
pub senders_for-IsDistinct :
    {W : Type 0} (k : Classes) (r : Registry) (l : SendersLocator W) (env : Envelope)
    → IsDistinct (aliases (senders_for k r l env)) × PairsFrom l.senders (senders_for k r l env)
unfolding senders_for
senders_for-IsDistinct k r l env = (
  aliases-IsDistinct l.senders [] (names_for k r l.routes env),
  yield_senders-PairsFrom l.senders [] (names_for k r l.routes env),
)
