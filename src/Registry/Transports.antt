-- ===== src/Registry/Transports.antt =====
-- Default transports: the nearest class of the method resolution order that declares some.
use python_xtr_messenger.Base.{
  All, List, Option-cases, String, [], ap, arith, get, inl, inr, none, refl, some, string_eq, ◌++◌,
  ◌∷◌, ◌≡◌, ◌≢◌, ◌⊎◌,
}
use python_xtr_messenger.Classes.{Classes}
use python_xtr_messenger.Envelope.{MessageType, message_type_eq}
use python_xtr_messenger.Registry.{Registry, first_declared, transports_of}

-- No transport is declared for the class, or an empty tuple of them.
abbrev pub IsUndeclared : Registry → MessageType → Type 0
IsUndeclared r t = (get t r.transports_by_type ≡ none) ⊎ (get t r.transports_by_type ≡ some [])

-- A class among `bases` that declares `ns`, with none before it that declares any.
pub record IsNearest (r : Registry) (bases : List MessageType) (ns : List String) : Type 0 where
  pub before : List MessageType
  pub base : MessageType
  pub after : List MessageType
  pub placed : bases ≡ before ++ base ∷ after
  pub undeclared : All (IsUndeclared r) before
  pub found : get base r.transports_by_type ≡ some ns
  pub some_given : ns ≢ []

later :
    (r : Registry) (b : MessageType) {bases : List MessageType} {ns : List String}
    → IsUndeclared r b
    → IsNearest r bases ns
    → IsNearest r (b ∷ bases) ns
later r b u n = record {
  before = b ∷ n.before;
  base = n.base;
  after = n.after;
  placed = ap (◌∷◌ b) n.placed;
  undeclared = (u, n.undeclared);
  found = n.found;
  some_given = n.some_given;
}

abbrev Outcome : Registry → List MessageType → List String → Type 0
Outcome r bases ns = (All (IsUndeclared r) bases × (ns ≡ [])) ⊎ IsNearest r bases ns

skip :
    (r : Registry) (b : MessageType) {bases : List MessageType} {ns : List String}
    → IsUndeclared r b
    → Outcome r bases ns
    → Outcome r (b ∷ bases) ns
skip r b u (inl (h, e)) = inl ((u, h), e)
skip r b u (inr n) = inr (later r b u n)

first_declared_skip :
    (r : Registry) (b : MessageType) (bases : List MessageType)
    → IsUndeclared r b
    → first_declared r (b ∷ bases) ≡ first_declared r bases
unfolding first_declared
first_declared_skip r b bases u = ground arith

first_declared_take :
    (r : Registry) (b : MessageType) (bases : List MessageType) (n : String) (ns : List String)
    → get b r.transports_by_type ≡ some (n ∷ ns)
    → first_declared r (b ∷ bases) ≡ n ∷ ns
unfolding first_declared
first_declared_take r b bases n ns e = ground arith

first_declared-cases :
    (r : Registry) (bases : List MessageType) → Outcome r bases (first_declared r bases)
first_declared-cases r [] = inl (tt, unfold first_declared in refl)
first_declared-cases r (b ∷ bases) = elim (Option-cases (get b r.transports_by_type)) [
  | inl e ↦
      rw (first_declared_skip r b bases (inl e)) (skip r b (inl e) (first_declared-cases r bases))
  | inr ([], e) ↦
      rw (first_declared_skip r b bases (inr e)) (skip r b (inr e) (first_declared-cases r bases))
  | inr (n ∷ ns, e) ↦ rw (first_declared_take r b bases n ns e) (
      inr (record {
        before = [];
        base = b;
        after = bases;
        placed = refl;
        undeclared = tt;
        found = e;
        some_given = λ q. cc;
      }))
]

-- A message goes by default to what the nearest class of its method resolution order declares,
-- and nowhere exactly when no class of it declares anything.
pub transports_of-cases :
    (k : Classes) (r : Registry) (t : MessageType)
    → (All (IsUndeclared r) (k.mro t) × (transports_of k r t ≡ []))
      ⊎ IsNearest r (k.mro t) (transports_of k r t)
unfolding transports_of
transports_of-cases k r t = first_declared-cases r (k.mro t)
