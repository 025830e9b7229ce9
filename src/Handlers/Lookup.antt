-- ===== src/Handlers/Lookup.antt =====
-- `handlers_for` against the handlers of each class of the method resolution order, in order.
use mathlib.Core.List.{Sublist}
use mathlib.Core.List.Sublist
use python_xtr_messenger.Base.{
  Bool, Bool-cases, Dict, IsDistinct, IsDistinct-snoc, List, Option, [], ap, append-nil,
  append_assoc, arith, contains, contains-append, false, inl, inr, ite, nat_eq, none, or_else, refl,
  some, sym, true, ℕ, ◌++◌, ◌∙◌, ◌∷◌, ◌≟◌, ◌≡◌,
}
use python_xtr_messenger.Classes.{Classes}
use python_xtr_messenger.Envelope.{MessageType, message_type_eq}
use python_xtr_messenger.Handlers.{
  HandlerDescriptor, HandlersLocator, bound, collect, collect_bases, handlers_for,
}

module _ {W : Type 0} where
  -- The identities of handlers.
  abbrev pub ids : List (HandlerDescriptor W) → List ℕ
  ids [] = []
  ids (d ∷ ds) = d.handler ∷ ids ds

  -- The first descriptor of a handler.
  abbrev pub find_id : ℕ → List (HandlerDescriptor W) → Option (HandlerDescriptor W)
  find_id i [] = none
  find_id i (d ∷ ds) = ite (d.handler ≟ i) (some d) (find_id i ds)

  -- What is bound to each of the classes, one after the other.
  abbrev pub candidates :
      Dict MessageType (List (HandlerDescriptor W)) → List MessageType → List (HandlerDescriptor W)
  candidates d [] = []
  candidates d (base ∷ bases) = bound base d ++ candidates d bases

  abbrev is_there : Option (HandlerDescriptor W) → Bool
  is_there none = false
  is_there (some d) = true

  find_id-append :
      (i : ℕ) (xs ys : List (HandlerDescriptor W))
      → find_id i (xs ++ ys) ≡ or_else (find_id i xs) (find_id i ys)
  find_id-append i [] ys = refl
  find_id-append i (x ∷ xs) ys = ground (arith, find_id-append i xs ys)

  is_there-find_id :
      (i : ℕ) (xs : List (HandlerDescriptor W)) → is_there (find_id i xs) ≡ contains (ids xs) i
  unfolding contains
  is_there-find_id i [] = refl
  is_there-find_id i (x ∷ xs) = ground (arith, is_there-find_id i xs)

  ids-append : (xs ys : List (HandlerDescriptor W)) → ids (xs ++ ys) ≡ ids xs ++ ids ys
  ids-append [] ys = refl
  ids-append (x ∷ xs) ys = ap (◌∷◌ x.handler) (ids-append xs ys)

  -- The set of what was seen is the identities of what was found, each once.
  record Tracks (seen : List ℕ) (found : List (HandlerDescriptor W)) : Type 0 where
    distinct : IsDistinct (ids found)
    seen_iff : (i : ℕ) → contains seen i ≡ contains (ids found) i

  Tracks-add :
      (d : HandlerDescriptor W) (seen : List ℕ) (found : List (HandlerDescriptor W))
      → Tracks seen found
      → contains seen d.handler ≡ false
      → Tracks (d.handler ∷ seen) (found ++ d ∷ [])
  unfolding contains
  Tracks-add d seen found t new = record {
    distinct = rw ids-append (IsDistinct-snoc _ _ t.distinct (sym (t.seen_iff d.handler) ∙ new));
    seen_iff = λ i. rw (ids-append, contains-append) (ground (arith, t.seen_iff i));
  }

  -- What a round of the loops finds, given what it had found.
  record Finds (seen : List ℕ) (found : List (HandlerDescriptor W))
      (ds : List (HandlerDescriptor W)) (out : List ℕ × List (HandlerDescriptor W)) : Type 0 where
    tracks : Tracks out.0 out.1
    first : (i : ℕ) → find_id i out.1 ≡ or_else (find_id i found) (find_id i ds)
    kept : List (HandlerDescriptor W)
    grown : out.1 ≡ found ++ kept
    in_order : Sublist kept ds

  collect_old :
      (d : HandlerDescriptor W) (ds : List (HandlerDescriptor W)) (seen : List ℕ)
      (found : List (HandlerDescriptor W))
      → contains seen d.handler ≡ true
      → collect (d ∷ ds) (seen, found) ≡ collect ds (seen, found)
  unfolding collect
  collect_old d ds seen found h = rw h

  collect_new :
      (d : HandlerDescriptor W) (ds : List (HandlerDescriptor W)) (seen : List ℕ)
      (found : List (HandlerDescriptor W))
      → contains seen d.handler ≡ false
      → collect (d ∷ ds) (seen, found) ≡ collect ds (d.handler ∷ seen, found ++ d ∷ [])
  unfolding collect
  collect_new d ds seen found h = rw h

  module _ (d : HandlerDescriptor W) (ds : List (HandlerDescriptor W)) (seen : List ℕ)
      (found : List (HandlerDescriptor W)) (out : List ℕ × List (HandlerDescriptor W))
      (t : Tracks seen found) where
    Finds-old :
        contains seen d.handler ≡ true → Finds seen found ds out → Finds seen found (d ∷ ds) out
    Finds-old old f = record {
      tracks = f.tracks;
      first =
          λ i. ground (arith, f.first i, t.seen_iff d.handler, is_there-find_id d.handler found);
      kept = f.kept;
      grown = f.grown;
      in_order = Sublist.cons d f.in_order;
    }

    Finds-new : Finds (d.handler ∷ seen) (found ++ d ∷ []) ds out → Finds seen found (d ∷ ds) out
    Finds-new f = record {
      tracks = f.tracks;
      first = λ i. ground (arith, f.first i, find_id-append i found (d ∷ []));
      kept = d ∷ f.kept;
      grown = f.grown ∙ append_assoc found (d ∷ []) f.kept;
      in_order = Sublist.cons-cons d f.in_order;
    }

  collect-Finds :
      (ds : List (HandlerDescriptor W)) (seen : List ℕ) (found : List (HandlerDescriptor W))
      → Tracks seen found
      → Finds seen found ds (collect ds (seen, found))
  collect-Finds [] seen found t =
      unfold collect in
      record {
        tracks = t;
        first = λ i. ground arith;
        kept = [];
        grown = sym (append-nil found);
        in_order = Sublist.refl [];
      }
  collect-Finds (d ∷ ds) seen found t = elim (Bool-cases (contains seen d.handler)) [
    | inl old ↦
        rw (collect_old d ds seen found old)
          (Finds-old d ds seen found _ t old (collect-Finds ds seen found t))
    | inr new ↦ rw (collect_new d ds seen found new) (
        Finds-new d ds seen found _ t
          (collect-Finds ds (d.handler ∷ seen) (found ++ d ∷ []) (Tracks-add d seen found t new)))
  ]

  collect-append :
      (xs ys : List (HandlerDescriptor W)) (acc : List ℕ × List (HandlerDescriptor W))
      → collect (xs ++ ys) acc ≡ collect ys (collect xs acc)
  unfolding collect
  collect-append [] ys acc = refl
  collect-append (x ∷ xs) ys acc = collect-append xs ys _

  collect_bases-candidates :
      (d : Dict MessageType (List (HandlerDescriptor W))) (bases : List MessageType)
      (acc : List ℕ × List (HandlerDescriptor W))
      → collect_bases d bases acc ≡ collect (candidates d bases) acc
  unfolding collect_bases
  collect_bases-candidates d [] acc = unfold collect in refl
  collect_bases-candidates d (base ∷ bases) acc =
      collect_bases-candidates d bases (collect (bound base d) acc)
      ∙ sym (collect-append (bound base d) (candidates d bases) acc)

handlers_for-collect :
    {W : Type 0} (k : Classes) (l : HandlersLocator W) (t : MessageType)
    → handlers_for k l t ≡ (collect (candidates l.handlers (k.mro t)) ([], [])).1
unfolding handlers_for
handlers_for-collect k l t =
    ap (λ acc. acc.1) (collect_bases-candidates l.handlers (k.mro t) ([], []))

-- The handlers of a message are taken from those bound to each class of its method resolution
-- order, one class after the other, in order; each declared handler is there once, by its first
-- descriptor, and none that is bound to some class is left out.
pub handlers_for-candidates :
    {W : Type 0} (k : Classes) (l : HandlersLocator W) (t : MessageType)
    → IsDistinct (ids (handlers_for k l t))
      × ((i : ℕ) → find_id i (handlers_for k l t) ≡ find_id i (candidates l.handlers (k.mro t)))
      × Sublist (handlers_for k l t) (candidates l.handlers (k.mro t))
handlers_for-candidates k l t =
    let cs = candidates l.handlers (k.mro t) in
    let start : Tracks [] [] = record { distinct = tt; seen_iff = λ i. refl } in
    let f = collect-Finds cs [] [] start in
    rw (handlers_for-collect k l t) (f.tracks.distinct, f.first, rw f.grown f.in_order)
