-- ===== src/Envelope/Laws.antt =====
-- The laws of an envelope's stamps.
use python_xtr_messenger.Base.{
  Bool, List, [], ap, append-nil, append_assoc, arith, last?, last?-append, not, or_else, refl,
  select, select-append, select_comm, select_of_length, true, ◌++◌, ◌∙◌, ◌∷◌, ◌≡◌,
}
use python_xtr_messenger.Envelope.{Envelope, all, last, with_stamps, without_stamps}
use python_xtr_messenger.Stamps.{
  Stamp, StampType, is_non_sendable, is_subclass, isinstance, non_sendable_stamp_interface,
  stamp_eq, stamp_interface, stamp_type_eq, type_of,
}

pub stamps-with_stamps :
    (e : Envelope) (ss : List Stamp) → (with_stamps e ss).stamps ≡ e.stamps ++ ss
unfolding with_stamps
stamps-with_stamps e [] = rw append-nil
stamps-with_stamps e (s ∷ ss) = refl

pub message-with_stamps : (e : Envelope) (ss : List Stamp) → (with_stamps e ss).message ≡ e.message
unfolding with_stamps
message-with_stamps e [] = refl
message-with_stamps e (s ∷ ss) = refl

pub with_stamps-append :
    (e : Envelope) (xs ys : List Stamp)
    → with_stamps (with_stamps e xs) ys ≡ with_stamps e (xs ++ ys)
unfolding with_stamps
with_stamps-append e [] ys = refl
with_stamps-append e (x ∷ xs) [] = rw append-nil
with_stamps-append e (x ∷ xs) (y ∷ ys) = rw append_assoc

pub stamps-without_stamps :
    (e : Envelope) (t : StampType)
    → (without_stamps e t).stamps ≡ select (λ s. not (isinstance s t)) e.stamps
unfolding without_stamps
stamps-without_stamps e t =
    ground (arith, select_of_length (λ (s : Stamp). not (isinstance s t)) e.stamps)

pub all-with_stamps :
    (e : Envelope) (ss : List Stamp) (t : StampType)
    → all (with_stamps e ss) t ≡ all e t ++ select (λ s. isinstance s t) ss
unfolding all
all-with_stamps e ss t =
    ap (select (λ s. isinstance s t)) (stamps-with_stamps e ss) ∙ select-append _ e.stamps ss

-- What is left of each class is what was there of it, less the stamps of the class removed.
pub all-without_stamps :
    (e : Envelope) (u t : StampType)
    → all (without_stamps e u) t ≡ select (λ s. not (isinstance s u)) (all e t)
unfolding all
all-without_stamps e u t =
    ap (select (λ s. isinstance s t)) (stamps-without_stamps e u) ∙ select_comm _ _ e.stamps

-- The last stamp of a class is the last of those added, if any is of it, and else the one that
-- was there.
pub last-with_stamps :
    (e : Envelope) (ss : List Stamp) (t : StampType)
    → last (with_stamps e ss) t ≡ or_else (last? (select (λ s. isinstance s t) ss)) (last e t)
unfolding last
last-with_stamps e ss t =
    ap last? (all-with_stamps e ss t) ∙ last?-append (all e t) (select (λ s. isinstance s t) ss)

-- `issubclass` is transitive.
isinstance_mono :
    (s : Stamp) (t u : StampType)
    → is_subclass t u ≡ true
    → isinstance s t ≡ true
    → isinstance s u ≡ true
unfolding isinstance is_subclass is_non_sendable type_of
isinstance_mono s t stamp_interface h k = refl
isinstance_mono s stamp_interface non_sendable_stamp_interface h k = cc
isinstance_mono s non_sendable_stamp_interface non_sendable_stamp_interface h k = k
isinstance_mono s t non_sendable_stamp_interface h k = ground arith
isinstance_mono s t u h k = ground arith

select_none {ℓ} :
    {A : Type ℓ} (p q : A → Bool) (xs : List A)
    → ((x : A) → p x ≡ true → q x ≡ true)
    → select (λ x. not (q x)) (select p xs) ≡ []
unfolding select
select_none p q [] h = refl
select_none p q (x ∷ xs) h = ground (arith, h x, select_none p q xs h)

-- Removing a class removes its subclasses too: none of their stamps is left.
pub all-without_stamps_subclass :
    (e : Envelope) (u t : StampType) → is_subclass t u ≡ true → all (without_stamps e u) t ≡ []
all-without_stamps_subclass e u t h =
    all-without_stamps e u t
    ∙ unfold all in select_none _ (λ s. isinstance s u) e.stamps (λ s. isinstance_mono s t u h)
