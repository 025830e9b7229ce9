-- ===== src/Middleware/Send/Added.antt =====
-- `_added_by`: what a sender's envelope carries that the one it was handed did not.
use python_xtr_messenger.Base.{
  Bool-cases, List, [], ap, arith, contains, drop, false, if_pos, inl, inr, ite, length, nat_eq,
  refl, suc, true, ℕ, ◌++◌, ◌+◌, ◌-◌, ◌∙◌, ◌∷◌, ◌≟◌, ◌≡◌,
}
use python_xtr_messenger.Envelope.{Envelope, with_stamps}
use python_xtr_messenger.Envelope.Laws.{stamps-with_stamps}
use python_xtr_messenger.Middleware.Send.{added_by, remove_stamp, starts_with_stamps, unmatched_of}
use python_xtr_messenger.Stamps.{Stamp, stamp_eq}

-- How often a stamp is there.
abbrev pub count : Stamp → List Stamp → ℕ
count s [] = 0
count s (x ∷ xs) = ite (x ≟ s) (suc (count s xs)) (count s xs)

count-append : (s : Stamp) (xs ys : List Stamp) → count s (xs ++ ys) ≡ count s xs + count s ys
count-append s [] ys = omega arith
count-append s (x ∷ xs) ys = ground (arith, count-append s xs ys)

count-remove_stamp :
    (s t : Stamp) (xs : List Stamp)
    → contains xs t ≡ true
    → count s xs ≡ ite (t ≟ s) (suc (count s (remove_stamp t xs))) (count s (remove_stamp t xs))
unfolding contains remove_stamp
count-remove_stamp s t [] h = cc
count-remove_stamp s t (x ∷ xs) h = ground (arith, count-remove_stamp s t xs)

count_of_contains : (s : Stamp) (xs : List Stamp) → contains xs s ≡ false → count s xs ≡ 0
unfolding contains
count_of_contains s [] h = refl
count_of_contains s (x ∷ xs) h = ground (arith, count_of_contains s xs)

starts_with_stamps-append :
    (xs ys : List Stamp) → starts_with_stamps xs ys ≡ true → xs ≡ ys ++ drop (length ys) xs
unfolding starts_with_stamps drop
starts_with_stamps-append xs [] h = refl
starts_with_stamps-append [] (y ∷ ys) h = cc
starts_with_stamps-append (x ∷ xs) (y ∷ ys) h = ground (arith, starts_with_stamps-append xs ys)

starts_with_stamps_self : (xs ys : List Stamp) → starts_with_stamps (xs ++ ys) xs ≡ true
unfolding starts_with_stamps
starts_with_stamps_self [] ys = refl
starts_with_stamps_self (x ∷ xs) ys = if_pos (x ≟ x) refl _ _ ∙ starts_with_stamps_self xs ys

drop-length : (xs ys : List Stamp) → drop (length xs) (xs ++ ys) ≡ ys
unfolding drop
drop-length [] ys = refl
drop-length (x ∷ xs) ys = drop-length xs ys

count-unmatched_of :
    (s : Stamp) (before ss : List Stamp)
    → count s (unmatched_of before ss) ≡ count s ss - count s before
unfolding unmatched_of
count-unmatched_of s before [] = omega arith
count-unmatched_of s before (x ∷ ss) = elim (Bool-cases (contains before x)) [
  | inl known ↦ rw known (
      ground (
        arith,
        count-unmatched_of s (remove_stamp x before) ss,
        count-remove_stamp s x before known,
      ))
  | inr new ↦
      rw new (ground (arith, count-unmatched_of s before ss, count_of_contains x before new))
]

-- Each stamp counts as added as often as the returned envelope carries it beyond what the envelope
-- handed over did.
pub count-added_by :
    (s : Stamp) (returned before : Envelope)
    → count s (added_by returned before) ≡ count s returned.stamps - count s before.stamps
unfolding added_by
count-added_by s returned before =
    elim (Bool-cases (starts_with_stamps returned.stamps before.stamps)) [
      | inl prefix ↦
          let rest = drop (length before.stamps) returned.stamps in
          let whole : count s returned.stamps ≡ count s before.stamps + count s rest =
            ap (count s) (starts_with_stamps-append returned.stamps before.stamps prefix)
            ∙ count-append s before.stamps rest in
          rw prefix (omega (arith, whole))
      | inr other ↦ rw other (count-unmatched_of s before.stamps returned.stamps)
    ]

-- A sender that appends to the envelope it was handed has added what it appended, in order.
pub added_by-with_stamps :
    (before : Envelope) (ss : List Stamp) → added_by (with_stamps before ss) before ≡ ss
unfolding added_by
added_by-with_stamps before ss =
    rw (stamps-with_stamps before ss, starts_with_stamps_self before.stamps ss)
      (drop-length before.stamps ss)
