-- ===== src/Middleware/Handle/Naming.antt =====
-- The names under which the exceptions of the handlers are kept.
use Prim.Native.Char.{Char}
use text.Mathlib.TextLemmas.{nil-append, cons-append}
use native.Mathlib.Decide.{dec_lt}
use python_xtr_messenger.Base.{
  All, Bool-cases, IsDistinct, List, String, [], ap, append_cancel, append_self, arith, contains,
  decimal, decimal-injective, false, if_neg, inl, inr, length, length_of_distinct, nat_eq,
  nil_ne_cons, refl, string_eq, subst, suc, sym, true, true_of_false, zero, ℕ, ℕ_discrete, ◌+++◌,
  ◌+◌, ◌<◌, ◌∙◌, ◌∷◌, ◌≡◌, ◌≢◌, ◌≤◌,
}
use python_xtr_messenger.Chain.Resolved.{taken}
use python_xtr_messenger.Errors.{Errors, count_errors, failure, has_name, names, no_errors}
use python_xtr_messenger.Middleware.Handle.{numbered, unused, unused_from}

pub has_name-names : (n : String) (es : Errors) → has_name n es ≡ contains (names es) n
unfolding has_name names contains
has_name-names n no_errors = refl
has_name-names n (failure m e es) = ground (arith, has_name-names n es)

length-names : (es : Errors) → length (names es) ≡ count_errors es
unfolding names count_errors
length-names no_errors = refl
length-names (failure m e es) = omega (arith, length-names es)

-- The keys that the loop tries, the one it stops at when the fuel is used up included.
abbrev tried : ℕ → String → ℕ → List String
tried zero name c = numbered name c ∷ []
tried (suc f) name c = numbered name c ∷ tried f name (suc c)

length-tried : (f : ℕ) (name : String) (c : ℕ) → length (tried f name c) ≡ suc f
length-tried zero name c = refl
length-tried (suc f) name c = omega (arith, length-tried f name (suc c))

hash_ne : (t : String) → "" ≡ "#" +++ t → ⊥
hash_ne t h =
    let c : Char = "#" in
    nil_ne_cons c t (h ∙ cons-append c "" t ∙ ap (String.◌∷◌ c) (nil-append t))

-- Different counts give different keys.
numbered_ne : (name : String) (c d : ℕ) → 1 ≤ c → c < d → numbered name c ≢ numbered name d
numbered_ne name zero d h l = absurd (omega arith)
numbered_ne name (suc zero) zero h l = absurd (omega arith)
numbered_ne name (suc zero) (suc zero) h l = absurd (omega arith)
numbered_ne name (suc zero) (suc (suc d)) h l = λ e. hash_ne _ (append_self name _ e)
numbered_ne name (suc (suc c)) zero h l = absurd (omega arith)
numbered_ne name (suc (suc c)) (suc zero) h l = absurd (omega arith)
numbered_ne name (suc (suc c)) (suc (suc d)) h l = λ e.
    let hash : "#" +++ decimal (suc (suc c)) ≡ "#" +++ decimal (suc (suc d)) =
      append_cancel name _ _ e in
    let same = decimal-injective _ _ (append_cancel "#" _ _ hash) in omega arith

not-contains-tried :
    (f : ℕ) (name : String) (c d : ℕ)
    → 1 ≤ c
    → c < d
    → contains (tried f name d) (numbered name c) ≡ false
unfolding contains
not-contains-tried zero name c d h l = if_neg _ (λ e. numbered_ne name c d h l (sym e)) true false
not-contains-tried (suc f) name c d h l =
    if_neg _ (λ e. numbered_ne name c d h l (sym e)) true _
    ∙ not-contains-tried f name c (suc d) h (omega arith)

tried-IsDistinct : (f : ℕ) (name : String) (c : ℕ) → 1 ≤ c → IsDistinct (tried f name c)
tried-IsDistinct zero name c h = (unfold contains in refl, tt)
tried-IsDistinct (suc f) name c h = (
  not-contains-tried f name c (suc c) h (omega arith),
  tried-IsDistinct f name (suc c) (omega arith),
)

-- If the loop stops at a key that is taken, all that it tried is taken.
exhausted :
    (f : ℕ) (es : Errors) (name : String) (c : ℕ)
    → has_name (unused_from f es name c) es ≡ true
    → All (λ n. contains (names es) n ≡ true) (tried f name c)
unfolding unused_from
exhausted zero es name c h = (sym (has_name-names _ es) ∙ h, tt)
exhausted (suc f) es name c h = elim (Bool-cases (has_name (numbered name c) es)) [
  | inl taken ↦ (sym (has_name-names _ es) ∙ taken, exhausted f es name (suc c) (rw taken at h))
  | inr free ↦ true_of_false (sym free ∙ rw free at h)
]

-- The name found for an exception is that of no exception kept before: the loop that looks for it
-- ends within one round more than there are exceptions.
pub has_name-unused : (es : Errors) (name : String) → has_name (unused es name) es ≡ false
unfolding unused
has_name-unused es name = elim (Bool-cases (has_name (unused es name) es)) [
  | inl taken ↦ absurd (
      omega (
        arith,
        length_of_distinct (tried (suc (count_errors es)) name 1) (names es)
            (tried-IsDistinct (suc (count_errors es)) name 1 (omega arith))
            (exhausted (suc (count_errors es)) es name 1 taken),
        length-tried (suc (count_errors es)) name 1,
        length-names es,
      ))
  | inr free ↦ free
]

All-tried {ℓ} :
    (P : String → Type ℓ) (f : ℕ) (name : String) (c : ℕ)
    → ((m : ℕ) → c ≤ m → m ≤ c + f → P (numbered name m))
    → All P (tried f name c)
All-tried P zero name c h = (h c (omega arith) (omega arith), tt)
All-tried P (suc f) name c h = (
  h c (omega arith) (omega arith),
  All-tried P f name (suc c) (λ m low high. h m (omega arith) (omega arith)),
)

-- Where the loop stops, and that it passes over taken names alone.
unused_from-numbered :
    (f : ℕ) (es : Errors) (name : String) (c : ℕ)
    → (k : ℕ) × (unused_from f es name c ≡ numbered name (c + k))
      × ((m : ℕ) → c ≤ m → m < c + k → has_name (numbered name m) es ≡ true)
unfolding unused_from
unused_from-numbered zero es name c =
    (0, ap (numbered name) (omega arith), λ m low high. absurd (omega arith))
unused_from-numbered (suc f) es name c = elim (Bool-cases (has_name (numbered name c) es)) [
  | inr free ↦ (0, rw free (ap (numbered name) (omega arith)), λ m low high. absurd (omega arith))
  | inl taken ↦
      let (k, e, below) = unused_from-numbered f es name (suc c) in
      (
        suc k,
        rw taken (e ∙ ap (numbered name) (omega arith)),
        λ m low high. elim (ℕ_discrete c m) [
          | yes same ↦ subst (λ x. has_name (numbered name x) es ≡ true) same taken
          | no other ↦ below m (omega arith) (omega arith)
        ],
      )
]

-- The name found for an exception is the first of its numbered forms that no exception kept before
-- has, and its number is at most one more than there are exceptions.
pub unused_bounds :
    (es : Errors) (name : String)
    → (n : ℕ) × (unused es name ≡ numbered name n)
      × (has_name (numbered name n) es ≡ false)
      × (1 ≤ n)
      × (n ≤ suc (count_errors es))
      × ((m : ℕ) → 1 ≤ m → m < n → has_name (numbered name m) es ≡ true)
unfolding unused
unused_bounds es name =
    let (k, e, below) = unused_from-numbered (suc (count_errors es)) es name 1 in
    (
      1 + k,
      e,
      subst (λ x. has_name x es ≡ false) e (has_name-unused es name),
      omega arith,
      few k below,
      below,
    )
  where
    few :
        (k : ℕ)
        → ((m : ℕ) → 1 ≤ m → m < 1 + k → has_name (numbered name m) es ≡ true)
        → 1 + k ≤ suc (count_errors es)
    few k below = elim (dec_lt (count_errors es) k) [
      | no small ↦ omega arith
      | yes large ↦ absurd (
          omega (
            arith,
            length_of_distinct (tried (count_errors es) name 1) (names es)
                (tried-IsDistinct (count_errors es) name 1 (omega arith))
                (All-tried (λ x. contains (names es) x ≡ true) (count_errors es) name 1
                  (λ m low high.
                    sym (has_name-names (numbered name m) es) ∙ below m low (omega arith))),
            length-tried (count_errors es) name 1,
            length-names es,
          ))
    ]
