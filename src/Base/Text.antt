-- ===== src/Base/Text.antt =====
-- Python's texts: `sorted`, and the decimal form of a number in an f-string.
use Prim.Native.Char.{Char, code}
use Prim.Native.Nat.{ℕ, zero, suc, ◌+◌, ◌*◌, ◌-◌, ◌/◌, ◌%◌, ◌≤◌, ◌<◌, Ordering}
use Prim.Native.String
use Prim.Native.String.{String}
use mathlib.Core.Bool.{Bool, true, false}
use mathlib.Core.List.{List, [], ◌∷◌}
use mathlib.Core.Logic.{◌≢◌, inl, inr, ite, if_pos}
use mathlib.Core.Option.{Option, none, some}
use native.Mathlib.Decide.{ℕ_discrete}
use mathlib.Core.Path.{◌≡◌, refl, ap, sym, ◌∙◌, subst}
use native.Mathlib.Omega.{arith}
use text.Mathlib.TextLemmas.{nil-append, cons-append, append-nil}
use python_xtr_messenger.Base.Tests.{if◌then◌else◌, leb, Bool-cases}

infixr 65 ◌+++◌
-- `s + t`
abbrev pub ◌+++◌ : String → String → String
s +++ t = String.◌++◌ s t

abbrev pub text_leb : String → String → Bool
text_leb s t = elim (String.compare s t) [ Ordering.gt ↦ false | _ ↦ true ]

insert_sorted : String → List String → List String
insert_sorted s [] = s ∷ []
insert_sorted s (t ∷ ts) =
    let rest = insert_sorted s ts in if text_leb s t then s ∷ t ∷ ts else t ∷ rest

-- `sorted(names)`: by code points, equal texts in order
unfoldable pub sorted : List String → List String
unfolding insert_sorted
sorted [] = []
sorted (s ∷ ss) = insert_sorted s (sorted ss)

insert_sorted_ne : (s : String) (ts : List String) → insert_sorted s ts ≢ []
unfolding insert_sorted
insert_sorted_ne s [] e = cc e
insert_sorted_ne s (t ∷ ts) e = go (text_leb s t) e
  where
    go : (b : Bool) → (if b then s ∷ t ∷ ts else t ∷ insert_sorted s ts) ≡ [] → ⊥
    go true e = cc e
    go false e = cc e

pub sorted_nil : (ss : List String) → sorted ss ≡ [] → ss ≡ []
unfolding sorted
sorted_nil [] e = refl
sorted_nil (s ∷ ss) e = absurd (insert_sorted_ne s (sorted ss) e)

digit : ℕ → String
digit zero = "0"
digit (suc zero) = "1"
digit (suc (suc zero)) = "2"
digit (suc (suc (suc zero))) = "3"
digit (suc (suc (suc (suc zero)))) = "4"
digit (suc (suc (suc (suc (suc zero))))) = "5"
digit (suc (suc (suc (suc (suc (suc zero)))))) = "6"
digit (suc (suc (suc (suc (suc (suc (suc zero))))))) = "7"
digit (suc (suc (suc (suc (suc (suc (suc (suc zero)))))))) = "8"
digit (suc (suc (suc (suc (suc (suc (suc (suc (suc n))))))))) = "9"

-- the digits of a number, at most as many as the fuel
digits_of : ℕ → ℕ → String
digits_of zero n = ""
digits_of (suc f) n =
    let more = digits_of f (n / 10) in if leb n 9 then digit n else more +++ digit (n % 10)

-- `f"{n}"`
unfoldable pub decimal : ℕ → String
unfolding digits_of digit
decimal n = digits_of (suc n) n

-- `int(text)` of a text of digits
value_from : ℕ → String → ℕ
value_from acc String.[] = acc
value_from acc (String.◌∷◌ c s) = value_from (acc * 10 + (code c - 48)) s

test_decimal : decimal 4096 ≡ "4096"
unfolding decimal
test_decimal = refl

value_from-append :
    (acc : ℕ) (s t : String) → value_from acc (s +++ t) ≡ value_from (value_from acc s) t
unfolding value_from
value_from-append acc String.[] t = rw nil-append
value_from-append acc (String.◌∷◌ c s) t =
    rw cons-append (value_from-append (acc * 10 + (code c - 48)) s t)

value_from-digit : (acc d : ℕ) → d ≤ 9 → value_from acc (digit d) ≡ acc * 10 + d
unfolding value_from digit
value_from-digit acc zero h = omega arith
value_from-digit acc (suc zero) h = omega arith
value_from-digit acc (suc (suc zero)) h = omega arith
value_from-digit acc (suc (suc (suc zero))) h = omega arith
value_from-digit acc (suc (suc (suc (suc zero)))) h = omega arith
value_from-digit acc (suc (suc (suc (suc (suc zero))))) h = omega arith
value_from-digit acc (suc (suc (suc (suc (suc (suc zero)))))) h = omega arith
value_from-digit acc (suc (suc (suc (suc (suc (suc (suc zero))))))) h = omega arith
value_from-digit acc (suc (suc (suc (suc (suc (suc (suc (suc zero)))))))) h = omega arith
value_from-digit acc (suc (suc (suc (suc (suc (suc (suc (suc (suc zero))))))))) h = omega arith
value_from-digit acc (suc (suc (suc (suc (suc (suc (suc (suc (suc (suc n)))))))))) h =
    absurd (omega arith)

value_from-digits_of : (f n : ℕ) → n < f → value_from 0 (digits_of f n) ≡ n
unfolding digits_of
value_from-digits_of zero n h = elim h [ ]
value_from-digits_of (suc f) n h = elim (Bool-cases (leb n 9)) [
  | inl short ↦ rw short (value_from-digit 0 n (ground arith) ∙ omega arith)
  | inr long ↦
      let big : 10 ≤ n = ground arith in
      rw long (
        value_from-append 0 (digits_of f (n / 10)) (digit (n % 10))
        ∙ ap (λ v. value_from v (digit (n % 10))) (value_from-digits_of f (n / 10) (omega arith))
        ∙ value_from-digit (n / 10) (n % 10) (omega arith)
        ∙ omega arith)
]

-- Numbers with one decimal form are one number.
pub decimal-injective : (m n : ℕ) → decimal m ≡ decimal n → m ≡ n
unfolding decimal
decimal-injective m n h =
    sym (value_from-digits_of (suc m) m (omega arith))
    ∙ ap (value_from 0) h
    ∙ value_from-digits_of (suc n) n (omega arith)

-- A common beginning can be taken off.
pub append_cancel : (s a b : String) → s +++ a ≡ s +++ b → a ≡ b
append_cancel String.[] a b h = sym (nil-append a) ∙ h ∙ nil-append b
append_cancel (String.◌∷◌ c s) a b h =
    let h' : String.◌∷◌ c (s +++ a) ≡ String.◌∷◌ c (s +++ b) =
      sym (cons-append c s a) ∙ h ∙ cons-append c s b in
    append_cancel s a b (cc h')

-- What can be added to a text without changing it is empty.
pub append_self : (s t : String) → s ≡ s +++ t → "" ≡ t
append_self s t h = append_cancel s "" t (append-nil s ∙ h)

pub nil_ne_cons : (c : Char) (t : String) → "" ≡ String.◌∷◌ c t → ⊥
nil_ne_cons c t h = cc

-- `s[len(p):] if s.startswith(p) else None`
unfoldable pub strip_prefix : String → String → Option String
strip_prefix String.[] s = some s
strip_prefix (String.◌∷◌ c p) String.[] = none
strip_prefix (String.◌∷◌ c p) (String.◌∷◌ d s) =
    let rest = strip_prefix p s in ite (ℕ_discrete (code c) (code d)) rest none

pub strip_prefix-append : (p s : String) → strip_prefix p (p +++ s) ≡ some s
unfolding strip_prefix
strip_prefix-append String.[] s = ap some (nil-append s)
strip_prefix-append (String.◌∷◌ c p) s =
    rw (cons-append c p s)
      (if_pos (ℕ_discrete (code c) (code c)) refl _ _ ∙ strip_prefix-append p s)

-- `", ".join(names)`
unfoldable pub joined : List String → String
joined [] = ""
joined (n ∷ []) = n
joined (n ∷ m ∷ ns) = n +++ ", " +++ joined (m ∷ ns)

-- Every character is a digit.
abbrev pub IsDigits : String → Type 0
IsDigits String.[] = Unit
IsDigits (String.◌∷◌ c s) = (48 ≤ code c) × (code c ≤ 57) × IsDigits s

IsDigits-append : (s t : String) → IsDigits s → IsDigits t → IsDigits (s +++ t)
IsDigits-append String.[] t h k = subst IsDigits (sym (nil-append t)) k
IsDigits-append (String.◌∷◌ c s) t h k =
    subst IsDigits (sym (cons-append c s t)) (h.0, h.1, IsDigits-append s t h.2 k)

digit-IsDigits : (d : ℕ) → IsDigits (digit d)
unfolding digit
digit-IsDigits zero = omega arith
digit-IsDigits (suc zero) = omega arith
digit-IsDigits (suc (suc zero)) = omega arith
digit-IsDigits (suc (suc (suc zero))) = omega arith
digit-IsDigits (suc (suc (suc (suc zero)))) = omega arith
digit-IsDigits (suc (suc (suc (suc (suc zero))))) = omega arith
digit-IsDigits (suc (suc (suc (suc (suc (suc zero)))))) = omega arith
digit-IsDigits (suc (suc (suc (suc (suc (suc (suc zero))))))) = omega arith
digit-IsDigits (suc (suc (suc (suc (suc (suc (suc (suc zero)))))))) = omega arith
digit-IsDigits (suc (suc (suc (suc (suc (suc (suc (suc (suc n))))))))) = omega arith

digits_of-IsDigits : (f n : ℕ) → IsDigits (digits_of f n)
unfolding digits_of
digits_of-IsDigits zero n = tt
digits_of-IsDigits (suc f) n = elim (Bool-cases (leb n 9)) [
  | inl short ↦ rw short (digit-IsDigits n)
  | inr long ↦ rw long (
      IsDigits-append (digits_of f (n / 10)) (digit (n % 10)) (digits_of-IsDigits f (n / 10))
        (digit-IsDigits (n % 10)))
]

pub decimal-IsDigits : (n : ℕ) → IsDigits (decimal n)
unfolding decimal
decimal-IsDigits n = digits_of-IsDigits (suc n) n
