-- ===== src/Urls/Appended.antt =====
-- How a text that is put together is searched and split.
use Prim.Native.Char.{Char}
use text.Mathlib.TextLemmas.{nil-append, cons-append}
use python_xtr_messenger.Base.{
  Bool, String, ap, false, if◌then◌else◌, refl, string_eq, sym, true, true_of_false, ◌+++◌, ◌||◌,
  ◌∙◌, ◌≡◌,
}
use python_xtr_messenger.Urls.{before, behind_last, from, has, keep_chars}

module _ (p : Char → Bool) where
  pub has-append : (s t : String) → has p (s +++ t) ≡ (has p s || has p t)
  unfolding has
  has-append String.[] t = ap (has p) (nil-append t)
  has-append (String.◌∷◌ c s) t = ap (has p) (cons-append c s t) ∙ go (p c) (has-append s t)
    where
      go :
          (b : Bool)
          → has p (s +++ t) ≡ (has p s || has p t)
          → (b || has p (s +++ t)) ≡ ((b || has p s) || has p t)
      go true e = refl
      go false e = e

  -- A text without such a character is before the first one.
  pub before-append_none : (s t : String) → has p s ≡ false → before p (s +++ t) ≡ s +++ before p t
  unfolding has before
  before-append_none String.[] t h = ap (before p) (nil-append t) ∙ sym (nil-append (before p t))
  before-append_none (String.◌∷◌ c s) t h =
      ap (before p) (cons-append c s t)
      ∙ go (p c) h (before-append_none s t)
      ∙ sym (cons-append c s (before p t))
    where
      go :
          (b : Bool)
          → (b || has p s) ≡ false
          → (has p s ≡ false → before p (s +++ t) ≡ s +++ before p t)
          → (if b then "" else String.◌∷◌ c (before p (s +++ t))) ≡ String.◌∷◌ c (s +++ before p t)
      go true e ih = true_of_false (sym e)
      go false e ih = ap (String.◌∷◌ c) (ih e)

  pub from-append_none : (s t : String) → has p s ≡ false → from p (s +++ t) ≡ from p t
  unfolding has from
  from-append_none String.[] t h = ap (from p) (nil-append t)
  from-append_none (String.◌∷◌ c s) t h =
      ap (from p) (cons-append c s t) ∙ go (p c) h (from-append_none s t)
    where
      go :
          (b : Bool)
          → (b || has p s) ≡ false
          → (has p s ≡ false → from p (s +++ t) ≡ from p t)
          → (if b then String.◌∷◌ c (s +++ t) else from p (s +++ t)) ≡ from p t
      go true e ih = true_of_false (sym e)
      go false e ih = ih e

  -- A text with such a character ends before the appended one.
  pub before-append_some : (s t : String) → has p s ≡ true → before p (s +++ t) ≡ before p s
  unfolding has before
  before-append_some String.[] t h = true_of_false h
  before-append_some (String.◌∷◌ c s) t h =
      ap (before p) (cons-append c s t) ∙ go (p c) h (before-append_some s t)
    where
      go :
          (b : Bool)
          → (b || has p s) ≡ true
          → (has p s ≡ true → before p (s +++ t) ≡ before p s)
          → (if b then "" else String.◌∷◌ c (before p (s +++ t)))
            ≡ (if b then "" else String.◌∷◌ c (before p s))
      go true e ih = refl
      go false e ih = ap (String.◌∷◌ c) (ih e)

  -- What follows the last such character is not felt by what stands before it.
  pub behind_last-append :
      (s t : String) → has p t ≡ true → behind_last p (s +++ t) ≡ behind_last p t
  unfolding has behind_last
  behind_last-append String.[] t h = ap (behind_last p) (nil-append t)
  behind_last-append (String.◌∷◌ c s) t h =
      ap (behind_last p) (cons-append c s t)
      ∙ rw (has-append s t ∙ ap (λ b. has p s || b) h ∙ or-true (has p s))
          (behind_last-append s t h)
    where
      or-true : (b : Bool) → (b || true) ≡ true
      or-true true = refl
      or-true false = refl

  pub behind_last_none : (t : String) → has p t ≡ false → behind_last p t ≡ t
  unfolding has behind_last
  behind_last_none String.[] h = refl
  behind_last_none (String.◌∷◌ c t) h = go (p c) (has p t) h
    where
      go :
          (b b' : Bool)
          → (b || b') ≡ false
          → (if b' then behind_last p t else if b then t else String.◌∷◌ c t) ≡ String.◌∷◌ c t
      go true b' e = true_of_false (sym e)
      go false true e = true_of_false (sym e)
      go false false e = refl

  pub keep_chars-append :
      (s t : String) → keep_chars p (s +++ t) ≡ keep_chars p s +++ keep_chars p t
  unfolding keep_chars
  keep_chars-append String.[] t =
      ap (keep_chars p) (nil-append t) ∙ sym (nil-append (keep_chars p t))
  keep_chars-append (String.◌∷◌ c s) t =
      ap (keep_chars p) (cons-append c s t) ∙ go (p c) (keep_chars-append s t)
    where
      go :
          (b : Bool)
          → keep_chars p (s +++ t) ≡ keep_chars p s +++ keep_chars p t
          → (if b then String.◌∷◌ c (keep_chars p (s +++ t)) else keep_chars p (s +++ t))
            ≡ (if b then String.◌∷◌ c (keep_chars p s) else keep_chars p s) +++ keep_chars p t
      go true e = ap (String.◌∷◌ c) e ∙ sym (cons-append c (keep_chars p s) (keep_chars p t))
      go false e = e

module _ (p : Char → Bool) where
  pub before-append_stop : (s t : String) → before p t ≡ "" → before p (s +++ t) ≡ before p s
  unfolding before
  before-append_stop String.[] t h = ap (before p) (nil-append t) ∙ h
  before-append_stop (String.◌∷◌ c s) t h =
      ap (before p) (cons-append c s t)
      ∙ ap (λ x. if p c then "" else String.◌∷◌ c x) (before-append_stop s t h)

  pub from-append_stop : (s t : String) → from p t ≡ t → from p (s +++ t) ≡ from p s +++ t
  unfolding from
  from-append_stop String.[] t h = ap (from p) (nil-append t) ∙ h ∙ sym (nil-append t)
  from-append_stop (String.◌∷◌ c s) t h =
      ap (from p) (cons-append c s t) ∙ go (p c) (from-append_stop s t h)
    where
      go :
          (b : Bool)
          → from p (s +++ t) ≡ from p s +++ t
          → (if b then String.◌∷◌ c (s +++ t) else from p (s +++ t))
            ≡ (if b then String.◌∷◌ c s else from p s) +++ t
      go true e = sym (cons-append c s t)
      go false e = e

pub has-from : (p q : Char → Bool) (s : String) → has q s ≡ false → has q (from p s) ≡ false
unfolding has from
has-from p q String.[] h = refl
has-from p q (String.◌∷◌ c s) h = go (p c) (q c) refl h (has-from p q s)
  where
    go :
        (b b' : Bool)
        → q c ≡ b'
        → (b' || has q s) ≡ false
        → (has q s ≡ false → has q (from p s) ≡ false)
        → has q (if b then String.◌∷◌ c s else from p s) ≡ false
    go b true e h' ih = true_of_false (sym h')
    go true false e h' ih = rw e h'
    go false false e h' ih = ih h'

pub has-keep_chars :
    (p k : Char → Bool) (s : String) → has p s ≡ false → has p (keep_chars k s) ≡ false
unfolding has keep_chars
has-keep_chars p k String.[] h = refl
has-keep_chars p k (String.◌∷◌ c s) h = go (p c) (k c) refl h (has-keep_chars p k s)
  where
    go :
        (b b' : Bool)
        → p c ≡ b
        → (b || has p s) ≡ false
        → (has p s ≡ false → has p (keep_chars k s) ≡ false)
        → has p (if b' then String.◌∷◌ c (keep_chars k s) else keep_chars k s) ≡ false
    go true b' e h' ih = true_of_false (sym h')
    go false true e h' ih = rw e (ih h')
    go false false e h' ih = ih h'

pub before_none : (p : Char → Bool) (s : String) → has p s ≡ false → before p s ≡ s
unfolding has before
before_none p String.[] h = refl
before_none p (String.◌∷◌ c s) h = go (p c) h (before_none p s)
  where
    go :
        (b : Bool)
        → (b || has p s) ≡ false
        → (has p s ≡ false → before p s ≡ s)
        → (if b then "" else String.◌∷◌ c (before p s)) ≡ String.◌∷◌ c s
    go true h' ih = true_of_false (sym h')
    go false h' ih = ap (String.◌∷◌ c) (ih h')
