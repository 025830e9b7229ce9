-- ===== src/Urls/Split.antt =====
-- How `urlsplit` reads a URL with a scheme and "://".
use Prim.Native.Char.{Char, code}
use text.Mathlib.TextLemmas.{cons-append, append-nil}
use python_xtr_messenger.Base.{
  Bool, Option, String, ap, arith, false, leb, refl, string_eq, strip_prefix-append, sym, true,
  true_of_false, ℕ_discrete, ◌&&◌, ◌+++◌, ◌||◌, ◌∙◌, ◌≡◌,
}
use python_xtr_messenger.Urls.{
  SplitResult, Urllib, all_chars, before, cleaned, ends_netloc, from, has, is_alpha, is_code,
  is_kept, is_scheme, is_scheme_char, keep_chars, lower, netloc_after, split_netloc, split_rest,
  split_scheme, strip_left, tail, urlsplit,
}
use python_xtr_messenger.Urls.Appended.{
  before-append_none, from-append_none, has-append, keep_chars-append,
}

scheme_char_kept : (c : Char) → is_scheme_char c ≡ true → is_kept c ≡ true
scheme_char_kept c h = ground arith

scheme_char_colon : (c : Char) → is_scheme_char c ≡ true → is_code b':' c ≡ false
scheme_char_colon c h = ground arith

alpha_scheme : (c : Char) → is_alpha c ≡ true → is_scheme_char c ≡ true
alpha_scheme c h = rw h refl

alpha_unstripped : (c : Char) → is_alpha c ≡ true → leb (code c) 32 ≡ false
alpha_unstripped c h = ground arith

and_left : (a b : Bool) → (a && b) ≡ true → a ≡ true
and_left true b h = refl
and_left false b h = h

and_right : (a b : Bool) → (a && b) ≡ true → b ≡ true
and_right true b h = h
and_right false b h = true_of_false h

-- Scheme characters are kept, and none is a colon.
kept_scheme :
    (s : String)
    → all_chars is_scheme_char s ≡ true
    → (keep_chars is_kept s ≡ s) × (has (is_code b':') s ≡ false)
unfolding all_chars keep_chars has
kept_scheme String.[] h = (refl, refl)
kept_scheme (String.◌∷◌ c s) h =
    let char_ok = and_left (is_scheme_char c) (all_chars is_scheme_char s) h in
    let rest = kept_scheme s (and_right (is_scheme_char c) (all_chars is_scheme_char s) h) in
    (
      rw (scheme_char_kept c char_ok) (ap (String.◌∷◌ c) rest.0),
      rw (scheme_char_colon c char_ok) rest.1,
    )

scheme_chars : (s : String) → is_scheme s ≡ true → all_chars is_scheme_char s ≡ true
unfolding is_scheme all_chars
scheme_chars String.[] h = refl
scheme_chars (String.◌∷◌ c s) h =
    let first = alpha_scheme c (and_left (is_alpha c) (all_chars is_scheme_char s) h) in
    rw first (and_right (is_alpha c) (all_chars is_scheme_char s) h)

unstripped :
    (s t : String) → is_scheme s ≡ true → strip_left (λ c. leb (code c) 32) (s +++ t) ≡ s +++ t
unfolding is_scheme strip_left
unstripped String.[] t h = true_of_false h
unstripped (String.◌∷◌ c s) t h =
    rw (cons-append c s t)
      (rw (alpha_unstripped c (and_left (is_alpha c) (all_chars is_scheme_char s) h)) refl)

cleaned-scheme :
    (s t : String) → is_scheme s ≡ true → cleaned (s +++ t) ≡ s +++ keep_chars is_kept t
unfolding cleaned
cleaned-scheme s t h =
    ap (keep_chars is_kept) (unstripped s t h)
    ∙ keep_chars-append is_kept s t
    ∙ ap (λ x. x +++ keep_chars is_kept t) (kept_scheme s (scheme_chars s h)).0

-- The text behind a scheme's "://" is split into the authority and the rest.
abbrev pub split_hier : Urllib → String → String → Option SplitResult
split_hier u scheme x = split_rest u scheme (before ends_netloc x, from ends_netloc x)

colon_slashes : (x : String) → "://" +++ x ≡ String.◌∷◌ ":" ("//" +++ x)
colon_slashes x = cons-append ":" "//" x

-- Where the scheme of a URL ends.
pub colon-scheme :
    (s x : String)
    → is_scheme s ≡ true
    → (has (is_code b':') (s +++ "://" +++ x) ≡ true)
      × (before (is_code b':') (s +++ "://" +++ x) ≡ s)
      × (from (is_code b':') (s +++ "://" +++ x) ≡ "://" +++ x)
unfolding has before from ℕ_discrete
colon-scheme s x h =
    let none_before = (kept_scheme s (scheme_chars s h)).1 in
    (
      has-append (is_code b':') s ("://" +++ x)
          ∙ ap (λ b. b || has (is_code b':') ("://" +++ x)) none_before
          ∙ ap (has (is_code b':')) (colon_slashes x),
      before-append_none (is_code b':') s ("://" +++ x) none_before
          ∙ ap (λ y. s +++ before (is_code b':') y) (colon_slashes x)
          ∙ append-nil s,
      from-append_none (is_code b':') s ("://" +++ x) none_before
          ∙ ap (from (is_code b':')) (colon_slashes x)
          ∙ sym (colon_slashes x),
    )

split_scheme-scheme :
    (s x : String) → is_scheme s ≡ true → split_scheme (s +++ "://" +++ x) ≡ (lower s, "//" +++ x)
unfolding split_scheme tail
split_scheme-scheme s x h =
    let (has_colon, before_colon, from_colon) = colon-scheme s x h in
    rw (has_colon, before_colon, h, from_colon, colon_slashes x) refl

split_netloc-slashes :
    (x : String) → split_netloc ("//" +++ x) ≡ (before ends_netloc x, from ends_netloc x)
unfolding split_netloc
split_netloc-slashes x = ap (netloc_after ("//" +++ x)) (strip_prefix-append "//" x)

pub urlsplit-hier :
    (u : Urllib) (s x : String)
    → is_scheme s ≡ true
    → urlsplit u (s +++ "://" +++ x) ≡ split_hier u (lower s) (keep_chars is_kept x)
unfolding urlsplit keep_chars ℕ_discrete
urlsplit-hier u s x h =
    let kept_part : keep_chars is_kept ("://" +++ x) ≡ "://" +++ keep_chars is_kept x =
      keep_chars-append is_kept "://" x in
    rw (cleaned-scheme s ("://" +++ x) h, kept_part, split_scheme-scheme s (keep_chars is_kept x) h)
      (ap (split_rest u (lower s)) (split_netloc-slashes (keep_chars is_kept x)))
