-- ===== src/Redaction/Textual.antt =====
-- Credentials that hold a "/", "?" or "#", so that the authority ends within them.
use Prim.Native.Char.{Char}
use text.Mathlib.TextLemmas.{nil-append, cons-append}
use python_xtr_messenger.Base.{
  Bool, Bool-cases, String, ap, arith, false, if◌then◌else◌, inl, inr, none, refl, some, string_eq,
  strip_prefix-append, sym, true, true_of_false, ℕ_discrete, ◌+++◌, ◌||◌, ◌∙◌, ◌≡◌, ◌⊎◌,
}
use python_xtr_messenger.Redaction.{
  is_at, masked, redacted, redacted_from, scheme_prefix, textually_without_credentials,
  without_credentials,
}
use python_xtr_messenger.Redaction.Leaks.{
  authority_of, has_at-at, kept_credentials, or-true, redacted-authority, shown_parts,
  with_credentials,
}
use python_xtr_messenger.Urls.{
  SplitResult, Urllib, before, behind_last, ends_netloc, from, has, is_code, is_kept, is_scheme,
  keep_chars, lower, tail, urlunsplit,
}
use python_xtr_messenger.Urls.Appended.{
  before-append_some, behind_last-append, behind_last_none, has-append,
}
use python_xtr_messenger.Urls.Split.{colon-scheme, urlsplit-hier}

ends_kept : (c : Char) → ends_netloc c ≡ true → is_kept c ≡ true
ends_kept c h = ground arith

has-keep_chars-true :
    (p k : Char → Bool)
    → ((c : Char) → p c ≡ true → k c ≡ true)
    → (s : String) → has p s ≡ true
    → has p (keep_chars k s) ≡ true
unfolding has keep_chars
has-keep_chars-true p k f String.[] h = h
has-keep_chars-true p k f (String.◌∷◌ c s) h =
    go (p c) (k c) refl (f c) h (has-keep_chars-true p k f s)
  where
    go :
        (b b' : Bool)
        → p c ≡ b
        → (p c ≡ true → b' ≡ true)
        → (b || has p s) ≡ true
        → (has p s ≡ true → has p (keep_chars k s) ≡ true)
        → has p (if b' then String.◌∷◌ c (keep_chars k s) else keep_chars k s) ≡ true
    go true true e g h' ih = rw e refl
    go true false e g h' ih = true_of_false (g e)
    go false true e g h' ih = rw e (ih h')
    go false false e g h' ih = ih h'

scheme_prefix-scheme :
    (s x : String)
    → is_scheme s ≡ true
    → scheme_prefix (s +++ "://" +++ x) ≡ (some (s +++ "://"), x)
unfolding scheme_prefix
scheme_prefix-scheme s x h =
    let (_, before_colon, from_colon) = colon-scheme s x h in
    rw (before_colon, h, from_colon, strip_prefix-append "://" x) refl

behind-at : (rest : String) → behind_last is_at ("@" +++ rest) ≡ behind_last is_at rest
unfolding behind_last ℕ_discrete
behind-at rest =
    ap (behind_last is_at) (cons-append "@" "" rest ∙ ap (String.◌∷◌ "@") (nil-append rest))
    ∙ go (has is_at rest) refl
  where
    go :
        (b : Bool)
        → has is_at rest ≡ b
        → (if b then behind_last is_at rest else rest) ≡ behind_last is_at rest
    go true e = refl
    go false e = sym (behind_last_none is_at rest e)

append_assoc_text : (s t x : String) → (s +++ t) +++ x ≡ s +++ t +++ x
append_assoc_text String.[] t x = ap (λ y. y +++ x) (nil-append t) ∙ sym (nil-append (t +++ x))
append_assoc_text (String.◌∷◌ c s) t x =
    ap (λ y. y +++ x) (cons-append c s t)
    ∙ cons-append c (s +++ t) x
    ∙ ap (String.◌∷◌ c) (append_assoc_text s t x)
    ∙ sym (cons-append c s (t +++ x))

-- The authority that such a DSN is read with.
abbrev pub cut_authority : String → String
cut_authority secret = before ends_netloc (keep_chars is_kept secret)

has_right : (p : Char → Bool) (s t : String) → has p t ≡ true → has p (s +++ t) ≡ true
has_right p s t h = has-append p s t ∙ ap (λ b. has p s || b) h ∙ or-true (has p s)

without_credentials-textual :
    (u : Urllib) (dsn : String) (split : SplitResult)
    → has is_at split.netloc ≡ false
    → has is_at dsn ≡ true
    → without_credentials u dsn split ≡ textually_without_credentials u dsn
unfolding without_credentials
without_credentials-textual u dsn split h k = rw (h, k) refl

module _ (u : Urllib) (scheme secret rest : String) (scheme_ok : is_scheme scheme ≡ true) where
  behind_at : behind_last is_at (secret +++ "@" +++ rest) ≡ behind_last is_at rest
  behind_at = behind_last-append is_at secret ("@" +++ rest) (has_at-at rest) ∙ behind-at rest

  textually :
      textually_without_credentials u (with_credentials scheme secret rest)
      ≡ scheme +++ "://" +++ behind_last is_at rest
  unfolding textually_without_credentials
  textually = rw (scheme_prefix-scheme scheme (secret +++ "@" +++ rest) scheme_ok) (
      append_assoc_text scheme "://" (behind_last is_at (secret +++ "@" +++ rest))
      ∙ ap (λ x. scheme +++ "://" +++ x) behind_at)

  has_at-dsn : has is_at (with_credentials scheme secret rest) ≡ true
  has_at-dsn = has_right is_at scheme ("://" +++ secret +++ "@" +++ rest) (
      has_right is_at "://" (secret +++ "@" +++ rest)
        (has_right is_at secret ("@" +++ rest) (has_at-at rest)))

  -- Credentials that the authority ends within are dropped with the last "@" of the DSN.
  redacted-textual :
      has ends_netloc secret ≡ true
      → has is_at (cut_authority secret) ≡ false
      → redacted u (with_credentials scheme secret rest) ≡ (
          if u.netloc_refused (cut_authority secret)
          then masked
          else scheme +++ "://" +++ behind_last is_at rest)
  unfolding redacted
  redacted-textual h no_at =
      ap (redacted_from u dsn)
        (urlsplit-hier u scheme (secret +++ "@" +++ rest) scheme_ok ∙ rw authority refl)
      ∙ go (u.netloc_refused (cut_authority secret))
    where
      dsn : String
      dsn = with_credentials scheme secret rest

      after : String
      after = from ends_netloc (keep_chars is_kept (secret +++ "@" +++ rest))

      whole : SplitResult
      whole = record {
        url_scheme = lower scheme;
        netloc = cut_authority secret;
        path = before (is_code b'?') (before (is_code b'#') after);
        query = tail (from (is_code b'?') (before (is_code b'#') after));
        fragment = tail (from (is_code b'#') after);
      }

      authority :
          before ends_netloc (keep_chars is_kept (secret +++ "@" +++ rest)) ≡ cut_authority secret
      authority =
          ap (before ends_netloc) (kept_credentials u scheme secret rest scheme_ok)
          ∙ before-append_some ends_netloc (keep_chars is_kept secret)
              ("@" +++ keep_chars is_kept rest)
              (has-keep_chars-true ends_netloc is_kept ends_kept secret h)

      go :
          (b : Bool)
          → redacted_from u dsn (if b then none else some whole)
            ≡ (if b then masked else scheme +++ "://" +++ behind_last is_at rest)
      go true = refl
      go false = without_credentials-textual u dsn whole no_at has_at-dsn ∙ textually

  -- A DSN with credentials, of which no "@" stands before their first "/", "?" or "#" if they have
  -- one, is shown as a placeholder, or as a text that is made of its scheme and of what follows the
  -- credentials, whatever these are.
  pub redacted-hides :
      (has ends_netloc secret ≡ true → has is_at (cut_authority secret) ≡ false)
      → (redacted u (with_credentials scheme secret rest) ≡ masked)
        ⊎ (redacted u (with_credentials scheme secret rest)
            ≡ urlunsplit u (shown_parts scheme rest))
        ⊎ (redacted u (with_credentials scheme secret rest)
            ≡ scheme +++ "://" +++ behind_last is_at rest)
  redacted-hides no_at = elim (Bool-cases (has ends_netloc secret)) [
    | inl cut ↦ elim (Bool-cases (u.netloc_refused (cut_authority secret))) [
      | inl bad ↦ inl (redacted-textual cut (no_at cut) ∙ rw bad refl)
      | inr good ↦ inr (inr (redacted-textual cut (no_at cut) ∙ rw good refl))
    ]
    | inr whole ↦ elim (Bool-cases (u.netloc_refused (authority_of secret rest))) [
      | inl bad ↦ inl (redacted-authority u scheme secret rest scheme_ok whole ∙ rw bad refl)
      | inr good ↦
          inr (inl (redacted-authority u scheme secret rest scheme_ok whole ∙ rw good refl))
    ]
  ]
