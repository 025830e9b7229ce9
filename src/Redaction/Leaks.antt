-- ===== src/Redaction/Leaks.antt =====
-- What a redacted DSN can tell of the credentials that were in it.
use python_xtr_messenger.Base.{
  Bool, String, ap, false, if◌then◌else◌, none, refl, some, string_eq, true, ℕ_discrete, ◌+++◌,
  ◌||◌, ◌∙◌, ◌≡◌,
}
use python_xtr_messenger.Redaction.{is_at, masked, redacted, redacted_from, without_credentials}
use python_xtr_messenger.Urls.{
  SplitResult, Urllib, before, behind_last, ends_netloc, from, has, is_code, is_kept, is_scheme,
  keep_chars, lower, tail, urlunsplit,
}
use python_xtr_messenger.Urls.Appended.{
  before-append_none, behind_last-append, from-append_none, has-append, has-keep_chars,
  keep_chars-append,
}
use python_xtr_messenger.Urls.Split.{urlsplit-hier}

-- `scheme://secret@rest`
abbrev pub with_credentials : String → String → String → String
with_credentials scheme secret rest = scheme +++ "://" +++ secret +++ "@" +++ rest

pub or-true : (b : Bool) → (b || true) ≡ true
or-true true = refl
or-true false = refl

pub has_at-at : (x : String) → has is_at ("@" +++ x) ≡ true
unfolding has ℕ_discrete
has_at-at x = has-append is_at "@" x

without_credentials-authority :
    (u : Urllib) (dsn : String) (split : SplitResult)
    → has is_at split.netloc ≡ true
    → without_credentials u dsn split
      ≡ urlunsplit u (record split { netloc = behind_last is_at split.netloc })
unfolding without_credentials
without_credentials-authority u dsn split h = rw h refl

-- What is left of the rest of the DSN, up to its path.
abbrev pub host_of : String → String
host_of rest = before ends_netloc (keep_chars is_kept rest)

-- what `urlsplit` makes of a DSN whose authority holds the credentials
abbrev pub authority_of : String → String → String
authority_of secret rest = keep_chars is_kept secret +++ "@" +++ host_of rest

-- The parts of the DSN that is shown, when the credentials stood in its authority.
abbrev pub shown_parts : String → String → SplitResult
shown_parts scheme rest =
    let after = from ends_netloc (keep_chars is_kept rest) in
    let unfragmented = before (is_code b'#') after in
    record {
      url_scheme = lower scheme;
      netloc = behind_last is_at ("@" +++ host_of rest);
      path = before (is_code b'?') unfragmented;
      query = tail (from (is_code b'?') unfragmented);
      fragment = tail (from (is_code b'#') after);
    }

module _ (u : Urllib) (scheme secret rest : String) (scheme_ok : is_scheme scheme ≡ true) where
  pub kept_credentials :
      keep_chars is_kept (secret +++ "@" +++ rest)
      ≡ keep_chars is_kept secret +++ "@" +++ keep_chars is_kept rest
  unfolding keep_chars ℕ_discrete
  kept_credentials =
      keep_chars-append is_kept secret ("@" +++ rest)
      ∙ ap (λ x. keep_chars is_kept secret +++ x) (keep_chars-append is_kept "@" rest)

  split_at :
      has ends_netloc secret ≡ false
      → (before ends_netloc (keep_chars is_kept (secret +++ "@" +++ rest))
          ≡ authority_of secret rest)
        × (from ends_netloc (keep_chars is_kept (secret +++ "@" +++ rest))
            ≡ from ends_netloc (keep_chars is_kept rest))
  unfolding has ℕ_discrete
  split_at h =
      let kept = keep_chars is_kept secret in
      let y = keep_chars is_kept rest in
      let clean = has-keep_chars ends_netloc is_kept secret h in
      (
        ap (before ends_netloc) kept_credentials
            ∙ before-append_none ends_netloc kept ("@" +++ y) clean
            ∙ ap (λ x. kept +++ x) (before-append_none ends_netloc "@" y refl),
        ap (from ends_netloc) kept_credentials
            ∙ from-append_none ends_netloc kept ("@" +++ y) clean
            ∙ from-append_none ends_netloc "@" y refl,
      )

  has_at-authority : has is_at (authority_of secret rest) ≡ true
  unfolding has ℕ_discrete
  has_at-authority =
      has-append is_at (keep_chars is_kept secret) ("@" +++ host_of rest)
      ∙ ap (λ b. has is_at (keep_chars is_kept secret) || b) (has-append is_at "@" (host_of rest))
      ∙ or-true (has is_at (keep_chars is_kept secret))

  -- Credentials in the authority are dropped with its "@".
  pub redacted-authority :
      has ends_netloc secret ≡ false
      → redacted u (with_credentials scheme secret rest) ≡ (
          if u.netloc_refused (authority_of secret rest)
          then masked
          else urlunsplit u (shown_parts scheme rest))
  unfolding redacted
  redacted-authority h =
      ap (redacted_from u dsn) (
        urlsplit-hier u scheme (secret +++ "@" +++ rest) scheme_ok
        ∙ rw ((split_at h).0, (split_at h).1) refl)
      ∙ go (u.netloc_refused (authority_of secret rest))
    where
      dsn : String
      dsn = with_credentials scheme secret rest

      whole : SplitResult
      whole = record (shown_parts scheme rest) { netloc = authority_of secret rest }

      go :
          (b : Bool)
          → redacted_from u dsn (if b then none else some whole)
            ≡ (if b then masked else urlunsplit u (shown_parts scheme rest))
      go true = refl
      go false =
          without_credentials-authority u dsn whole has_at-authority
          ∙ ap (λ x. urlunsplit u (record (shown_parts scheme rest) { netloc = x }))
              (behind_last-append is_at (keep_chars is_kept secret) ("@" +++ host_of rest)
                (has_at-at (host_of rest)))
