-- ===== src/Dsn/Connection.antt =====
-- What decides whether two transports share a server.
use Prim.Native.Char.{Char}
use text.Mathlib.TextLemmas.{append-nil}
use python_xtr_messenger.Base.{
  Bool, Bool-cases, Option, Result, String, ap, arith, false, if_neg, if_pos, if◌then◌else◌, inl,
  inr, none, ok, raise, refl, some, string_eq, subst, sym, true, ◌+++◌, ◌∙◌, ◌≟◌, ◌≡◌,
}
use python_xtr_messenger.Dsn.{Dsn, dsn_from, dsn_of, has_text, no_scheme, parse_dsn, remainder_of}
use python_xtr_messenger.Errors.{Error}
use python_xtr_messenger.Urls.{
  SplitResult, Urllib, before, ends_netloc, from, has, is_code, is_kept, is_scheme, keep_chars,
  lower, split_rest, tail, urlsplit,
}
use python_xtr_messenger.Urls.Appended.{
  before-append_none, before-append_stop, before_none, from-append_stop, has-from, has-keep_chars,
  keep_chars-append,
}
use python_xtr_messenger.Urls.Split.{urlsplit-hier}
use python_xtr_messenger.Worker.{stop}

-- Nothing, or a query.
abbrev pub StartsQuery : String → Type 0
StartsQuery String.[] = Unit
StartsQuery (String.◌∷◌ c s) = is_code b'?' c ≡ true

query_kept : (c : Char) → is_code b'?' c ≡ true → is_kept c ≡ true
query_kept c h = ground arith

query_ends : (c : Char) → is_code b'?' c ≡ true → ends_netloc c ≡ true
query_ends c h = ground arith

StartsQuery-keep_chars : (q : String) → StartsQuery q → StartsQuery (keep_chars is_kept q)
unfolding keep_chars
StartsQuery-keep_chars String.[] h = tt
StartsQuery-keep_chars (String.◌∷◌ c q) h = rw (query_kept c h) h

-- Where the authority and the path stop at a query.
stops_at_query :
    (q : String) → StartsQuery q → (before ends_netloc q ≡ "") × (from ends_netloc q ≡ q)
unfolding before from
stops_at_query String.[] h = (refl, refl)
stops_at_query (String.◌∷◌ c q) h = (rw (query_ends c h) refl, rw (query_ends c h) refl)

query_not_hash : (c : Char) → is_code b'?' c ≡ true → is_code b'#' c ≡ false
query_not_hash c h = ground arith

-- A path stops at its query, wherever a fragment begins.
path_stops :
    (y q : String)
    → has (is_code b'?') y ≡ false
    → has (is_code b'#') y ≡ false
    → StartsQuery q
    → before (is_code b'?') (before (is_code b'#') (y +++ q)) ≡ y
unfolding before
path_stops y String.[] hq hf h =
    ap (λ x. before (is_code b'?') (before (is_code b'#') x)) (append-nil y)
    ∙ ap (before (is_code b'?')) (before_none (is_code b'#') y hf)
    ∙ before_none (is_code b'?') y hq
path_stops y (String.◌∷◌ c q) hq hf h =
    ap (before (is_code b'?')) (
      before-append_none (is_code b'#') y (String.◌∷◌ c q) hf
      ∙ ap (λ b. y +++ (if b then "" else String.◌∷◌ c (before (is_code b'#') q)))
          (query_not_hash c h))
    ∙ before-append_none (is_code b'?') y (String.◌∷◌ c (before (is_code b'#') q)) hq
    ∙ ap
        (λ b.
          y +++ (if b then "" else String.◌∷◌ c (before (is_code b'?') (before (is_code b'#') q))))
        h
    ∙ append-nil y

-- The server that a DSN addresses, given what stands behind its "://" up to its query.
abbrev pub server_of : String → String → String
server_of scheme x =
    let kept = keep_chars is_kept x in
    lower (lower scheme) +++ "://" +++ before ends_netloc kept +++ from ends_netloc kept

-- The parts that such a DSN is read with, whatever its query.
abbrev Reads : String → String → SplitResult → Type 0
Reads scheme x split =
    (split.url_scheme ≡ lower scheme)
    × (split.netloc ≡ before ends_netloc (keep_chars is_kept x))
    × (split.path ≡ from ends_netloc (keep_chars is_kept x))

abbrev Serves : String → String → Result Error Dsn → Type 0
Serves scheme x (raise e) = Unit
Serves scheme x (ok d) = (d.connection ≡ server_of scheme x) × (d.scheme ≡ lower (lower scheme))

Serves-dsn_of :
    (u : Urllib) (scheme x raw : String) (split : SplitResult)
    → Reads scheme x split
    → Serves scheme x (ok (dsn_of u raw split))
unfolding dsn_of
Serves-dsn_of u scheme x raw split (a, b, c) = (rw (a, b, c) refl, rw a refl)

Serves-dsn_from :
    (u : Urllib) (scheme x raw : String) (o : Option SplitResult)
    → ((split : SplitResult) → o ≡ some split → Reads scheme x split)
    → Serves scheme x (dsn_from u raw o)
unfolding dsn_from
Serves-dsn_from u scheme x raw none k = tt
Serves-dsn_from u scheme x raw (some split) k = elim (split.url_scheme ≟ "") [
  | yes e ↦ subst (Serves scheme x) (sym (if_pos (split.url_scheme ≟ "") e _ _)) tt
  | no f ↦
      subst (Serves scheme x) (sym (if_neg (split.url_scheme ≟ "") f _ _))
        (elim (Bool-cases (has (is_code b'@') (remainder_of split))) [
          | inl bad ↦ rw bad tt
          | inr good ↦ rw good (Serves-dsn_of u scheme x raw split (k split refl))
        ])
]

module _ (u : Urllib) (scheme x q : String) (scheme_ok : is_scheme scheme ≡ true) where
  abbrev kept_rest : String
  kept_rest = from ends_netloc (keep_chars is_kept x) +++ keep_chars is_kept q

  urlsplit-query :
      StartsQuery q
      → urlsplit u (scheme +++ "://" +++ x +++ q)
        ≡ split_rest u (lower scheme) (before ends_netloc (keep_chars is_kept x), kept_rest)
  urlsplit-query h =
      let (stop, go_on) = stops_at_query (keep_chars is_kept q) (StartsQuery-keep_chars q h) in
      urlsplit-hier u scheme (x +++ q) scheme_ok
      ∙ rw
          (
            keep_chars-append is_kept x q,
            before-append_stop ends_netloc (keep_chars is_kept x) (keep_chars is_kept q) stop,
            from-append_stop ends_netloc (keep_chars is_kept x) (keep_chars is_kept q) go_on,
          )
          refl

  Reads-split :
      has (is_code b'?') x ≡ false
      → has (is_code b'#') x ≡ false
      → StartsQuery q
      → (split : SplitResult)
      → split_rest u (lower scheme) (before ends_netloc (keep_chars is_kept x), kept_rest)
        ≡ some split
      → Reads scheme x split
  Reads-split hq hf h split e = go (u.netloc_refused (before ends_netloc kept)) e
    where
      kept : String
      kept = keep_chars is_kept x

      unfragmented : String
      unfragmented = before (is_code b'#') kept_rest

      whole : SplitResult
      whole = record {
        url_scheme = lower scheme;
        netloc = before ends_netloc kept;
        path = before (is_code b'?') unfragmented;
        query = tail (from (is_code b'?') unfragmented);
        fragment = tail (from (is_code b'#') kept_rest);
      }

      reads : Reads scheme x whole
      reads = (
        refl,
        refl,
        path_stops (from ends_netloc kept) (keep_chars is_kept q)
            (has-from ends_netloc (is_code b'?') kept (has-keep_chars (is_code b'?') is_kept x hq))
            (has-from ends_netloc (is_code b'#') kept (has-keep_chars (is_code b'#') is_kept x hf))
            (StartsQuery-keep_chars q h),
      )

      go : (b : Bool) → (if b then none else some whole) ≡ some split → Reads scheme x split
      go true e' = cc e'
      go false e' = let same : whole ≡ split = cc e' in subst (Reads scheme x) same reads

  -- Transports whose DSNs differ in their query alone address the same server, with the same
  -- scheme: a DSN that is accepted has the scheme and the connection that its
  -- text up to the query gives, whatever the query is.
  pub connection-parse_dsn :
      has (is_code b'?') x ≡ false
      → has (is_code b'#') x ≡ false
      → StartsQuery q
      → (d : Dsn) → parse_dsn u (scheme +++ "://" +++ x +++ q) ≡ ok d
      → (d.connection ≡ server_of scheme x) × (d.scheme ≡ lower (lower scheme))
  unfolding parse_dsn
  connection-parse_dsn hq hf h d e = go (has_text "://" raw) e
    where
      raw : String
      raw = scheme +++ "://" +++ x +++ q

      go :
          (b : Bool)
          → (if b then dsn_from u raw (urlsplit u raw) else raise (no_scheme raw)) ≡ ok d
          → Serves scheme x (ok d)
      go true e' = subst (Serves scheme x) e' (
          Serves-dsn_from u scheme x raw (urlsplit u raw)
            (λ split f. Reads-split hq hf h split (sym (urlsplit-query h) ∙ f)))
      go false e' = cc e'
