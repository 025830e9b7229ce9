-- ===== src/Tests/Configuring.antt =====
-- DSNs, settings and named middlewares at small inputs.
use mathlib.Core.Option
use python_xtr_messenger.Base.{
  IsDistinct, List, String, [], contains, decimal, false, get, ite, map, nat_eq, none, ok, or_else,
  raise, refl, some, string_discrete, string_eq, suc, true, ℕ, ℕ_discrete, ◌+++◌, ◌+◌, ◌∷◌, ◌≟◌,
  ◌≡◌, ◌⊎◌,
}
use python_xtr_messenger.Chain.{
  Builder, Entry, Repr, by_name, entry_key, mapping, resolve, resolve_from, with_arguments,
}
use python_xtr_messenger.Chain.Container.{
  Located, in_units_of_work, middleware_keys, named_from_config, returning,
}
use python_xtr_messenger.Chain.Keys.{entry_key-injective}
use python_xtr_messenger.Chain.Layers.{
  builders_of, find-named_middleware, is_some, named_middleware,
}
use python_xtr_messenger.Chain.Resolved.{resolve-container, taken}
use python_xtr_messenger.Config.{TransportConfig}
use python_xtr_messenger.Dsn.{Dsn, dsn_of, has_text, parse_dsn}
use python_xtr_messenger.Dsn.Connection.{connection-parse_dsn, server_of}
use python_xtr_messenger.Errors.{invalid_dsn, invalid_middleware_arguments, unknown_middleware}
use python_xtr_messenger.Redaction.{is_at, masked, redacted}
use python_xtr_messenger.Redaction.Leaks.{shown_parts, with_credentials}
use python_xtr_messenger.Redaction.Textual.{redacted-hides}
use python_xtr_messenger.Stamps.{text}
use python_xtr_messenger.Urls.{
  Urllib, before, behind_last, between, has, is_scheme, keep_chars, lower, urlunsplit,
}

abbrev pub plain_urls : Urllib
plain_urls = record {
  netloc_refused = λ n. false;
  unquote = λ s. s;
  is_digit = between 48 57;
  hostless = λ s p. s +++ ":" +++ p;
}

test_parse :
    parse_dsn plain_urls "amqp://a@b:1/v?queue=jobs&x=&y=2"
    ≡ ok (record {
      raw = "amqp://a@b:1/v?queue=jobs&x=&y=2";
      scheme = "amqp";
      connection = "amqp://a@b:1/v";
      dsn_options = ("queue", "jobs") ∷ ("y", "2") ∷ [];
    })
unfolding parse_dsn has_text string_discrete ℕ_discrete dsn_of
test_parse = refl

-- A password with a "?" is refused.
test_parse_at :
    parse_dsn plain_urls "amqp://u:a?b@h"
    ≡ raise (
        invalid_dsn "amqp://u:a?b@h"
          "carries an '@' beyond its authority; percent-encode the credentials")
unfolding parse_dsn has_text string_discrete ℕ_discrete
test_parse_at = refl

test_redacted : redacted plain_urls "amqp://u:a@h:5672/v?q=1" ≡ "amqp://h:5672/v?q=1"
unfolding redacted string_discrete ℕ_discrete
test_redacted = refl

-- The scheme comes back in lower case.
test_redacted_scheme : redacted plain_urls "AMQP://u:a@h" ≡ "amqp://h"
unfolding redacted string_discrete ℕ_discrete
test_redacted_scheme = refl

-- A name with an "@", and a password with a "/", leave a part of the password.
test_redacted_name : redacted plain_urls "amqp://me@co:pa/ss@h" ≡ "amqp://co:pa/ss@h"
unfolding redacted string_discrete ℕ_discrete
test_redacted_name = refl

test_redacted_pair : redacted plain_urls "user:s3cret" ≡ "<redacted dsn>"
unfolding redacted string_discrete ℕ_discrete
test_redacted_pair = refl

test_redacted_host : redacted plain_urls "host:5672" ≡ "<redacted dsn>"
unfolding redacted string_discrete ℕ_discrete
test_redacted_host = refl

abbrev jobs_dsn : Dsn
jobs_dsn = record {
  raw = "amqp://a@h/v?queue=jobs";
  scheme = "amqp";
  connection = "amqp://a@h/v";
  dsn_options = ("queue", "jobs") ∷ [];
}

connection-parse_dsn_example :
    (jobs_dsn.connection ≡ server_of "amqp" "a@h/v") × (jobs_dsn.scheme ≡ lower (lower "amqp"))
unfolding parse_dsn has_text string_discrete ℕ_discrete dsn_of has is_scheme
connection-parse_dsn_example =
    connection-parse_dsn plain_urls "amqp" "a@h/v" "?queue=jobs" refl refl refl refl jobs_dsn refl

redacted-hides_example :
    (redacted plain_urls (with_credentials "amqp" "u:a/b" "h/v") ≡ masked)
    ⊎ (redacted plain_urls (with_credentials "amqp" "u:a/b" "h/v")
        ≡ urlunsplit plain_urls (shown_parts "amqp" "h/v"))
    ⊎ (redacted plain_urls (with_credentials "amqp" "u:a/b" "h/v")
        ≡ "amqp" +++ "://" +++ behind_last is_at "h/v")
unfolding has before keep_chars is_scheme ℕ_discrete
redacted-hides_example = redacted-hides plain_urls "amqp" "u:a/b" "h/v" refl (λ h. refl)

abbrev jobs_config : TransportConfig
jobs_config = record {
  dsn = "amqp://a@h/v?queue=jobs";
  queue = some "high";
  options = ("prefetch", "5") ∷ ("queue", "low") ∷ [];
}

entry_key-injective_example : (◌≡◌ {A = String} "a#1" "a#1") × (◌≡◌ {A = ℕ} 2 2)
entry_key-injective_example = entry_key-injective "a#1" "a#1" 2 2 refl

-- A middleware is a number here, and building one counts; the builder of a class takes a channel.
abbrev counting : ℕ → Builder ℕ ℕ
counting m = record {
  complaint = λ arguments. elim (get "channel" arguments) [
    | none ↦ some "missing a required argument: 'channel'"
    | some _ ↦ none
  ];
  build = λ arguments n. (ok m, suc n);
}

find-named_middleware_example :
    IsDistinct
      (named_middleware
        (counting 0)
        (("audit", counting 1) ∷ [])
        counting
        (("audit", 2) ∷ ("log", 3) ∷ [])).listed
    × ((n : String)
        → ((named_middleware
                (counting 0)
                (("audit", counting 1) ∷ [])
                counting
                (("audit", 2) ∷ ("log", 3) ∷ [])).find
              n
            ≡ or_else (get n (("audit", counting 1) ∷ [])) (
                or_else
                  (Option.map counting (get n (("audit", 2) ∷ ("log", 3) ∷ [])))
                  (ite ("logging" ≟ n) (some (counting 0)) none)))
          × (contains
                (named_middleware
                  (counting 0)
                  (("audit", counting 1) ∷ [])
                  counting
                  (("audit", 2) ∷ ("log", 3) ∷ [])).listed
                n
              ≡ is_some (
                  (named_middleware
                      (counting 0)
                      (("audit", counting 1) ∷ [])
                      counting
                      (("audit", 2) ∷ ("log", 3) ∷ [])).find
                    n)))
find-named_middleware_example =
    find-named_middleware counting (counting 0) (("audit", counting 1) ∷ [])
      (("audit", 2) ∷ ("log", 3) ∷ [])

abbrev quoting : Repr
quoting = record { repr_text = λ s. "'" +++ s +++ "'"; repr_given = λ g. "..." }

abbrev two_entries : List (Entry ℕ)
two_entries =
    by_name "audit"
    ∷ with_arguments (("audit", mapping ((text "channel", text "billing") ∷ [])) ∷ [])
    ∷ []

-- A container that carries all names, and counts what it builds.
abbrev full_container : Located ℕ ℕ
full_container = record { carries = λ n. true; fetch = λ n s. (ok (s + 10), suc s) }

resolve-container_example :
    (ms : List ℕ) × (resolve quoting
        (named_middleware
          (counting 0)
          (builders_of returning (("audit", 10) ∷ ("audit#0", 11) ∷ []))
          counting
          [])
        (in_units_of_work 99 two_entries)
        7
      ≡ (ok (99 ∷ ms), 7))
    × (map some ms ≡ taken quoting (("audit", 10) ∷ ("audit#0", 11) ∷ []) 0 two_entries)
unfolding middleware_keys named_from_config entry_key decimal string_discrete
resolve-container_example =
    resolve-container quoting (counting 0) counting [] full_container 99 two_entries
      (("audit", 10) ∷ ("audit#0", 11) ∷ []) 0 2 7 (refl, (refl, tt)) refl

test_unknown :
    resolve quoting
      (named_middleware (counting 0) [] counting (("audit", 2) ∷ []))
      (by_name "audti" ∷ [])
      0
    ≡ (raise (unknown_middleware "audti" ("logging" ∷ "audit" ∷ [])), 0)
unfolding resolve_from named_middleware string_discrete
test_unknown = refl

test_missing_argument :
    resolve quoting
      (named_middleware (counting 0) [] counting (("audit", 2) ∷ []))
      (with_arguments (("audit", mapping []) ∷ []) ∷ [])
      0
    ≡ (raise (invalid_middleware_arguments "audit" "missing a required argument: 'channel'"), 0)
unfolding resolve_from named_middleware string_discrete
test_missing_argument = refl
