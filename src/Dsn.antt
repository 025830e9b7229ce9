-- ===== src/Dsn.antt =====
-- src/xtr_messenger/dsn.py.
pub mod Connection
use Prim.Native.Char.{code}
use Prim.Native.String
use python_xtr_messenger.Base.{
  Bool, Dict, Option, Result, String, [], false, if◌then◌else◌, ite, none, ok, raise, some,
  string_discrete, string_eq, strip_prefix, true, ◌+++◌, ◌∷◌, ◌≟◌,
}
use python_xtr_messenger.Errors.{Error, invalid_dsn}
use python_xtr_messenger.Urls.{SplitResult, Urllib, has, is_code, lower, parse_options, urlsplit}

pub record Dsn : Type 0 where
  pub raw : String
  pub scheme : String
  pub connection : String
  pub dsn_options : Dict String String

-- `part in s`
unfoldable pub has_text : String → String → Bool
unfolding strip_prefix
has_text part String.[] = elim (strip_prefix part "") [ none ↦ false | some _ ↦ true ]
has_text part (String.◌∷◌ c s) =
    let rest = has_text part s in
    elim (strip_prefix part (String.◌∷◌ c s)) [ none ↦ rest | some _ ↦ true ]

-- `f"{path}?{query}#{fragment}"`
abbrev pub remainder_of : SplitResult → String
remainder_of split = split.path +++ "?" +++ split.query +++ "#" +++ split.fragment

abbrev pub no_scheme : String → Error
no_scheme raw = invalid_dsn raw "has no scheme; expected something like 'amqp://host'"

-- the DSN of what was read
unfoldable pub dsn_of : Urllib → String → SplitResult → Dsn
unfolding lower parse_options
dsn_of u raw split = record {
  raw = raw;
  scheme = lower split.url_scheme;
  connection = lower split.url_scheme +++ "://" +++ split.netloc +++ split.path;
  dsn_options = parse_options u split.query;
}

-- what follows the reading as a URL
unfoldable pub dsn_from : Urllib → String → Option SplitResult → Result Error Dsn
unfolding has string_discrete
dsn_from u raw none = raise (invalid_dsn raw "could not be read as a URL")
dsn_from u raw (some split) = ite (split.url_scheme ≟ "") (raise (no_scheme raw)) (
    if has (is_code b'@') (remainder_of split)
    then raise
        (invalid_dsn raw "carries an '@' beyond its authority; percent-encode the credentials")
    else ok (dsn_of u raw split))

-- `Dsn.parse`
unfoldable pub parse_dsn : Urllib → String → Result Error Dsn
unfolding has_text urlsplit dsn_from
parse_dsn u raw =
    if has_text "://" raw then dsn_from u raw (urlsplit u raw) else raise (no_scheme raw)
