-- ===== src/Redaction.antt =====
-- src/xtr_messenger/_redaction.py.
pub mod Leaks
pub mod Textual
use Prim.Native.Char.{Char, code}
use Prim.Native.String
use python_xtr_messenger.Base.{
  Bool, Option, String, false, if◌then◌else◌, ite, none, not, some, string_discrete, string_eq,
  strip_prefix, true, ◌&&◌, ◌+++◌, ◌||◌, ◌≟◌,
}
use python_xtr_messenger.Urls.{
  SplitResult, Urllib, all_chars, before, before_last, behind_last, ends_netloc, from, has, is_code,
  is_empty, is_scheme, lower, tail, urlsplit, urlunsplit,
}

abbrev pub is_at : Char → Bool
is_at c = is_code b'@' c

abbrev pub is_colon : Char → Bool
is_colon c = is_code b':' c

-- `_MASKED`
abbrev pub masked : String
masked = "<redacted dsn>"

-- `s.isdigit()`
unfoldable pub all_digits : Urllib → String → Bool
unfolding all_chars string_discrete
all_digits u s = not (is_empty s) && all_chars u.is_digit s

-- `_is_userinfo_shaped`
unfoldable pub is_userinfo_shaped : Urllib → String → Bool
unfolding has behind_last all_digits
is_userinfo_shaped u netloc =
    has is_colon netloc && not (all_digits u (behind_last is_colon netloc))

-- `_is_user_like_pair`
unfoldable pub is_user_like_pair : Urllib → String → Bool
unfolding has behind_last before_last all_digits lower string_discrete
is_user_like_pair u pair =
    let user = before_last is_colon pair in
    has is_colon pair
    && all_digits u (behind_last is_colon pair)
    && not (is_empty user)
    && not (has (is_code b'.') user)
    && not (has (is_code b'[') user)
    && not (ite (lower user ≟ "localhost") true false)

-- `_is_numeric_password_pair`
unfoldable pub is_numeric_password_pair : Urllib → SplitResult → Bool
unfolding is_user_like_pair string_discrete
is_numeric_password_pair u split =
    is_empty split.path
    && is_empty split.query
    && is_empty split.fragment
    && is_user_like_pair u split.netloc

-- `_is_bare_userinfo_tail`
unfoldable pub is_bare_userinfo_tail : Urllib → String → Bool
unfolding has is_userinfo_shaped
is_bare_userinfo_tail u tail = not (has ends_netloc tail) && is_userinfo_shaped u tail

-- `_is_bare_userinfo`
unfoldable pub is_bare_userinfo : Urllib → SplitResult → Bool
unfolding has is_userinfo_shaped is_user_like_pair string_discrete
is_bare_userinfo u split =
    let pair = split.url_scheme +++ ":" +++ split.path in
    is_empty split.netloc
    && not (is_empty split.url_scheme)
    && not (is_empty split.path)
    && not (has (is_code b'/') split.path)
    && (is_userinfo_shaped u pair || is_user_like_pair u pair)

-- what `_SCHEME_PREFIX` matches, and what follows it; the text itself if it does not match
abbrev pub prefix_or : String → String → Option String → Option String × String
prefix_or scheme dsn none = (none, dsn)
prefix_or scheme dsn (some rest) = (some (scheme +++ "://"), rest)

unfoldable pub scheme_prefix : String → Option String × String
unfolding before from is_scheme strip_prefix
scheme_prefix dsn =
    let scheme = before is_colon dsn in
    if is_scheme scheme
    then prefix_or scheme dsn (strip_prefix "://" (from is_colon dsn))
    else (none, dsn)

abbrev pub textual_of : Urllib → Option String → String → String
textual_of u none tail = if is_bare_userinfo_tail u tail then masked else tail
textual_of u (some prefix) tail = prefix +++ tail

-- `_textually_without_credentials`
unfoldable pub textually_without_credentials : Urllib → String → String
unfolding scheme_prefix behind_last is_bare_userinfo_tail
textually_without_credentials u dsn =
    let (prefix, rest) = scheme_prefix dsn in textual_of u prefix (behind_last is_at rest)

-- what follows `urlsplit` in `_without_credentials`
unfoldable pub without_credentials : Urllib → String → SplitResult → String
unfolding has behind_last urlunsplit textually_without_credentials is_userinfo_shaped
    is_numeric_password_pair is_bare_userinfo string_discrete
without_credentials u dsn split =
    if has is_at split.netloc
    then urlunsplit u (record split { netloc = behind_last is_at split.netloc })
    else if has is_at dsn
    then textually_without_credentials u dsn
    else if not (is_empty split.netloc) && is_userinfo_shaped u split.netloc
    then urlunsplit u (record split { netloc = "" })
    else if not (is_empty split.netloc) && is_numeric_password_pair u split
    then urlunsplit u (record split { netloc = "" })
    else if is_bare_userinfo u split
    then masked
    else dsn

abbrev pub redacted_from : Urllib → String → Option SplitResult → String
redacted_from u dsn none = masked
redacted_from u dsn (some split) = without_credentials u dsn split

-- `redacted`
unfoldable pub redacted : Urllib → String → String
unfolding urlsplit without_credentials
redacted u dsn = redacted_from u dsn (urlsplit u dsn)
