-- ===== src/Urls.antt =====
-- What Python's urllib.parse does with the texts that src/xtr_messenger/dsn.py and _redaction.py
-- hand it, by code points.
pub mod Appended
pub mod Split
use Prim.Native.Char.{Char, code}
use python_xtr_messenger.Base.{
  Bool, Dict, Option, String, [], false, if◌then◌else◌, ite, leb, nat_eq, none, not, put, some,
  string_discrete, string_eq, strip_prefix, suc, true, zero, ℕ, ℕ_discrete, ◌&&◌, ◌+++◌, ◌||◌, ◌∷◌,
  ◌≟◌,
}

-- What the standard library's tables and its version decide: whether a netloc is refused for its
-- bracketed address or for what its characters normalise to, percent-decoding, `str.isdigit` of one
-- character, and what `urlunsplit` writes for a scheme and a path without a netloc.
pub record Urllib : Type 0 where
  pub netloc_refused : String → Bool
  pub unquote : String → String
  pub is_digit : Char → Bool
  pub hostless : String → String → String

abbrev pub is_code : ℕ → Char → Bool
is_code n c = ite (ℕ_discrete (code c) n) true false

-- `c in s` of a character
unfoldable pub has : (Char → Bool) → String → Bool
has p String.[] = false
has p (String.◌∷◌ c s) = p c || has p s

-- the text before the first such character
unfoldable pub before : (Char → Bool) → String → String
before p String.[] = ""
before p (String.◌∷◌ c s) = let rest = String.◌∷◌ c (before p s) in if p c then "" else rest

-- the text from it on
unfoldable pub from : (Char → Bool) → String → String
from p String.[] = ""
from p (String.◌∷◌ c s) = let rest = from p s in if p c then String.◌∷◌ c s else rest

-- `s[1:]`
unfoldable pub tail : String → String
tail String.[] = ""
tail (String.◌∷◌ c s) = s

-- the text behind the last such character, the whole text if there is none: `s.rpartition(c)[2]`
unfoldable pub behind_last : (Char → Bool) → String → String
unfolding has
behind_last p String.[] = ""
behind_last p (String.◌∷◌ c s) =
    let rest = behind_last p s in if has p s then rest else if p c then s else String.◌∷◌ c s

-- the text before the last such character, empty if there is none: `s.rpartition(c)[0]`
unfoldable pub before_last : (Char → Bool) → String → String
unfolding has
before_last p String.[] = ""
before_last p (String.◌∷◌ c s) =
    let rest = String.◌∷◌ c (before_last p s) in if has p s then rest else ""

-- the characters that are such, without the others
unfoldable pub keep_chars : (Char → Bool) → String → String
keep_chars p String.[] = ""
keep_chars p (String.◌∷◌ c s) = let rest = keep_chars p s in if p c then String.◌∷◌ c rest else rest

-- `s.lstrip(chars)`
unfoldable pub strip_left : (Char → Bool) → String → String
strip_left p String.[] = ""
strip_left p (String.◌∷◌ c s) = let rest = strip_left p s in if p c then rest else String.◌∷◌ c s

-- `all(p(c) for c in s)`
unfoldable pub all_chars : (Char → Bool) → String → Bool
all_chars p String.[] = true
all_chars p (String.◌∷◌ c s) = p c && all_chars p s

abbrev pub between : ℕ → ℕ → Char → Bool
between low high c = leb low (code c) && leb (code c) high

abbrev pub is_alpha : Char → Bool
is_alpha c = between 65 90 c || between 97 122 c

-- a letter, a digit, or one of "+-."
abbrev pub is_scheme_char : Char → Bool
is_scheme_char c =
    is_alpha c || between 48 57 c || is_code b'+' c || is_code b'-' c || is_code b'.' c

-- the character at the same place of the second text
unfoldable pub translate_char : Char → String → String → Char
translate_char c (String.◌∷◌ x xs) (String.◌∷◌ y ys) =
    let rest = translate_char c xs ys in if is_code (code x) c then y else rest
translate_char c String.[] ys = c
translate_char c (String.◌∷◌ x xs) String.[] = c

-- `s.lower()`, on the letters of ASCII
unfoldable pub lower : String → String
unfolding translate_char
lower String.[] = ""
lower (String.◌∷◌ c s) =
    String.◌∷◌ (translate_char c "ABCDEFGHIJKLMNOPQRSTUVWXYZ" "abcdefghijklmnopqrstuvwxyz")
      (lower s)

-- `SplitResult`
pub record SplitResult : Type 0 where
  pub url_scheme : String
  pub netloc : String
  pub path : String
  pub query : String
  pub fragment : String

-- a letter, then characters of a scheme
unfoldable pub is_scheme : String → Bool
unfolding all_chars
is_scheme String.[] = false
is_scheme (String.◌∷◌ c s) = is_alpha c && all_chars is_scheme_char s

abbrev pub is_kept : Char → Bool
is_kept c = not (is_code 9 c || is_code 10 c || is_code 13 c)

-- what `urlsplit` strips and removes
unfoldable pub cleaned : String → String
unfolding strip_left keep_chars
cleaned url = keep_chars is_kept (strip_left (λ c. leb (code c) 32) url)

-- the scheme and what follows it, without the colon
unfoldable pub split_scheme : String → String × String
unfolding has before from tail is_scheme lower
split_scheme url =
    if has (is_code b':') url && is_scheme (before (is_code b':') url)
    then (lower (before (is_code b':') url), tail (from (is_code b':') url))
    else ("", url)

abbrev pub ends_netloc : Char → Bool
ends_netloc c = is_code b'/' c || is_code b'?' c || is_code b'#' c

abbrev pub netloc_after : String → Option String → String × String
netloc_after url none = ("", url)
netloc_after url (some rest) = (before ends_netloc rest, from ends_netloc rest)

-- the authority and what follows it
unfoldable pub split_netloc : String → String × String
unfolding before from strip_prefix
split_netloc url = netloc_after url (strip_prefix "//" url)

-- `s.split(c, 1)`, the second part empty if there is none
abbrev pub split_once : (Char → Bool) → String → String × String
split_once p s = (before p s, tail (from p s))

-- what follows the splitting of the authority; none is a `ValueError`
abbrev pub split_rest : Urllib → String → String × String → Option SplitResult
split_rest u scheme (authority, rest) =
    let unfragmented = before (is_code b'#') rest in
    if u.netloc_refused authority
    then none
    else some (record {
      url_scheme = scheme;
      netloc = authority;
      path = before (is_code b'?') unfragmented;
      query = tail (from (is_code b'?') unfragmented);
      fragment = tail (from (is_code b'#') rest);
    })

-- `urlsplit`
unfoldable pub urlsplit : Urllib → String → Option SplitResult
unfolding cleaned split_scheme split_netloc
urlsplit u url =
    let (scheme, hier) = split_scheme (cleaned url) in split_rest u scheme (split_netloc hier)

abbrev replace_plus : Char → Char
replace_plus c = if is_code b'+' c then " " else c

-- `s.replace("+", " ")`
unfoldable pub pluses_to_spaces : String → String
pluses_to_spaces String.[] = ""
pluses_to_spaces (String.◌∷◌ c s) = String.◌∷◌ (replace_plus c) (pluses_to_spaces s)

abbrev decoded : Urllib → String → String
decoded u s = u.unquote (pluses_to_spaces s)

-- one part of a query: nothing unless it is `name=value` with a value
unfoldable pub parse_part : Urllib → String → Dict String String → Dict String String
unfolding before from tail pluses_to_spaces put string_discrete
parse_part u part options =
    let (name, value) = split_once (is_code b'=') part in
    ite (value ≟ "") options (put (decoded u name) (decoded u value) options)

-- `dict(parse_qsl(query))`, with as much fuel as the query has parts
unfoldable pub parse_parts : ℕ → Urllib → String → Dict String String → Dict String String
unfolding parse_part has
parse_parts zero u q options = options
parse_parts (suc fuel) u q options =
    let options' = parse_part u (before (is_code b'&') q) options in
    let more = parse_parts fuel u (tail (from (is_code b'&') q)) options' in
    if has (is_code b'&') q then more else options'

-- how many characters a text has
unfoldable pub size : String → ℕ
size String.[] = 0
size (String.◌∷◌ c s) = suc (size s)

-- a query has fewer separators than this
unfoldable pub parse_options : Urllib → String → Dict String String
unfolding parse_parts size
parse_options u q = parse_parts (suc (size q)) u q []

abbrev pub is_empty : String → Bool
is_empty s = ite (s ≟ "") true false

-- a path behind a netloc
unfoldable pub slashed : String → String
slashed String.[] = ""
slashed (String.◌∷◌ c s) = if is_code b'/' c then String.◌∷◌ c s else "/" +++ String.◌∷◌ c s

abbrev pub with_scheme : String → String → String
with_scheme scheme url = if is_empty scheme then url else scheme +++ ":" +++ url

-- the parts of `urlunsplit`
unfoldable pub with_authority : Urllib → SplitResult → String
unfolding slashed string_discrete
with_authority u split =
    if is_empty split.netloc
    then u.hostless split.url_scheme split.path
    else with_scheme split.url_scheme ("//" +++ split.netloc +++ slashed split.path)

unfoldable pub with_query : SplitResult → String → String
unfolding string_discrete
with_query split url = if is_empty split.query then url else url +++ "?" +++ split.query

unfoldable pub with_fragment : SplitResult → String → String
unfolding string_discrete
with_fragment split url = if is_empty split.fragment then url else url +++ "#" +++ split.fragment

-- `urlunsplit`
unfoldable pub urlunsplit : Urllib → SplitResult → String
unfolding with_query with_fragment with_authority
urlunsplit u split = with_fragment split (with_query split (with_authority u split))
