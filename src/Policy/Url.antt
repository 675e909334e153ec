-- ===== src/Policy/Url.antt =====
-- URLs as the services read them: `urllib.parse.urlsplit` with the attributes of its result, as in
-- CPython 3.11. The tables of Unicode are a parameter: `nfkc` is `unicodedata.normalize("NFKC", _)`, and
-- `lower` is `str.lower`.
use Prim.Native.Char.{code}
use text.Mathlib.Text.{starts_with}
use toollayer_ai.Base.{
  ℕ, String, Bool, true, false, not, ◌&&◌, ◌||◌, Option, none, some, ltb, leb, eqb, ◌==◌, is_digit,
  is_lower, is_upper, lower_text, if◌then◌else◌,
}
use toollayer_ai.Contracts.Errors.{value_error, Result, ok, ◌>>◌, guard}
use toollayer_ai.Contracts.CanonicalJson.{◌⧺◌}
use toollayer_ai.Contracts.Models.{has_char}
use toollayer_ai.Policy.Address.{Address, v6, all_digits, number_from, partition, ip_address}

pub record Unicode : Type 0 where
  pub nfkc : String → String
  pub lower : String → String

pub record SplitResult : Type 0 where
  pub scheme : String
  pub netloc : String
  pub url_path : String
  pub query : String
  pub fragment : String

-- `url.lstrip` of control characters and spaces
strip_controls : String → String
strip_controls String.[] = ""
strip_controls (String.◌∷◌ c s) =
    let rest = strip_controls s in if leb (code c) 32 then rest else String.◌∷◌ c s

-- `text.replace(character, "")`
remove_char : ℕ → String → String
remove_char n String.[] = ""
remove_char n (String.◌∷◌ c s) =
    let rest = remove_char n s in if eqb (code c) n then rest else String.◌∷◌ c rest

abbrev is_letter : ℕ → Bool
is_letter c = is_lower c || is_upper c

starts_with_letter : String → Bool
starts_with_letter String.[] = false
starts_with_letter (String.◌∷◌ c s) = is_letter (code c)

-- Every character is one of `scheme_chars`.
scheme_chars : String → Bool
scheme_chars String.[] = true
scheme_chars (String.◌∷◌ c s) =
    (is_letter (code c)
      || is_digit (code c)
      || eqb (code c) b'+'
      || eqb (code c) b'-'
      || eqb (code c) b'.')
    && scheme_chars s

-- The scheme, in lower case, and the rest; the scheme is empty where there is none.
split_scheme : String → String × String
unfolding starts_with_letter scheme_chars lower_text
split_scheme url =
    let parts = partition b':' url in
    if parts.1 && starts_with_letter parts.0 && scheme_chars parts.0
    then (lower_text parts.0, parts.2)
    else ("", url)

-- `_splitnetloc`: up to the first "/", "?" or "#", and from there.
split_netloc : String → String × String
split_netloc String.[] = ("", "")
split_netloc (String.◌∷◌ c s) =
    let rest = split_netloc s in
    if eqb (code c) b'/' || eqb (code c) b'?' || eqb (code c) b'#'
    then ("", String.◌∷◌ c s)
    else (String.◌∷◌ c rest.0, rest.1)

-- `text.rpartition(separator)`
unfoldable pub rpartition : ℕ → String → String × Bool × String
rpartition n String.[] = ("", false, "")
rpartition n (String.◌∷◌ c s) =
    let rest = rpartition n s in
    if rest.1
    then (String.◌∷◌ c rest.0, true, rest.2)
    else if eqb (code c) n
    then ("", true, s)
    else ("", false, String.◌∷◌ c s)

abbrev is_hex : ℕ → Bool
is_hex c = is_digit c || (leb b'a' c && leb c b'f') || (leb b'A' c && leb c b'F')

-- `.+` to the end
some_chars : String → Bool
some_chars String.[] = false
some_chars (String.◌∷◌ c s) = not (has_char 10 (String.◌∷◌ c s))

-- `[a-fA-F0-9]+\..+`; `seen` says whether there is a digit yet.
future_rest : Bool → String → Bool
unfolding some_chars
future_rest seen String.[] = false
future_rest seen (String.◌∷◌ c s) =
    let rest = future_rest true s in
    if is_hex (code c) then rest else seen && eqb (code c) b'.' && some_chars s

abbrev drop_one : String → String
drop_one String.[] = ""
drop_one (String.◌∷◌ c s) = s

abbrev is_v6 : Option Address → Bool
is_v6 (some (v6 n scope)) = true
is_v6 _ = false

-- `_check_bracketed_host`
check_bracketed_host : String → Result (Unit {0})
unfolding future_rest
check_bracketed_host hostname =
    guard
      (if starts_with hostname "v"
        then future_rest false (drop_one hostname)
        else is_v6 (ip_address hostname))
      value_error

-- `_check_bracketed_netloc`
check_bracketed_netloc : String → Result (Unit {0})
unfolding check_bracketed_host
check_bracketed_netloc netloc =
    let hostinfo = (rpartition b'@' netloc).2 in
    let bracket = partition b'[' hostinfo in
    let closed = partition b']' bracket.2 in
    if bracket.1
    then (do
      guard (bracket.0 == "") value_error
      guard (closed.2 == "" || starts_with closed.2 ":") value_error
      check_bracketed_host closed.0)
    else check_bracketed_host (partition b':' hostinfo).0

-- The checks of a netloc's brackets.
check_brackets : String → Result (Unit {0})
unfolding check_bracketed_netloc
check_brackets netloc = do
  guard (not (has_char b'[' netloc && not (has_char b']' netloc))) value_error
  guard (not (has_char b']' netloc && not (has_char b'[' netloc))) value_error
  if has_char b'[' netloc then check_bracketed_netloc netloc else ok tt

is_ascii : String → Bool
is_ascii String.[] = true
is_ascii (String.◌∷◌ c s) = ltb (code c) 128 && is_ascii s

-- `_checknetloc`
check_netloc : Unicode → String → Result (Unit {0})
unfolding is_ascii remove_char
check_netloc unicode netloc =
    let bare = remove_char b'?' (remove_char b'#' (remove_char b':' (remove_char b'@' netloc))) in
    let normal = unicode.nfkc bare in
    guard
      (is_ascii netloc
        || bare == normal
        || not (
            has_char b'/' normal
            || has_char b'?' normal
            || has_char b'#' normal
            || has_char b'@' normal
            || has_char b':' normal))
      value_error

unfoldable pub urlsplit : Unicode → String → Result SplitResult
unfolding strip_controls remove_char split_scheme split_netloc check_brackets check_netloc
urlsplit unicode value = do
  let url = strip_controls value
  let split = split_scheme (remove_char 10 (remove_char 13 (remove_char 9 url)))
  let has_netloc = starts_with split.1 "//"
  let parts = split_netloc (drop_one (drop_one split.1))
  let netloc = if has_netloc then parts.0 else ""
  let hashed = partition b'#' (if has_netloc then parts.1 else split.1)
  let queried = partition b'?' hashed.0
  check_brackets netloc
  check_netloc unicode netloc
  ok (record {
    scheme = split.0;
    netloc = netloc;
    url_path = queried.0;
    query = queried.2;
    fragment = hashed.2;
  })

-- `_hostinfo`: the host's name and the text of the port.
hostinfo : String → String × String
hostinfo netloc =
    let info = (rpartition b'@' netloc).2 in
    let bracket = partition b'[' info in
    let closed = partition b']' bracket.2 in
    let plain = partition b':' info in
    if bracket.1 then (closed.0, (partition b':' closed.2).2) else (plain.0, plain.2)

abbrev zoned : Unicode → String × Bool × String → String
zoned unicode parts = unicode.lower parts.0 ⧺ (if parts.1 then "%" ⧺ parts.2 else "")

-- `.hostname`, where the empty text stands for `None`
unfoldable pub hostname : Unicode → SplitResult → String
unfolding hostinfo
hostname unicode parsed = zoned unicode (partition b'%' (hostinfo parsed.netloc).0)

unfoldable pub port_number : String → Result (Option ℕ)
port_number text = do
  guard (all_digits text) value_error
  guard (not (ltb 65535 (number_from 0 text))) value_error
  ok (some (number_from 0 text))

-- `.port`
unfoldable pub port : SplitResult → Result (Option ℕ)
unfolding hostinfo port_number
port parsed =
    let text = (hostinfo parsed.netloc).1 in if text == "" then ok none else port_number text

-- `bool(parsed.username or parsed.password)`
unfoldable pub has_userinfo : SplitResult → Bool
has_userinfo parsed =
    let userinfo = (rpartition b'@' parsed.netloc).0 in
    let parts = partition b':' userinfo in not (parts.0 == "") || not (parts.2 == "")
