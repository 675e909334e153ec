-- ===== src/OpenApi/Naming.antt =====
-- naming.py: the names of tools. Texts are read as lists of code points.
pub mod Words
pub mod Pattern
use Prim.Native.Char.{Char, code}
use Prim.Native.String
use Prim.Native.String.{count}
use text.Mathlib.Text.{starts_with}
use toollayer_ai.Base.{
  ℕ, zero, suc, ◌-◌, String, Bool, true, false, not, ◌&&◌, ◌||◌, Option, none, some, List, [], ◌∷◌,
  ◌++◌, leb, eqb, ◌==◌, is_digit, is_lower, is_upper, ascii_lower, lower_text, if◌then◌else◌,
}
use toollayer_ai.Contracts.CanonicalJson.{◌⧺◌}
use toollayer_ai.Policy.UrlText.{split_slash}
use toollayer_ai.OpenApi.Errors.{Failure, value_error, Result, ok, err, ◌>>=◌, ◌>>◌, guard}

abbrev is_alnum : ℕ → Bool
is_alnum c = is_digit c || is_lower c || is_upper c

abbrev next_is : (ℕ → Bool) → String → Bool
next_is test String.[] = false
next_is test (String.◌∷◌ c s) = test (code c)

-- `_CAMEL_BOUNDARY.sub("_", text)`: between a lower-case letter or a digit and an upper-case letter.
split_camel : String → String
split_camel String.[] = ""
split_camel (String.◌∷◌ c s) =
    let rest = split_camel s in
    if (is_lower (code c) || is_digit (code c)) && next_is is_upper s
    then String.◌∷◌ c (String.◌∷◌ "_" rest)
    else String.◌∷◌ c rest

abbrev starts_word : String → Bool
starts_word String.[] = false
starts_word (String.◌∷◌ c s) = is_upper (code c) && next_is is_lower s

-- `_ACRONYM_BOUNDARY.sub("_", text)`: between an upper-case letter and one that a lower-case letter follows.
split_acronym : String → String
split_acronym String.[] = ""
split_acronym (String.◌∷◌ c s) =
    let rest = split_acronym s in
    if is_upper (code c) && starts_word s
    then String.◌∷◌ c (String.◌∷◌ "_" rest)
    else String.◌∷◌ c rest

-- `_NON_IDENTIFIER.sub("_", text)`; `in_run` says whether the character before belongs to a run that is replaced.
replace_runs : Bool → String → String
replace_runs in_run String.[] = ""
replace_runs in_run (String.◌∷◌ c s) =
    let rest = replace_runs (not (is_alnum (code c))) s in
    if is_alnum (code c) then String.◌∷◌ c rest else if in_run then rest else String.◌∷◌ "_" rest

strip_under_left : String → String
strip_under_left String.[] = ""
strip_under_left (String.◌∷◌ c s) =
    let rest = strip_under_left s in if eqb (code c) b'_' then rest else String.◌∷◌ c s

-- `text.rstrip("_")`
pub strip_under_right : String → String
strip_under_right String.[] = ""
strip_under_right (String.◌∷◌ c s) =
    let rest = strip_under_right s in
    if eqb (code c) b'_' && rest == "" then "" else String.◌∷◌ c rest

-- `_snake_case`
unfoldable pub snake_case : String → String
unfolding split_camel split_acronym replace_runs strip_under_left strip_under_right lower_text
snake_case value =
    lower_text (
      strip_under_right (strip_under_left (replace_runs false (split_acronym (split_camel value)))))

pub take_chars : ℕ → String → String
take_chars zero s = ""
take_chars (suc n) String.[] = ""
take_chars (suc n) (String.◌∷◌ c s) = String.◌∷◌ c (take_chars n s)

abbrev pub max_tool_name_length : ℕ
max_tool_name_length = 64

-- `_bounded`
unfoldable pub bounded : (String → String) → String → String
unfolding take_chars strip_under_right
bounded digest candidate =
    let keep = max_tool_name_length - count (digest candidate) - 1 in
    if leb (count candidate) max_tool_name_length
    then candidate
    else strip_under_right (take_chars keep candidate) ⧺ ("_" ⧺ digest candidate)

abbrev with_letter : String → String
with_letter candidate = if next_is is_digit candidate then "op_" ⧺ candidate else candidate

-- `normalize_tool_name`
unfoldable pub normalize_tool_name : (String → String) → String → Result String
unfolding snake_case bounded
normalize_tool_name digest value = do
  let candidate = snake_case value
  guard (not (candidate == "")) value_error
  ok (bounded digest (with_letter candidate))

-- `_METHOD_VERB.get(method.lower())`
unfoldable pub method_verb : String → Option String
method_verb method =
    if method == "get"
    then some "get"
    else if method == "post"
    then some "create"
    else if method == "put"
    then some "replace"
    else if method == "patch"
    then some "update"
    else if method == "delete"
    then some "delete"
    else none

abbrev drop_first : String → String
drop_first String.[] = ""
drop_first (String.◌∷◌ c s) = s

-- `[a-z0-9]*` to the end
all_plain : String → Bool
all_plain String.[] = true
all_plain (String.◌∷◌ c s) = (is_digit (code c) || is_lower (code c)) && all_plain s

-- `\d*[a-z0-9]*` to the end
digits_then_plain : (ℕ → Bool) → String → Bool
unfolding all_plain
digits_then_plain decimal String.[] = true
digits_then_plain decimal (String.◌∷◌ c s) =
    let rest = digits_then_plain decimal s in
    if decimal (code c) then rest else all_plain (String.◌∷◌ c s)

-- `re.fullmatch(r"v\d+[a-z0-9]*", text)`; `decimal` says which characters `\d` matches.
version_text : (ℕ → Bool) → String → Bool
unfolding digits_then_plain
version_text decimal String.[] = false
version_text decimal (String.◌∷◌ c s) =
    eqb (code c) b'v' && next_is decimal s && digits_then_plain decimal (drop_first s)

nonempty_segments : List String → List String
nonempty_segments [] = []
nonempty_segments (segment ∷ segments) =
    let rest = nonempty_segments segments in if segment == "" then rest else segment ∷ rest

but_last_char : String → String
but_last_char String.[] = ""
but_last_char (String.◌∷◌ c s) =
    let rest = but_last_char s in if s == "" then "" else String.◌∷◌ c rest

ends_with_brace : String → Bool
ends_with_brace String.[] = false
ends_with_brace (String.◌∷◌ c s) = (eqb (code c) b'}' && s == "") || ends_with_brace s

-- What one segment of a path contributes.
words_of : String → List String
unfolding snake_case but_last_char ends_with_brace
words_of segment =
    let inner = snake_case (but_last_char (drop_first segment)) in
    let whole = snake_case segment in
    if starts_with segment "{" && ends_with_brace segment
    then (if inner == "" then [] else "by" ∷ inner ∷ [])
    else if whole == ""
    then []
    else whole ∷ []

all_words : List String → List String
unfolding words_of
all_words [] = []
all_words (segment ∷ segments) = words_of segment ++ all_words segments

-- The first segment is left out where it looks like a version; `lower` is `str.lower`.
path_words : (ℕ → Bool) → (String → String) → List String → List String
unfolding all_words version_text
path_words decimal lower [] = []
path_words decimal lower (segment ∷ segments) =
    if version_text decimal (lower segment)
    then all_words segments
    else all_words (segment ∷ segments)

join_words : List String → String
join_words [] = ""
join_words (word ∷ []) = word
join_words (word ∷ next ∷ words) = word ⧺ ("_" ⧺ join_words (next ∷ words))

abbrev named : (String → String) → String → List String → String
named digest verb [] = bounded digest (verb ⧺ "_root")
named digest verb (word ∷ words) = bounded digest (verb ⧺ ("_" ⧺ join_words (word ∷ words)))

abbrev or_unsupported : Option String → Result String
or_unsupported none = err value_error
or_unsupported (some verb) = ok verb

-- What the names depend on: `str.lower`, `\d`, and the first ten hexadecimal digits of SHA-256.
pub record NameTables : Type 0 where
  pub lower : String → String
  pub decimal : ℕ → Bool
  pub digest : String → String

-- `derive_tool_name`; the empty texts that stripping "/" removes are no segments either.
unfoldable pub derive_tool_name : NameTables → String → String → Result String
unfolding bounded method_verb path_words nonempty_segments join_words
derive_tool_name tables method path = do
  verb ← or_unsupported (method_verb (tables.lower method))
  ok (
      named tables.digest verb
        (path_words tables.decimal tables.lower (nonempty_segments (split_slash path))))

-- The tool name of an operation: from its `operationId`, where it has one.
unfoldable pub tool_name_of : NameTables → Option String → String → String → Result String
tool_name_of tables (some operation_id) method path = normalize_tool_name tables.digest operation_id
tool_name_of tables none method path = derive_tool_name tables method path
