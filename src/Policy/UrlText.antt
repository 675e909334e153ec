-- ===== src/Policy/UrlText.antt =====
-- The operations of Python on texts that arguments.py uses: `replace`, `in`, `split`, `rstrip`, and the
-- percent-encoding of urllib.parse.
use Prim.Native.Char.{Char, code}
use Prim.Native.String.{count}
use text.Mathlib.Text.{starts_with}
use toollayer_ai.Base.{
  ℕ, ◌+◌, ◌-◌, ◌/◌, ◌%◌, String, Bool, true, ◌&&◌, ◌||◌, List, [], ◌∷◌, ◌==◌, ltb, eqb, is_digit,
  is_lower, is_upper, if◌then◌else◌,
}
use toollayer_ai.Contracts.CanonicalJson.{◌⧺◌}

-- `s.replace(old, new)` for a non-empty `old`; the first argument counts the characters that still belong to
-- the occurrence before.
unfoldable pub replace_from : ℕ → String → String → String → String
replace_from skip old new String.[] = ""
replace_from skip old new (String.◌∷◌ c s) =
    let hit = starts_with (String.◌∷◌ c s) old in
    let left = if ltb 0 skip then skip - 1 else if hit then count old - 1 else 0 in
    let rest = replace_from left old new s in
    if ltb 0 skip then rest else if hit then new ⧺ rest else String.◌∷◌ c rest

abbrev pub replace : String → String → String → String
replace = replace_from 0

-- `part in s`
unfoldable pub occurs : String → String → Bool
occurs part String.[] = part == ""
occurs part (String.◌∷◌ c s) = starts_with (String.◌∷◌ c s) part || occurs part s

abbrev pub push : Char → List String → List String
push c [] = String.◌∷◌ c String.[] ∷ []
push c (part ∷ parts) = String.◌∷◌ c part ∷ parts

-- `s.split("/")`
unfoldable pub split_slash : String → List String
split_slash String.[] = "" ∷ []
split_slash (String.◌∷◌ c s) =
    let rest = split_slash s in if eqb (code c) b'/' then "" ∷ rest else push c rest

-- `s.rstrip("/")`
unfoldable pub strip_slashes : String → String
strip_slashes String.[] = ""
strip_slashes (String.◌∷◌ c s) =
    let rest = strip_slashes s in if eqb (code c) b'/' && rest == "" then "" else String.◌∷◌ c rest

-- Every character passes the test.
unfoldable pub all_chars : (ℕ → Bool) → String → Bool
all_chars p String.[] = true
all_chars p (String.◌∷◌ c s) = p (code c) && all_chars p s

-- The characters that `quote` leaves as they are.
abbrev pub is_unreserved : ℕ → Bool
is_unreserved c =
    is_digit c || is_upper c || is_lower c || eqb c b'_' || eqb c b'.' || eqb c b'-' || eqb c b'~'

abbrev pub hex_digit : ℕ → String
hex_digit n =
    if eqb n 0
    then "0"
    else if eqb n 1
    then "1"
    else if eqb n 2
    then "2"
    else if eqb n 3
    then "3"
    else if eqb n 4
    then "4"
    else if eqb n 5
    then "5"
    else if eqb n 6
    then "6"
    else if eqb n 7
    then "7"
    else if eqb n 8
    then "8"
    else if eqb n 9
    then "9"
    else if eqb n 10
    then "A"
    else if eqb n 11
    then "B"
    else if eqb n 12
    then "C"
    else if eqb n 13
    then "D"
    else if eqb n 14
    then "E"
    else "F"

-- The bytes of a character in UTF-8.
abbrev pub utf8 : ℕ → List ℕ
utf8 c =
    if ltb c 128
    then c ∷ []
    else if ltb c 2048
    then (192 + c / 64) ∷ (128 + c % 64) ∷ []
    else if ltb c 65536
    then (224 + c / 4096) ∷ (128 + c / 64 % 64) ∷ (128 + c % 64) ∷ []
    else (240 + c / 262144) ∷ (128 + c / 4096 % 64) ∷ (128 + c / 64 % 64) ∷ (128 + c % 64) ∷ []

unfoldable pub percent : List ℕ → String
percent [] = ""
percent (byte ∷ bytes) = "%" ⧺ (hex_digit (byte / 16) ⧺ (hex_digit (byte % 16) ⧺ percent bytes))

-- `quote(s, safe="")`
unfoldable pub quote : String → String
quote String.[] = ""
quote (String.◌∷◌ c s) =
    let rest = quote s in
    if is_unreserved (code c) then String.◌∷◌ c rest else percent (utf8 (code c)) ⧺ rest

-- `quote_plus(s)`
unfoldable pub quote_plus : String → String
quote_plus String.[] = ""
quote_plus (String.◌∷◌ c s) =
    let rest = quote_plus s in
    if eqb (code c) 32
    then "+" ⧺ rest
    else if is_unreserved (code c)
    then String.◌∷◌ c rest
    else percent (utf8 (code c)) ⧺ rest

-- `urlencode(pairs, doseq=False)`
unfoldable pub urlencode : List (String × String) → String
urlencode [] = ""
urlencode ((key, value) ∷ []) = quote_plus key ⧺ ("=" ⧺ quote_plus value)
urlencode ((key, value) ∷ next ∷ pairs) =
    quote_plus key ⧺ ("=" ⧺ (quote_plus value ⧺ ("&" ⧺ urlencode (next ∷ pairs))))
