-- ===== src/Policy/Address.antt =====
-- Addresses as destinations.py reads them: `ipaddress.ip_address`, the text of an address, and the tests
-- that `_check_address` makes, with the networks of CPython 3.11.
pub mod Networks
pub mod Bounds
pub mod Show
use Prim.Native.Char.{Char, code}
use Prim.Native.String
use Prim.Native.String.{count}
use toollayer_ai.Base.{
  ℕ, suc, ◌+◌, ◌-◌, ◌*◌, ◌/◌, ◌%◌, ◌^◌, String, Bool, true, false, not, ◌&&◌, ◌||◌, Option, none,
  some, List, [], ◌∷◌, ◌++◌, ◌==◌, ltb, leb, eqb, is_digit, digit_char, show, length, if◌then◌else◌,
}
use toollayer_ai.Contracts.CanonicalJson.{◌⧺◌}
use toollayer_ai.Contracts.Models.{has_char}

-- An address by its number; one of IPv6 with its scope identifier, if it has one.
pub data Address : Type 0 where
  v4 : ℕ → Address
  v6 : ℕ → Option String → Address

abbrev add_first : Char → List String → List String
add_first c [] = String.◌∷◌ c String.[] ∷ []
add_first c (part ∷ parts) = String.◌∷◌ c part ∷ parts

-- `text.split(separator)` for one character
unfoldable pub split_on : ℕ → String → List String
split_on n String.[] = "" ∷ []
split_on n (String.◌∷◌ c s) =
    let rest = split_on n s in if eqb (code c) n then "" ∷ rest else add_first c rest

-- `text.isascii() and text.isdigit()` holds of every character.
unfoldable pub all_digits : String → Bool
all_digits String.[] = true
all_digits (String.◌∷◌ c s) = is_digit (code c) && all_digits s

unfoldable pub number_from : ℕ → String → ℕ
number_from n String.[] = n
number_from n (String.◌∷◌ c s) = number_from (n * 10 + (code c - 48)) s

abbrev leads_with_zero : String → Bool
leads_with_zero String.[] = false
leads_with_zero (String.◌∷◌ c s) = eqb (code c) b'0'

-- `_BaseV4._parse_octet`
unfoldable pub parse_octet : String → Option ℕ
unfolding all_digits number_from
parse_octet text =
    if text == ""
    then none
    else if not (all_digits text) || ltb 3 (count text)
    then none
    else if leads_with_zero text && not (text == "0")
    then none
    else if ltb 255 (number_from 0 text)
    then none
    else some (number_from 0 text)

-- The bytes, most significant first, as a number.
abbrev quad : ℕ → ℕ → ℕ → ℕ → ℕ
quad a b c d = a * 16777216 + b * 65536 + c * 256 + d

abbrev all_octets : Option ℕ → Option ℕ → Option ℕ → Option ℕ → Option ℕ
all_octets (some a) (some b) (some c) (some d) = some (quad a b c d)
all_octets _ _ _ _ = none

abbrev four_octets : List String → Option ℕ
four_octets (a ∷ b ∷ c ∷ d ∷ []) =
    all_octets (parse_octet a) (parse_octet b) (parse_octet c) (parse_octet d)
four_octets _ = none

-- `IPv4Address(text)`
unfoldable pub parse_v4 : String → Option ℕ
unfolding split_on
parse_v4 text = if has_char b'/' text then none else four_octets (split_on b'.' text)

-- `str(IPv4Address(n))`
unfoldable pub show_v4 : ℕ → String
show_v4 n =
    show (n / 16777216)
    ⧺ ("." ⧺ (show (n / 65536 % 256) ⧺ ("." ⧺ (show (n / 256 % 256) ⧺ ("." ⧺ show (n % 256))))))

abbrev hex_value : ℕ → Option ℕ
hex_value c =
    if is_digit c
    then some (c - 48)
    else if leb b'a' c && leb c b'f'
    then some (c - 87)
    else if leb b'A' c && leb c b'F'
    then some (c - 55)
    else none

abbrev hex_step : ℕ → Option ℕ → Option ℕ
hex_step n none = none
hex_step n (some d) = some (n * 16 + d)

unfoldable pub hex_from : Option ℕ → String → Option ℕ
hex_from value String.[] = value
hex_from none (String.◌∷◌ c s) = none
hex_from (some n) (String.◌∷◌ c s) = hex_from (hex_step n (hex_value (code c))) s

-- `_BaseV6._parse_hextet`
unfoldable pub parse_hextet : String → Option ℕ
unfolding hex_from
parse_hextet text = if text == "" || ltb 4 (count text) then none else hex_from (some 0) text

abbrev hex_char : ℕ → Char
hex_char d =
    if ltb d 10
    then digit_char d
    else if eqb d 10
    then "a"
    else if eqb d 11
    then "b"
    else if eqb d 12
    then "c"
    else if eqb d 13
    then "d"
    else if eqb d 14
    then "e"
    else "f"

-- `'%x' % n` for a number of 16 bits
unfoldable pub show_hextet : ℕ → String
unfolding digit_char
show_hextet n =
    let d = String.◌∷◌ (hex_char (n % 16)) String.[] in
    let c = String.◌∷◌ (hex_char (n / 16 % 16)) d in
    let b = String.◌∷◌ (hex_char (n / 256 % 16)) c in
    let a = String.◌∷◌ (hex_char (n / 4096)) b in
    if ltb n 16 then d else if ltb n 256 then c else if ltb n 4096 then b else a

abbrev is_nil : List String → Bool
is_nil [] = true
is_nil (_ ∷ _) = false

unfoldable pub last_text : List String → String
last_text [] = ""
last_text (x ∷ xs) = let rest = last_text xs in if is_nil xs then x else rest

but_last : List String → List String
but_last [] = []
but_last (x ∷ xs) = let rest = but_last xs in if is_nil xs then [] else x ∷ rest

abbrev as_hextets : List String → Option ℕ → Option (List String)
as_hextets parts none = none
as_hextets parts (some n) =
    some (parts ++ (show_hextet (n / 65536 % 65536) ∷ show_hextet (n % 65536) ∷ []))

-- The parts, with a suffix in the form of IPv4 as two hextets.
unfoldable pub with_suffix : List String → Option (List String)
unfolding last_text but_last show_hextet
with_suffix parts =
    if has_char b'.' (last_text parts)
    then as_hextets (but_last parts) (parse_v4 (last_text parts))
    else some parts

-- The places of the empty parts that stand neither first nor last; the first argument is the place of the head.
unfoldable pub empty_places : ℕ → List String → List ℕ
empty_places i [] = []
empty_places i (x ∷ xs) =
    let rest = empty_places (suc i) xs in
    if is_nil xs || leb i 0 then rest else if x == "" then i ∷ rest else rest

unfoldable pub take : ℕ → List String → List String
take ℕ.zero xs = []
take (suc n) [] = []
take (suc n) (x ∷ xs) = x ∷ take n xs

unfoldable pub drop : ℕ → List String → List String
drop ℕ.zero xs = xs
drop (suc n) [] = []
drop (suc n) (x ∷ xs) = drop n xs

abbrev first_text : List String → String
first_text [] = ""
first_text (x ∷ xs) = x

abbrev shift_in : ℕ → Option ℕ → Option ℕ
shift_in n none = none
shift_in n (some h) = some (n * 65536 + h)

unfoldable pub hextets_from : Option ℕ → List String → Option ℕ
hextets_from value [] = value
hextets_from none (x ∷ xs) = none
hextets_from (some n) (x ∷ xs) = hextets_from (shift_in n (parse_hextet x)) xs

abbrev times : ℕ → Option ℕ → Option ℕ
times k none = none
times k (some n) = some (n * k)

-- `hi` parts, a run of zeros that fills up to eight, and the last `lo` parts.
unfoldable pub assemble : List String → ℕ → ℕ → Option ℕ
unfolding hextets_from take drop parse_hextet
assemble parts hi lo =
    hextets_from (times (65536 ^ (8 - (hi + lo))) (hextets_from (some 0) (take hi parts)))
      (drop (length parts - lo) parts)

-- The value of the parts by the places of the inner empty ones, of which there may be one.
unfoldable pub value_of : List String → List ℕ → Option ℕ
unfolding last_text assemble
value_of parts [] =
    if not (eqb (length parts) 8)
    then none
    else if first_text parts == "" || last_text parts == ""
    then none
    else assemble parts 8 0
value_of parts (skip ∷ []) =
    let hi = if first_text parts == "" then skip - 1 else skip in
    let after = length parts - skip - 1 in
    let lo = if last_text parts == "" then after - 1 else after in
    if first_text parts == "" && ltb 0 hi
    then none
    else if last_text parts == "" && ltb 0 lo
    then none
    else if ltb 7 (hi + lo)
    then none
    else assemble parts hi lo
value_of parts (skip ∷ other ∷ more) = none

abbrev value_of_parts : Option (List String) → Option ℕ
value_of_parts none = none
value_of_parts (some parts) =
    if ltb 9 (length parts) then none else value_of parts (empty_places 0 parts)

-- `IPv6Address._ip_int_from_string`
unfoldable pub parse_v6_number : String → Option ℕ
unfolding split_on with_suffix empty_places value_of
parse_v6_number text =
    if text == "" || ltb (length (split_on b':' text)) 3
    then none
    else value_of_parts (with_suffix (split_on b':' text))

-- `text.partition("%")`: what stands before and after the first sign, with whether there is one.
unfoldable pub partition : ℕ → String → String × Bool × String
partition n String.[] = ("", false, "")
partition n (String.◌∷◌ c s) =
    let rest = partition n s in
    if eqb (code c) n then ("", true, s) else (String.◌∷◌ c rest.0, rest.1, rest.2)

abbrev scoped : Option String → Option ℕ → Option Address
scoped scope none = none
scoped scope (some n) = some (v6 n scope)

-- `IPv6Address(text)`, with `_split_scope_id`
unfoldable pub parse_v6 : String → Option Address
unfolding partition parse_v6_number
parse_v6 text =
    let parts = partition b'%' text in
    if has_char b'/' text
    then none
    else if not parts.1
    then scoped none (parse_v6_number parts.0)
    else if parts.2 == "" || has_char b'%' parts.2
    then none
    else scoped (some parts.2) (parse_v6_number parts.0)

abbrev or_v6 : String → Option ℕ → Option Address
or_v6 text (some n) = some (v4 n)
or_v6 text none = parse_v6 text

-- `ipaddress.ip_address(text)`; `none` is its `ValueError`.
unfoldable pub ip_address : String → Option Address
unfolding parse_v6
ip_address text = or_v6 text (parse_v4 text)
