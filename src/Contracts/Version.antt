-- ===== src/Contracts/Version.antt =====
-- version.py: the version of the contract family. Python's limit on the digits that `int` converts
-- (4300 by default) is not modelled.
pub mod Order
pub mod Text
pub mod Support
use Prim.Native.Nat.{Ordering}
use Prim.Native.Char.{Char, code}
use Prim.Native.String.{[], ◌∷◌, ◌++◌}
use toollayer_ai.Base.{
  ℕ, zero, String, Bool, true, false, ◌&&◌, ◌||◌, Option, none, some, ltb, eqb, ◌==◌, is_digit,
  is_lower, is_upper, text_lt, show, read_number, if◌then◌else◌, not,
}
use toollayer_ai.Json.{Json, str}
use toollayer_ai.Contracts.Errors.{
  Failure, incompatible_version, Result, ok, err, ◌>>=◌, ◌>>◌, guard,
}

abbrev pub contract_version : String
contract_version = "1.1.0"

pub record ContractVersion : Type 0 where
  pub major : ℕ
  pub minor : ℕ
  pub patch : ℕ
  pub prerelease : Option String

-- `[0-9A-Za-z-]`
abbrev pub is_word : ℕ → Bool
is_word c = is_digit c || is_upper c || is_lower c || eqb c b'-'

-- `$` matches at the end, and before a line break that ends the text.
abbrev pub at_end : String → Bool
at_end [] = true
at_end (c ∷ []) = eqb (code c) 10
at_end (c ∷ d ∷ s) = false

abbrev pub prefixed : Char → Option String → Option String
prefixed c none = none
prefixed c (some t) = some (c ∷ t)

-- `[0-9A-Za-z-]+(?:\.[0-9A-Za-z-]+)*$`: the matched text. `seen` says whether the segment at hand
-- has a character yet.
unfoldable pub read_prerelease : Bool → String → Option String
read_prerelease seen [] = if seen then some [] else none
read_prerelease seen (c ∷ s) =
    let word = prefixed c (read_prerelease true s) in
    let dot = prefixed c (read_prerelease false s) in
    if is_word (code c)
    then word
    else if eqb (code c) b'.' && seen
    then dot
    else if at_end (c ∷ s) && seen
    then some []
    else none

infixl 6 ◌>>=?◌
abbrev pub ◌>>=?◌ {ℓ κ} : {A : Type ℓ} {B : Type κ} → Option A → (A → Option B) → Option B
none >>=? f = none
some a >>=? f = f a

-- One literal character of the pattern.
abbrev pub expect : ℕ → String → Option String
expect c [] = none
expect c (d ∷ s) = if eqb (code d) c then some s else none

-- `(?:-(?P<prerelease>…))?$`
unfoldable pub read_tail : String → Option (Option String)
read_tail [] = some none
read_tail (c ∷ s) =
    if eqb (code c) b'-'
    then (read_prerelease false s >>=? λ p. some (some p))
    else if at_end (c ∷ s)
    then some none
    else none

-- `_SEMVER.match(value)` with its groups
unfoldable pub match_semver : String → Option ContractVersion
match_semver s = read_number s >>=? λ (x : ℕ × String). expect b'.' x.1 >>=? λ s₁.
    read_number s₁ >>=? λ (y : ℕ × String). expect b'.' y.1 >>=? λ s₂.
    read_number s₂ >>=? λ (z : ℕ × String).
    read_tail z.1 >>=? λ p. some (record { major = x.0; minor = y.0; patch = z.0; prerelease = p })

abbrev pub or_raise {ℓ} : {A : Type ℓ} → Failure → Option A → Result A
or_raise e none = err e
or_raise e (some a) = ok a

-- `parse_version` of a text
unfoldable pub parse_text : String → Result ContractVersion
parse_text s = or_raise incompatible_version (match_semver s)

unfoldable pub parse_version : Json → Result ContractVersion
parse_version (str s) = parse_text s
parse_version _ = err incompatible_version

-- `f"{base}-{self.prerelease}" if self.prerelease else base`
abbrev pub with_prerelease : String → Option String → String
with_prerelease base none = base
with_prerelease base (some p) = if p == "" then base else base ++ ("-" ++ p)

-- `__str__`
unfoldable pub to_string : ContractVersion → String
to_string v =
    let base = show v.major ++ ("." ++ (show v.minor ++ ("." ++ show v.patch))) in
    with_prerelease base v.prerelease

unfoldable pub require_supported : Json → Result ContractVersion
require_supported value = do
  declared ← parse_version value
  supported ← parse_text contract_version
  guard (eqb declared.major supported.major) incompatible_version
  guard (not (ltb supported.minor declared.minor)) incompatible_version
  ok declared

abbrev is_ok {ℓ} : {A : Type ℓ} → Result A → Bool
is_ok (ok a) = true
is_ok (err e) = false

-- The only exception that `require_supported` raises is the one that is caught here.
unfoldable pub is_supported : Json → Bool
unfolding require_supported
is_supported value = is_ok (require_supported value)

-- `left_core == right_core` and `left_core < right_core`, on tuples
abbrev pub core_eq : ContractVersion → ContractVersion → Bool
core_eq l r = eqb l.major r.major && eqb l.minor r.minor && eqb l.patch r.patch

abbrev pub core_lt : ContractVersion → ContractVersion → Bool
core_lt l r =
    if eqb l.major r.major
    then if eqb l.minor r.minor then ltb l.patch r.patch else ltb l.minor r.minor
    else ltb l.major r.major

unfoldable pub compare_prerelease : Option String → Option String → Ordering
compare_prerelease none none = Ordering.eq
compare_prerelease none (some q) = Ordering.gt
compare_prerelease (some p) none = Ordering.lt
compare_prerelease (some p) (some q) =
    if p == q then Ordering.eq else if text_lt p q then Ordering.lt else Ordering.gt

-- A negative number, zero and a positive number are `lt`, `eq` and `gt`.
unfoldable pub compare_precedence : ContractVersion → ContractVersion → Ordering
unfolding compare_prerelease text_lt
compare_precedence left right =
    if core_eq left right
    then compare_prerelease left.prerelease right.prerelease
    else if core_lt left right
    then Ordering.lt
    else Ordering.gt
