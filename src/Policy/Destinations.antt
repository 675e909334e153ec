-- ===== src/Policy/Destinations.antt =====
-- destinations.py: where the runtime may send a request. The resolver is a parameter: `getaddrinfo` gives
-- the addresses of a host, `none` for an entry whose address is no text, or fails.
pub mod Addresses
pub mod Allowed
use Prim.Native.Char.{code}
use Prim.Native.String
use toollayer_ai.Base.{
  ℕ, String, Bool, true, false, not, ◌&&◌, ◌||◌, Option, none, some, List, [], ◌∷◌, ◌++◌, eqb, ◌==◌,
  show, contains, if◌then◌else◌,
}
use toollayer_ai.Contracts.Errors.{
  Failure, tool_layer, value_error, destination_not_allowed, method_not_allowed,
  private_address_blocked, upstream_unavailable, Result, ok, err, ◌>>=◌, ◌>>◌, guard,
}
use toollayer_ai.Contracts.CanonicalJson.{◌⧺◌}
use toollayer_ai.Policy.UrlText.{occurs}
use toollayer_ai.Policy.Address.{Address, ip_address}
use toollayer_ai.Policy.Address.Show.{show_address}
use toollayer_ai.Policy.Address.Networks.{
  unmapped, is_loopback, is_multicast, is_reserved, is_unspecified, is_link_local, is_global,
}
use toollayer_ai.Policy.Url.{Unicode, SplitResult, urlsplit, hostname, port, has_userinfo}

abbrev pub default_allowed_methods : List String
default_allowed_methods = "GET" ∷ "POST" ∷ "PUT" ∷ "PATCH" ∷ "DELETE" ∷ []

-- `DnsResolver`
abbrev pub Resolver : Type 0
Resolver = String → ℕ → Result (List String)

abbrev add_address : Option String → List String → List String
add_address none addresses = addresses
add_address (some address) addresses =
    if contains addresses address then addresses else addresses ++ (address ∷ [])

collect_addresses : List (Option String) → List String → List String
collect_addresses [] addresses = addresses
collect_addresses (info ∷ infos) addresses = collect_addresses infos (add_address info addresses)

abbrev pub unavailable : Failure
unavailable = tool_layer upstream_unavailable

abbrev some_addresses : List String → Result (List String)
some_addresses [] = err unavailable
some_addresses (address ∷ addresses) = ok (address ∷ addresses)

abbrev or_unresolved : Option (List (Option String)) → Result (List (Option String))
or_unresolved none = err unavailable
or_unresolved (some infos) = ok infos

-- `SystemDnsResolver.resolve`
system_resolve : (String → ℕ → Option (List (Option String))) → Resolver
unfolding collect_addresses
system_resolve getaddrinfo host number = do
  infos ← or_unresolved (getaddrinfo host number)
  some_addresses (collect_addresses infos [])

-- `_Authority`
pub record Authority : Type 0 where
  pub scheme : String
  pub host : String
  pub port_number : ℕ
  pub userinfo : Bool

-- `host.rstrip(".")`
strip_dots : String → String
strip_dots String.[] = ""
strip_dots (String.◌∷◌ c s) =
    let rest = strip_dots s in if eqb (code c) b'.' && rest == "" then "" else String.◌∷◌ c rest

-- `port or _DEFAULT_PORTS[scheme]`
abbrev port_or_default : String → Option ℕ → ℕ
port_or_default scheme none = if scheme == "http" then 80 else 443
port_or_default scheme (some n) = if eqb n 0 then (if scheme == "http" then 80 else 443) else n

-- `_split_authority`
unfoldable pub split_authority : Unicode → String → Result Authority
unfolding strip_dots
split_authority unicode value = do
  parsed ← urlsplit unicode value
  guard (parsed.scheme == "http" || parsed.scheme == "https") value_error
  number ← port parsed
  guard (not (hostname unicode parsed == "")) value_error
  let host = strip_dots (hostname unicode parsed)
  guard (not (host == "")) value_error
  ok (record {
    scheme = parsed.scheme;
    host = unicode.lower host;
    port_number = port_or_default parsed.scheme number;
    userinfo = has_userinfo parsed;
  })

-- `f"{scheme}://{host}:{port}"`
abbrev pub origin_text : String → String → ℕ → String
origin_text scheme host number = scheme ⧺ ("://" ⧺ (host ⧺ (":" ⧺ show number)))

abbrev pub authority_origin : Authority → String
authority_origin a = origin_text a.scheme a.host a.port_number

unfoldable pub normalize_origin : Unicode → String → Result String
normalize_origin unicode value = do
  authority ← split_authority unicode (if occurs "://" value then value else "https://" ⧺ value)
  guard (not authority.userinfo) value_error
  ok (authority_origin authority)

pub record ResolvedDestination : Type 0 where
  pub origin : String
  pub scheme : String
  pub host : String
  pub port_number : ℕ
  pub addresses : List String

pub record DestinationPolicy : Type 0 where
  pub allowed_origins : List String
  pub allowed_methods : List String
  pub allow_plaintext_http : Bool
  pub allow_loopback : Bool
  pub allow_private_addresses : Bool

-- The loop of `from_origins`: the normalized origins, each once.
unfoldable pub normalize_all : Unicode → List String → List String → Result (List String)
normalize_all unicode [] normalized = ok normalized
normalize_all unicode (origin ∷ origins) normalized = do
  text ← normalize_origin unicode origin
  normalize_all unicode origins
      (if contains normalized text then normalized else normalized ++ (text ∷ []))

-- `allowed_methods or DEFAULT_ALLOWED_METHODS`
abbrev methods_or_default : Option (List String) → List String
methods_or_default none = default_allowed_methods
methods_or_default (some []) = default_allowed_methods
methods_or_default (some (method ∷ methods)) = method ∷ methods

-- `DestinationPolicy.from_origins`
unfoldable pub from_origins :
    Unicode → List String → Option (List String) → Bool → Bool → Bool → Result DestinationPolicy
from_origins unicode origins methods plaintext loopback private = do
  normalized ← normalize_all unicode origins []
  ok (record {
    allowed_origins = normalized;
    allowed_methods = methods_or_default methods;
    allow_plaintext_http = plaintext;
    allow_loopback = loopback;
    allow_private_addresses = private;
  })

-- `check_method`; `upper` is `str.upper`.
unfoldable pub check_method : (String → String) → DestinationPolicy → String → Result (Unit {0})
check_method upper policy method =
    guard (contains policy.allowed_methods (upper method)) (tool_layer method_not_allowed)

abbrev pub blocked : Failure
blocked = tool_layer private_address_blocked

-- The tests of `_check_address` on an address that was read and unwrapped.
unfoldable pub check_parsed : DestinationPolicy → Address → Result (Unit {0})
check_parsed policy address =
    if is_loopback address then guard policy.allow_loopback blocked else (do
      guard (not (is_multicast address || is_reserved address || is_unspecified address)) blocked
      guard (not (is_link_local address)) blocked
      guard (not (not (is_global address) && not policy.allow_private_addresses)) blocked)

abbrev or_blocked : Option Address → Result Address
or_blocked none = err blocked
or_blocked (some address) = ok address

-- `_check_address`
unfoldable pub check_address : DestinationPolicy → String → Result (Unit {0})
check_address policy text = do
  address ← or_blocked (ip_address text)
  check_parsed policy (unmapped address)

unfoldable pub check_addresses : DestinationPolicy → List String → Result (Unit {0})
check_addresses policy [] = ok tt
check_addresses policy (address ∷ addresses) =
    let rest = check_addresses policy addresses in check_address policy address >> rest

-- `_resolved_addresses`
unfoldable pub resolved_addresses : Resolver → String → ℕ → Result (List String)
resolved_addresses resolve host number = elim (ip_address host) [
  | some literal ↦ ok (show_address literal ∷ [])
  | none ↦ resolve host number
]

abbrev refused : Failure
refused = tool_layer destination_not_allowed

-- `raise PolicyDenied(...) from None` for the `ValueError` of a URL
abbrev or_refused : Result Authority → Result Authority
or_refused (ok authority) = ok authority
or_refused (err value_error) = err refused
or_refused (err failure) = err failure

abbrev no_origins : List String → Bool
no_origins [] = true
no_origins (_ ∷ _) = false

-- `DestinationPolicy.check`
unfoldable pub check : Unicode → Resolver → DestinationPolicy → String → Result ResolvedDestination
check unicode resolve policy url = do
  authority ← or_refused (split_authority unicode url)
  guard (not (authority.scheme == "http" && not policy.allow_plaintext_http)) refused
  guard (not authority.userinfo) refused
  guard (not (no_origins policy.allowed_origins)) refused
  guard (contains policy.allowed_origins (authority_origin authority)) refused
  addresses ← resolved_addresses resolve authority.host authority.port_number
  check_addresses policy addresses
  ok (record {
    origin = authority_origin authority;
    scheme = authority.scheme;
    host = unicode.lower authority.host;
    port_number = authority.port_number;
    addresses = addresses;
  })
