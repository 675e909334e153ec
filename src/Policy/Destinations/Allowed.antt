-- ===== src/Policy/Destinations/Allowed.antt =====
-- What `DestinationPolicy.check` lets through, and where its allowlist comes from.
use toollayer_ai.Base.{
  ◌≡◌, refl, sym, ◌∙◌, subst, ap, ◌⊎◌, inl, inr, String, Bool, true, false, not, ◌&&◌, Option, some,
  List, [], ◌∷◌, ◌++◌, ◌==◌, All, In, contains, contains→In, arith, if◌then◌else◌,
}
use toollayer_ai.Contracts.Errors.{Result, ok, err, >>=-eq-ok, guard-eq-ok}
use toollayer_ai.Policy.Address.{Address, ip_address}
use toollayer_ai.Policy.Address.Networks.{unmapped}
use toollayer_ai.Policy.Url.{Unicode}
use toollayer_ai.Policy.Destinations.{
  Resolver, Authority, split_authority, authority_origin, normalize_origin, ResolvedDestination,
  DestinationPolicy, or_refused, refused, no_origins, normalize_all, from_origins, check_address,
  check_addresses, resolved_addresses, check,
}
use toollayer_ai.Policy.Destinations.Addresses.{Permitted, check_address_iff}

-- The text is an address that the policy permits.
abbrev pub Reachable : DestinationPolicy → String → Type 0
Reachable policy text = (a : Address) × (ip_address text ≡ some a) × Permitted policy (unmapped a)

-- A destination that `policy` authorizes for `url`.
pub record IsAuthorized (unicode : Unicode) (resolve : Resolver) (policy : DestinationPolicy)
    (url : String) (destination : ResolvedDestination) : Type 0 where
  pub authority : Authority
  pub parsed : split_authority unicode url ≡ ok authority
  pub same_origin : destination.origin ≡ authority_origin authority
  pub listed : In destination.origin policy.allowed_origins
  pub no_userinfo : authority.userinfo ≡ false
  pub encrypted : (authority.scheme == "http" ≡ false) ⊎ (policy.allow_plaintext_http ≡ true)
  pub resolved :
      resolved_addresses resolve authority.host authority.port_number ≡ ok destination.addresses
  pub reachable : All (Reachable policy) destination.addresses

check_addresses-All :
    (policy : DestinationPolicy) (addresses : List String)
    → check_addresses policy addresses ≡ ok tt
    → All (Reachable policy) addresses
unfolding check_addresses
check_addresses-All policy [] h = tt
check_addresses-All policy (address ∷ addresses) h =
    let (done, first, rest) = >>=-eq-ok (check_address policy address) _ h in
    ((check_address_iff policy address).0 first, check_addresses-All policy addresses rest)

or_refused-eq-ok :
    (result : Result Authority) {authority : Authority}
    → or_refused result ≡ ok authority
    → result ≡ ok authority
or_refused-eq-ok (ok authority) h = h
or_refused-eq-ok (err failure) h = ground arith

-- A URL that `check` lets through has an origin of the allowlist, no credentials, and `https` unless plain
-- `http` is allowed; and every address that its host resolved to is one that the policy permits.
pub check-IsAuthorized :
    (unicode : Unicode) (resolve : Resolver) (policy : DestinationPolicy) (url : String)
    (destination : ResolvedDestination)
    → check unicode resolve policy url ≡ ok destination
    → IsAuthorized unicode resolve policy url destination
unfolding check
check-IsAuthorized unicode resolve policy url destination h =
    let (authority, parsed, h₁) = >>=-eq-ok (or_refused (split_authority unicode url)) _ h in
    let (plain, h₂) =
      guard-eq-ok (not (authority.scheme == "http" && not policy.allow_plaintext_http)) refused _
        h₁ in
    let (bare, h₃) = guard-eq-ok (not authority.userinfo) refused _ h₂ in
    let (_, h₄) = guard-eq-ok (not (no_origins policy.allowed_origins)) refused _ h₃ in
    let (listed, h₅) =
      guard-eq-ok (contains policy.allowed_origins (authority_origin authority)) refused _ h₄ in
    let (addresses, resolved, h₆) =
      >>=-eq-ok (resolved_addresses resolve authority.host authority.port_number) _ h₅ in
    let (done, checked, h₇) = >>=-eq-ok (check_addresses policy addresses) _ h₆ in
    let same : authority_origin authority ≡ destination.origin = ground arith in
    let those : addresses ≡ destination.addresses = ground arith in
    record {
      authority = authority;
      parsed = or_refused-eq-ok (split_authority unicode url) parsed;
      same_origin = sym same;
      listed =
          subst (λ o. In o policy.allowed_origins) same
            (contains→In policy.allowed_origins _ listed);
      no_userinfo = ground arith;
      encrypted = ground arith;
      resolved = resolved ∙ ap ok those;
      reachable =
          subst (All (Reachable policy)) those (check_addresses-All policy addresses checked);
    }

-- Each text of the list is the normalized form of one of the origins, or stood in `before`.
abbrev pub NormalOf : Unicode → List String → String → Type 0
NormalOf unicode origins text =
    (origin : String) × In origin origins × (normalize_origin unicode origin ≡ ok text)

In-snoc : (text x : String) (xs : List String) → In text (xs ++ (x ∷ [])) → In text xs ⊎ (x ≡ text)
In-snoc text x [] (inl e) = inr e
In-snoc text x [] (inr i) = absurd i
In-snoc text x (y ∷ ys) (inl e) = inl (inl e)
In-snoc text x (y ∷ ys) (inr i) = elim (In-snoc text x ys i) [ inl j ↦ inl (inr j) | inr e ↦ inr e ]

added :
    (unicode : Unicode) (b : Bool) (origin : String) (origins before : List String)
    (first text : String)
    → normalize_origin unicode origin ≡ ok first
    → In text (if b then before else before ++ (first ∷ []))
    → In text before ⊎ NormalOf unicode (origin ∷ origins) text
added unicode true origin origins before first text e old = inl old
added unicode false origin origins before first text e old = elim (In-snoc text first before old) [
  | inl i ↦ inl i
  | inr same ↦ inr (origin, inl refl, e ∙ ap ok same)
]

normalize_all-In :
    (unicode : Unicode) (origins before normalized : List String) (text : String)
    → normalize_all unicode origins before ≡ ok normalized
    → In text normalized
    → In text before ⊎ NormalOf unicode origins text
unfolding normalize_all
normalize_all-In unicode [] before normalized text h i =
    let same : normalized ≡ before = ground arith in inl (subst (In text) same i)
normalize_all-In unicode (origin ∷ origins) before normalized text h i =
    let (first, e, h₁) = >>=-eq-ok (normalize_origin unicode origin) _ h in
    elim (normalize_all-In unicode origins
      (if contains before first then before else before ++ (first ∷ [])) normalized text h₁ i) [
        | inl old ↦ added unicode (contains before first) origin origins before first text e old
        | inr (o, there, n) ↦ inr (o, inr there, n)
      ]

-- A policy of configured origins authorizes only destinations whose origin is the normalized form of one of them.
pub from_origins-check :
    (unicode : Unicode) (resolve : Resolver) (origins : List String)
    (methods : Option (List String)) (plaintext loopback private : Bool)
    (policy : DestinationPolicy) (url : String) (destination : ResolvedDestination)
    → from_origins unicode origins methods plaintext loopback private ≡ ok policy
    → check unicode resolve policy url ≡ ok destination
    → NormalOf unicode origins destination.origin
unfolding from_origins
from_origins-check unicode resolve origins methods plaintext loopback private policy url destination
      built h =
    let (normalized, all, made) = >>=-eq-ok (normalize_all unicode origins []) _ built in
    let same : policy.allowed_origins ≡ normalized = ground arith in
    let allowed = check-IsAuthorized unicode resolve policy url destination h in
    elim (normalize_all-In unicode origins [] normalized destination.origin all
      (subst (In destination.origin) same allowed.listed)) [ inl i ↦ absurd i | inr n ↦ n ]
