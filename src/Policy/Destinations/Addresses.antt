-- ===== src/Policy/Destinations/Addresses.antt =====
-- Which addresses `_check_address` lets the runtime reach, by the numbers of the addresses.
use toollayer_ai.Base.{
  ◌*◌, ◌/◌, ◌^◌, ◌≤◌, ◌<◌, ◌≡◌, ◌⊎◌, ◌↔◌, sym, ap, subst, ◌∙◌, inl, inr, String, Bool, true, false,
  ◌||◌, none, some, eqb, arith, Bool-cases, Option-cases,
}
use toollayer_ai.Contracts.Errors.{ok, err}
use toollayer_ai.Policy.Address.{Address, v4, v6, ip_address}
use toollayer_ai.Policy.Address.Bounds.{or_else, IsBounded, ip_address-IsBounded}
use toollayer_ai.Policy.Address.Networks.{
  unmapped, is_loopback, is_multicast, is_reserved, is_unspecified, is_link_local, is_global,
}
use toollayer_ai.Policy.Destinations.{DestinationPolicy, blocked, check_parsed, check_address}

-- Of IPv4: 127.0.0.0/8 where loopback is allowed; else below 224.0.0.0, but not 0.0.0.0 or 169.254.0.0/16.
-- Of IPv6: ::1 where loopback is allowed; else 2000::/3, fc00::/7 or fec0::/10. Besides loopback, an address
-- is globally routable, or private ones are allowed.
abbrev pub Loopback : Address → Type 0
Loopback (v4 n) = (0x7f000000 ≤ n) × (n < 0x80000000)
Loopback (v6 n scope) = n ≡ 1

abbrev pub Unicast : Address → Type 0
Unicast (v4 n) = (0 < n) × (n < 0xe0000000) × ((n < 0xa9fe0000) ⊎ (0xa9ff0000 ≤ n))
Unicast (v6 n scope) =
    ((0x2000 * 2 ^ 112 ≤ n) × (n < 0x4000 * 2 ^ 112))
    ⊎ (((0xfc00 * 2 ^ 112 ≤ n) × (n < 0xfe00 * 2 ^ 112))
        ⊎ ((0xfec0 * 2 ^ 112 ≤ n) × (n < 0xff00 * 2 ^ 112)))

Loopback-iff : (a : Address) → (is_loopback a ≡ true) ↔ Loopback a
unfolding is_loopback
Loopback-iff (v4 n) = (λ h. ground arith, λ h. ground arith)
Loopback-iff (v6 n scope) = (λ h. ground arith, λ h. ground arith)

abbrev excluded : Address → Bool
excluded a = is_multicast a || is_reserved a || is_unspecified a || is_link_local a

excluded_iff : (a : Address) → IsBounded a → (excluded a ≡ false) ↔ Unicast a
unfolding is_multicast is_reserved is_unspecified is_link_local
excluded_iff (v4 n) b = (λ h. ground arith, λ h. ground arith)
excluded_iff (v6 n scope) b = (λ h. ground arith, λ h. ground arith)

-- The address may be reached by this policy.
abbrev pub Permitted : DestinationPolicy → Address → Type 0
Permitted policy a =
    (Loopback a × (policy.allow_loopback ≡ true))
    ⊎ ((¬ Loopback a)
        × Unicast a
        × ((is_global a ≡ true) ⊎ (policy.allow_private_addresses ≡ true)))

check_parsed_iff :
    (policy : DestinationPolicy) (a : Address)
    → IsBounded a
    → (check_parsed policy a ≡ ok tt) ↔ Permitted policy a
unfolding check_parsed
check_parsed_iff policy a b = elim (Bool-cases (is_loopback a)) [
  | inl here ↦ (
    λ h. inl ((Loopback-iff a).0 here, ground arith),
    λ p. elim p [ inl q ↦ ground arith | inr q ↦ absurd (q.0 ((Loopback-iff a).0 here)) ],
  )
  | inr away ↦
      let off : ¬ Loopback a = λ l. ground (arith, (Loopback-iff a).1 l) in
      (
        λ h. inr (off, (excluded_iff a b).0 (ground arith), ground arith),
        λ p. elim p [
          | inl q ↦ absurd (off q.0)
          | inr q ↦ let plain = (excluded_iff a b).1 q.1 in ground arith
        ],
      )
]

unmapped-IsBounded : (a : Address) → IsBounded a → IsBounded (unmapped a)
unfolding unmapped
unmapped-IsBounded (v4 n) b = b
unmapped-IsBounded (v6 n scope) b = elim (Bool-cases (eqb (n / 2 ^ 32) 0xffff)) [
  | inl e ↦ rw (e, IsBounded) (omega arith)
  | inr e ↦ rw (e, IsBounded) b
]

-- A text passes `_check_address` exactly when it is an address, and the address that a packet to it goes to,
-- the embedded one of an IPv4-mapped address, is permitted: a loopback address where those are allowed, else a
-- unicast address that is not link-local, and which is globally routable unless private ones are allowed.
pub check_address_iff :
    (policy : DestinationPolicy) (text : String)
    → (check_address policy text ≡ ok tt)
      ↔ ((a : Address) × (ip_address text ≡ some a) × Permitted policy (unmapped a))
unfolding check_address
check_address_iff policy text = elim (Option-cases (ip_address text)) [
  | inl e ↦ (
    λ h. (let bad : err blocked ≡ ok tt = rw e at h in absurd (ground arith)),
    λ p. (let bad : none ≡ some p.0 = sym e ∙ p.1 in cc),
  )
  | inr (a, e) ↦
      let checked =
        check_parsed_iff policy (unmapped a) (unmapped-IsBounded a (ip_address-IsBounded text e)) in
      (
        λ h. (a, e, checked.0 (rw e at h)),
        λ p.
            (let same : p.0 ≡ a = ap (or_else a) (sym p.1 ∙ e) in
              let passes : check_parsed policy (unmapped a) ≡ ok tt =
                checked.1 (subst (λ x. Permitted policy (unmapped x)) same p.2) in
              rw e passes),
      )
]
