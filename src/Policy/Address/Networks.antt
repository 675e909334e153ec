-- ===== src/Policy/Address/Networks.antt =====
-- The tests that `_check_address` makes on an address, by the networks of CPython 3.11.
use toollayer_ai.Base.{
  ℕ, ◌+◌, ◌*◌, ◌/◌, ◌%◌, ◌^◌, Bool, not, ◌&&◌, ◌||◌, Option, none, some, eqb, if◌then◌else◌,
}
use toollayer_ai.Policy.Address.{Address, v4, v6}

-- The address is in the network that has this first address and `2 ^ bits` addresses.
abbrev pub within : ℕ → ℕ → ℕ → Bool
within first bits n = eqb (n / 2 ^ bits) (first / 2 ^ bits)

-- `IPv6Address.ipv4_mapped`
abbrev pub mapped : ℕ → Option ℕ
mapped n = if eqb (n / 2 ^ 32) 0xffff then some (n % 2 ^ 32) else none

-- `address.ipv4_mapped` in place of the address, where there is one.
unfoldable pub unmapped : Address → Address
unmapped (v4 n) = v4 n
unmapped (v6 n scope) = elim (mapped n) [ none ↦ v6 n scope | some m ↦ v4 m ]

unfoldable pub is_loopback : Address → Bool
is_loopback (v4 n) = within 0x7f000000 24 n
is_loopback (v6 n scope) = eqb n 1

unfoldable pub is_multicast : Address → Bool
is_multicast (v4 n) = within 0xe0000000 28 n
is_multicast (v6 n scope) = within (0xff00 * 2 ^ 112) 120 n

unfoldable pub is_unspecified : Address → Bool
is_unspecified (v4 n) = eqb n 0
is_unspecified (v6 n scope) = eqb n 0

unfoldable pub is_link_local : Address → Bool
is_link_local (v4 n) = within 0xa9fe0000 16 n
is_link_local (v6 n scope) = within (0xfe80 * 2 ^ 112) 118 n

unfoldable pub is_reserved : Address → Bool
is_reserved (v4 n) = within 0xf0000000 28 n
is_reserved (v6 n scope) =
    within 0 120 n
    || within (0x0100 * 2 ^ 112) 120 n
    || within (0x0200 * 2 ^ 112) 121 n
    || within (0x0400 * 2 ^ 112) 122 n
    || within (0x0800 * 2 ^ 112) 123 n
    || within (0x1000 * 2 ^ 112) 124 n
    || within (0x4000 * 2 ^ 112) 125 n
    || within (0x6000 * 2 ^ 112) 125 n
    || within (0x8000 * 2 ^ 112) 125 n
    || within (0xa000 * 2 ^ 112) 125 n
    || within (0xc000 * 2 ^ 112) 125 n
    || within (0xe000 * 2 ^ 112) 124 n
    || within (0xf000 * 2 ^ 112) 123 n
    || within (0xf800 * 2 ^ 112) 122 n
    || within (0xfe00 * 2 ^ 112) 119 n

private_v4 : ℕ → Bool
private_v4 n =
    (within 0 24 n
      || within 0x0a000000 24 n
      || within 0x7f000000 24 n
      || within 0xa9fe0000 16 n
      || within 0xac100000 20 n
      || within 0xc0000000 8 n
      || within 0xc00000aa 1 n
      || within 0xc0000200 8 n
      || within 0xc0a80000 16 n
      || within 0xc6120000 17 n
      || within 0xc6336400 8 n
      || within 0xcb007100 8 n
      || within 0xf0000000 28 n
      || eqb n 0xffffffff)
    && not (eqb n 0xc0000009 || eqb n 0xc000000a)

private_v6 : ℕ → Bool
private_v6 n =
    (eqb n 1
      || eqb n 0
      || within (0xffff * 2 ^ 32) 32 n
      || within (0x0064ff9b0001 * 2 ^ 80) 80 n
      || within (0x0100 * 2 ^ 112) 64 n
      || within (0x2001 * 2 ^ 112) 105 n
      || within (0x20010db8 * 2 ^ 96) 96 n
      || within (0x2002 * 2 ^ 112) 112 n
      || within (0xfc00 * 2 ^ 112) 121 n
      || within (0xfe80 * 2 ^ 112) 118 n)
    && not (
        eqb n (0x20010001 * 2 ^ 96 + 1)
        || eqb n (0x20010001 * 2 ^ 96 + 2)
        || within (0x20010003 * 2 ^ 96) 96 n
        || within (0x200100040112 * 2 ^ 80) 80 n
        || within (0x20010020 * 2 ^ 96) 100 n
        || within (0x20010030 * 2 ^ 96) 100 n)

-- `is_global`; 100.64.0.0/10 is neither global nor private.
unfoldable pub is_global : Address → Bool
unfolding private_v4 private_v6
is_global (v4 n) = not (within 0x64400000 22 n) && not (private_v4 n)
is_global (v6 n scope) = elim (mapped n) [ none ↦ not (private_v6 n) | some m ↦ not (private_v4 m) ]
