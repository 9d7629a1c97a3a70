-- ===== src/Policy/IpGuard.antt =====
-- The classification of addresses (packages/policy/src/ip-guard.ts) on their numeric values: a 32-bit
-- number for IPv4, eight 16-bit groups for IPv6. The value of `v & mask` under a mask of leading ones is
-- compared as the quotient of v by the weight of the bits that the mask drops.
use agent_gateway_control.Prelude.{
  ℕ, ◌+◌, ◌-◌, ◌*◌, ◌/◌, ◌^◌, ◌==◌, String, Bool, ◌&&◌, not, Option, none, some, List, [], ◌∷◌,
  is_none, if◌then◌else◌,
}

-- `base: "a.b.c.d"` is the number that ipv4ToInt reads.
pub record BlockedRange : Type 0 where
  pub base : ℕ
  pub bits : ℕ
  pub label : String

abbrev pub ipv4 : ℕ → ℕ → ℕ → ℕ → ℕ
ipv4 a b c d = a * 16777216 + b * 65536 + c * 256 + d

abbrev range : ℕ → ℕ → String → BlockedRange
range base bits label = record { base = base; bits = bits; label = label }

unfoldable pub ipv4_blocked_ranges : List BlockedRange
ipv4_blocked_ranges =
    range (ipv4 0 0 0 0) 8 "'this network' (RFC 791)"
    ∷ range (ipv4 10 0 0 0) 8 "private (RFC 1918)"
    ∷ range (ipv4 100 64 0 0) 10 "carrier-grade NAT (RFC 6598)"
    ∷ range (ipv4 127 0 0 0) 8 "loopback"
    ∷ range (ipv4 169 254 0 0) 16 "link-local"
    ∷ range (ipv4 172 16 0 0) 12 "private (RFC 1918)"
    ∷ range (ipv4 192 0 0 0) 24 "IETF protocol assignments (RFC 6890)"
    ∷ range (ipv4 192 0 2 0) 24 "documentation (TEST-NET-1)"
    ∷ range (ipv4 192 168 0 0) 16 "private (RFC 1918)"
    ∷ range (ipv4 198 18 0 0) 15 "benchmarking (RFC 2544)"
    ∷ range (ipv4 198 51 100 0) 24 "documentation (TEST-NET-2)"
    ∷ range (ipv4 203 0 113 0) 24 "documentation (TEST-NET-3)"
    ∷ range (ipv4 224 0 0 0) 4 "multicast"
    ∷ range (ipv4 255 255 255 255) 32 "broadcast"
    ∷ range (ipv4 240 0 0 0) 4 "reserved"
    ∷ []

-- `(value & mask) === (base & mask)` with the first `bits` of 32 bits set
abbrev pub in_range : ℕ → BlockedRange → Bool
in_range value r = value / 2 ^ (32 - r.bits) == r.base / 2 ^ (32 - r.bits)

unfoldable pub first_blocked : ℕ → List BlockedRange → Option String
first_blocked value [] = none
first_blocked value (r ∷ rs) =
    let rest = first_blocked value rs in if in_range value r then some r.label else rest

unfoldable pub ipv4_blocked_reason : ℕ → Option String
unfolding first_blocked ipv4_blocked_ranges
ipv4_blocked_reason value = first_blocked value ipv4_blocked_ranges

pub record Ipv6Groups : Type 0 where
  pub g0 : ℕ
  pub g1 : ℕ
  pub g2 : ℕ
  pub g3 : ℕ
  pub g4 : ℕ
  pub g5 : ℕ
  pub g6 : ℕ
  pub g7 : ℕ

-- The first n groups are 0.
abbrev first_four_zero : Ipv6Groups → Bool
first_four_zero g = g.g0 == 0 && g.g1 == 0 && g.g2 == 0 && g.g3 == 0

unfoldable pub ipv6_blocked_reason : Ipv6Groups → Option String
ipv6_blocked_reason g =
    if first_four_zero g && g.g4 == 0 && g.g5 == 0 && g.g6 == 0 && g.g7 == 0
    then some "unspecified"
    else if first_four_zero g && g.g4 == 0 && g.g5 == 0 && g.g6 == 0 && g.g7 == 1
    then some "loopback"
    else if first_four_zero g && g.g4 == 0 && g.g5 == 65535
    then some "IPv4-mapped"
    else if first_four_zero g && g.g4 == 65535 && g.g5 == 0
    then some "IPv4-translated (SIIT, RFC 6052 §2.2)"
    else if first_four_zero g && g.g4 == 0 && g.g5 == 0
    then some "IPv4-compatible (deprecated, RFC 4291)"
    else if g.g0 / 512 == 126
    then some "unique local (RFC 4193)"
    else if g.g0 / 64 == 1018
    then some "link-local"
    else if g.g0 / 64 == 1019
    then some "site-local (deprecated, RFC 3879)"
    else if g.g0 / 256 == 255
    then some "multicast"
    else if g.g0 == 8193 && g.g1 == 3512
    then some "documentation (RFC 3849)"
    else if g.g0 == 8193 && g.g1 == 0
    then some "Teredo (RFC 4380)"
    else if g.g0 == 8193 && g.g1 / 16 == 2
    then some "ORCHIDv2 (RFC 7343)"
    else if g.g0 == 8193 && g.g1 == 2 && g.g2 == 0
    then some "benchmarking (RFC 5180)"
    else if g.g0 == 8194
    then some "6to4 (RFC 3056)"
    else if g.g0 == 100 && g.g1 == 65435 && g.g2 == 0 && g.g3 == 0 && g.g4 == 0 && g.g5 == 0
    then some "NAT64 (RFC 6052)"
    else if g.g0 == 100 && g.g1 == 65435 && g.g2 == 1
    then some "NAT64 local-use (RFC 8215)"
    else if g.g0 == 256 && g.g1 == 0 && g.g2 == 0 && g.g3 == 0
    then some "discard-only (RFC 7707)"
    else if not (g.g0 / 8192 == 1)
    then some "not global unicast (outside '2000::/3')"
    else none

-- A parsed address: the family and its value, or text of family 6 that has no groups.
pub data ParsedIp : Type 0 where
  version_4 : ℕ → ParsedIp
  version_6 : Option Ipv6Groups → ParsedIp

unfoldable pub blocked_address_reason : ParsedIp → Option String
unfolding ipv4_blocked_reason ipv6_blocked_reason
blocked_address_reason (version_4 value) = ipv4_blocked_reason value
blocked_address_reason (version_6 none) = some "unparseable"
blocked_address_reason (version_6 (some groups)) = ipv6_blocked_reason groups

unfoldable pub is_public_address : ParsedIp → Bool
unfolding blocked_address_reason
is_public_address parsed = is_none (blocked_address_reason parsed)
