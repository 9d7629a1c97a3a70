-- ===== src/Policy/PublicAddress.antt =====
-- Which addresses isPublicAddress lets through.
use agent_gateway_control.Prelude.{
  ℕ, ◌≤◌, ◌<◌, ◌≡◌, ◌≢◌, ◌↔◌, ◌⊎◌, true, none, some, List, [], ◌∷◌, All, is_none, arith,
}
use agent_gateway_control.Policy.IpGuard.{
  ipv4, ipv4_blocked_ranges, first_blocked, ipv4_blocked_reason, Ipv6Groups, ipv6_blocked_reason,
  ParsedIp, version_4, version_6, blocked_address_reason, is_public_address,
}

-- Global unicast, less the assignments inside it that are no public hosts.
abbrev pub IsGlobalUnicast : Ipv6Groups → Type 0
IsGlobalUnicast g =
    (8192 ≤ g.g0)
    × ((g.g0 < 16384)
        × ((g.g0 ≢ 8194)
            × (g.g0 ≡ 8193
                → (g.g1 ≢ 0)
                  × ((g.g1 ≢ 3512) × ((g.g1 < 32 ⊎ 48 ≤ g.g1) × (g.g1 ≡ 2 → g.g2 ≢ 0))))))

ipv6_lem : (g : Ipv6Groups) → (is_none (ipv6_blocked_reason g) ≡ true) ↔ IsGlobalUnicast g
unfolding ipv6_blocked_reason
ipv6_lem g = ground arith

-- The addresses that are no public hosts, as half-open intervals.
abbrev pub special_ipv4 : List (ℕ × ℕ)
special_ipv4 =
    (ipv4 0 0 0 0, ipv4 1 0 0 0)
    ∷ (ipv4 10 0 0 0, ipv4 11 0 0 0)
    ∷ (ipv4 100 64 0 0, ipv4 100 128 0 0)
    ∷ (ipv4 127 0 0 0, ipv4 128 0 0 0)
    ∷ (ipv4 169 254 0 0, ipv4 169 255 0 0)
    ∷ (ipv4 172 16 0 0, ipv4 172 32 0 0)
    ∷ (ipv4 192 0 0 0, ipv4 192 0 1 0)
    ∷ (ipv4 192 0 2 0, ipv4 192 0 3 0)
    ∷ (ipv4 192 168 0 0, ipv4 192 169 0 0)
    ∷ (ipv4 198 18 0 0, ipv4 198 20 0 0)
    ∷ (ipv4 198 51 100 0, ipv4 198 51 101 0)
    ∷ (ipv4 203 0 113 0, ipv4 203 0 114 0)
    ∷ (ipv4 224 0 0 0, ipv4 256 0 0 0)
    ∷ []

abbrev pub Outside : ℕ → ℕ × ℕ → Type 0
Outside value interval = (value < interval.0) ⊎ (interval.1 ≤ value)

ipv4_lem :
    (value : ℕ)
    → value < ipv4 256 0 0 0
    → (is_none (ipv4_blocked_reason value) ≡ true) ↔ All (Outside value) special_ipv4
unfolding ipv4_blocked_reason first_blocked ipv4_blocked_ranges
ipv4_lem value small = ground arith

-- The addresses that a host of the public internet may have.
abbrev pub IsPublicHost : ParsedIp → Type 0
IsPublicHost (version_4 value) = All (Outside value) special_ipv4
IsPublicHost (version_6 none) = ⊥
IsPublicHost (version_6 (some groups)) = IsGlobalUnicast groups

abbrev pub Is32Bit : ParsedIp → Type 0
Is32Bit (version_4 value) = value < ipv4 256 0 0 0
Is32Bit (version_6 groups) = Unit

-- The guard lets through exactly the addresses of public hosts: a 32-bit IPv4 address outside the
-- special intervals, or an IPv6 address in 2000::/3 that is in none of the ranges 2001:0::/32,
-- 2001:20::/28, 2001:2:0::/48, 2001:db8::/32 and 2002::/16.
pub is_public_address_iff :
    (parsed : ParsedIp) → Is32Bit parsed → (is_public_address parsed ≡ true) ↔ IsPublicHost parsed
unfolding is_public_address blocked_address_reason
is_public_address_iff (version_4 value) small = ipv4_lem value small
is_public_address_iff (version_6 none) small = ground arith
is_public_address_iff (version_6 (some groups)) small = ipv6_lem groups
