-- ===== src/Proxy/Address.antt =====
-- Which addresses the crawler may reach: `IsPublicRoutable` of webshotd/include/ip.hpp.
pub mod Blocks
use webshot.Base.{
  ℕ, zero, suc, ◌+◌, ◌-◌, ◌*◌, ◌%◌, ◌==◌, Bool, true, false, ◌&&◌, if◌then◌else◌, List, [], ◌∷◌,
  all, take,
}
use webshot.Base.Bytes.{Bytes, ◌=?◌}

-- The octets of an address; one of version 6 has sixteen.
pub data Ip : Type 0 where
  ip4 : ℕ → ℕ → ℕ → ℕ → Ip
  ip6 : Bytes → Ip

-- `x & mask` on words of `size` values, for a mask whose ones come first.
abbrev pub masked : ℕ → ℕ → ℕ → ℕ
masked size mask x = x - x % (size - mask)

unfoldable pub in_ipv4_range : ℕ → ℕ → ℕ → Bool
in_ipv4_range ip network mask = masked 0x100000000 mask ip == masked 0x100000000 mask network

unfoldable pub ipv4_host_order : ℕ → ℕ → ℕ → ℕ → ℕ
ipv4_host_order a b c d = a * 0x1000000 + b * 0x10000 + c * 0x100 + d

-- The branches for a network in order.
unfoldable pub is_public_routable4 : ℕ → Bool
is_public_routable4 ip =
    if in_ipv4_range ip 0x00000000 0xFF000000
    then false
    else if in_ipv4_range ip 0x0A000000 0xFF000000
    then false
    else if in_ipv4_range ip 0x64400000 0xFFC00000
    then false
    else if in_ipv4_range ip 0x7F000000 0xFF000000
    then false
    else if in_ipv4_range ip 0xA9FE0000 0xFFFF0000
    then false
    else if in_ipv4_range ip 0xAC100000 0xFFF00000
    then false
    else if in_ipv4_range ip 0xC0A80000 0xFFFF0000
    then false
    else if in_ipv4_range ip 0xC6120000 0xFFFE0000
    then false
    else if in_ipv4_range ip 0xE0000000 0xF0000000
    then false
    else if in_ipv4_range ip 0xF0000000 0xF0000000
    then false
    else true

-- `v[i]`, in range for an array of sixteen.
abbrev pub octet : Bytes → ℕ → ℕ
octet [] i = 0
octet (c ∷ v) zero = c
octet (c ∷ v) (suc i) = octet v i

abbrev pub zeros : ℕ → Bytes
zeros zero = []
zeros (suc n) = 0 ∷ zeros n

abbrev pub loopback : Bytes
loopback = 0 ∷ 0 ∷ 0 ∷ 0 ∷ 0 ∷ 0 ∷ 0 ∷ 0 ∷ 0 ∷ 0 ∷ 0 ∷ 0 ∷ 0 ∷ 0 ∷ 0 ∷ 1 ∷ []

unfoldable pub is_public_routable6 : Bytes → Bool
is_public_routable6 v =
    if all (λ c. c == 0) v
    then false
    else if v =? loopback
    then false
    else if masked 0x100 0xFE (octet v 0) == 0xFC
    then false
    else if octet v 0 == 0xFE && masked 0x100 0xC0 (octet v 1) == 0x80
    then false
    else if take 10 v =? zeros 10 && octet v 10 == 0xFF && octet v 11 == 0xFF
    then false
    else if octet v 0 == 0xFF
    then false
    else true

unfoldable pub is_public_routable : Ip → Bool
unfolding ipv4_host_order is_public_routable4 is_public_routable6 in_ipv4_range
is_public_routable (ip4 a b c d) = is_public_routable4 (ipv4_host_order a b c d)
is_public_routable (ip6 v) = is_public_routable6 v
