-- ===== src/Proxy/Address/Blocks.antt =====
-- The address filter by octets: which blocks are refused.
use webshot.Base.{
  ℕ, zero, suc, All, ◌+◌, ◌*◌, ◌<◌, ◌≤◌, ◌≡◌, refl, ◌==◌, leb, Bool, not, ◌&&◌, ◌||◌, ◌++◌, [], ◌∷◌,
  length, all, take, arith,
}
use webshot.Base.Bytes.{Bytes, ◌=?◌}
use webshot.Proxy.Address.{
  Ip, ip4, ip6, in_ipv4_range, ipv4_host_order, is_public_routable, is_public_routable4,
  is_public_routable6, masked, octet, zeros, loopback,
}

-- The refused blocks of version 4 by the first two octets: this network, private, shared, loopback,
-- link-local, private, private, benchmarks, and multicast with all that is reserved above it.
abbrev pub is_special4 : ℕ → ℕ → Bool
is_special4 a b =
    a == 0
    || (a == 10
        || ((a == 100 && (leb 64 b && leb b 127))
            || (a == 127
                || ((a == 169 && b == 254)
                    || ((a == 172 && (leb 16 b && leb b 31))
                        || ((a == 192 && b == 168)
                            || ((a == 198 && (leb 18 b && leb b 19)) || leb 224 a)))))))

-- Those of version 6: unspecified, loopback, unique local, link-local, mapped version 4, multicast.
abbrev pub is_special6 : Bytes → Bool
is_special6 v =
    v =? zeros 16
    || (v =? loopback
        || ((leb 0xFC (octet v 0) && leb (octet v 0) 0xFD)
            || ((octet v 0 == 0xFE && (leb 0x80 (octet v 1) && leb (octet v 1) 0xBF))
                || (take 12 v =? (zeros 10 ++ 0xFF ∷ 0xFF ∷ []) || octet v 0 == 0xFF))))

module _ (a b c d : ℕ) (ha : a < 256) (hb : b < 256) (hc : c < 256) (hd : d < 256) where
  slash8 :
      (n : ℕ)
      → n < 256
      → in_ipv4_range (ipv4_host_order a b c d) (n * 0x1000000) 0xFF000000 ≡ (a == n)
  unfolding in_ipv4_range ipv4_host_order
  slash8 n h = ground arith

  slash10 :
      in_ipv4_range (ipv4_host_order a b c d) 0x64400000 0xFFC00000
      ≡ (a == 100 && (leb 64 b && leb b 127))
  unfolding in_ipv4_range ipv4_host_order
  slash10 = ground arith

  slash12 :
      in_ipv4_range (ipv4_host_order a b c d) 0xAC100000 0xFFF00000
      ≡ (a == 172 && (leb 16 b && leb b 31))
  unfolding in_ipv4_range ipv4_host_order
  slash12 = ground arith

  slash15 :
      in_ipv4_range (ipv4_host_order a b c d) 0xC6120000 0xFFFE0000
      ≡ (a == 198 && (leb 18 b && leb b 19))
  unfolding in_ipv4_range ipv4_host_order
  slash15 = ground arith

  slash16 :
      (m n : ℕ)
      → m < 256
      → n < 256
      → in_ipv4_range (ipv4_host_order a b c d) (m * 0x1000000 + n * 0x10000) 0xFFFF0000
        ≡ (a == m && b == n)
  unfolding in_ipv4_range ipv4_host_order
  slash16 m n hm hn = ground arith

  slash4 :
      (n : ℕ)
      → n < 16
      → in_ipv4_range (ipv4_host_order a b c d) (n * 0x10000000) 0xF0000000
        ≡ (leb (n * 16) a && leb a (n * 16 + 15))
  unfolding in_ipv4_range ipv4_host_order
  slash4 n h = ground arith

  pub ip4_lem : is_public_routable (ip4 a b c d) ≡ not (is_special4 a b)
  unfolding is_public_routable is_public_routable4
  ip4_lem =
      rw
        (
          slash8 0 (omega arith),
          slash8 10 (omega arith),
          slash10,
          slash8 127 (omega arith),
          slash16 169 254 (omega arith) (omega arith),
          slash12,
          slash16 192 168 (omega arith) (omega arith),
          slash15,
          slash4 14 (omega arith),
          slash4 15 (omega arith),
        )
        (ground arith)

all-zeros : (n : ℕ) (v : Bytes) → length v ≡ n → all (λ c. c == 0) v ≡ (v =? zeros n)
all-zeros zero [] h = refl
all-zeros zero (c ∷ v) h = absurd (omega arith)
all-zeros (suc n) [] h = absurd (omega arith)
all-zeros (suc n) (c ∷ v) h = ground (arith, all-zeros n v)

mapped :
    (n : ℕ) (v : Bytes)
    → n + 2 ≤ length v
    → (take n v =? zeros n && octet v n == 0xFF && octet v (suc n) == 0xFF)
      ≡ (take (suc (suc n)) v =? (zeros n ++ 0xFF ∷ 0xFF ∷ []))
mapped zero [] h = absurd (omega arith)
mapped zero (c ∷ []) h = absurd (omega arith)
mapped zero (c ∷ d ∷ v) h = ground arith
mapped (suc n) [] h = absurd (omega arith)
mapped (suc n) (c ∷ v) h = ground (arith, mapped n v)

unique_local : (x : ℕ) → x < 256 → (masked 0x100 0xFE x == 0xFC) ≡ (leb 0xFC x && leb x 0xFD)
unique_local x h = ground arith

link_local : (x : ℕ) → x < 256 → (masked 0x100 0xC0 x == 0x80) ≡ (leb 0x80 x && leb x 0xBF)
link_local x h = ground arith

octet-lt : (v : Bytes) (i : ℕ) → All (λ c. c < 256) v → octet v i < 256
octet-lt [] i h = omega arith
octet-lt (c ∷ v) zero h = h.0
octet-lt (c ∷ v) (suc i) h = octet-lt v i h.1

pub ip6_lem :
    (v : Bytes)
    → length v ≡ 16
    → All (λ c. c < 256) v
    → is_public_routable (ip6 v) ≡ not (is_special6 v)
unfolding is_public_routable is_public_routable6
ip6_lem v l h =
    rw
      (
        all-zeros 16 v l,
        mapped 10 v (omega arith),
        unique_local (octet v 0) (octet-lt v 0 h),
        link_local (octet v 1) (octet-lt v 1 h),
      )
      (ground arith)

-- An address has bytes, four or sixteen of them.
abbrev pub IsAddress : Ip → Type 0
IsAddress (ip4 a b c d) = (a < 256) × (b < 256) × (c < 256) × (d < 256)
IsAddress (ip6 v) = (length v ≡ 16) × All (λ c. c < 256) v

abbrev pub is_special : Ip → Bool
is_special (ip4 a b c d) = is_special4 a b
is_special (ip6 v) = is_special6 v

-- An address of either version passes the filter exactly when it lies in none of the blocks listed.
pub is_public_routable-is_special :
    (ip : Ip) → IsAddress ip → is_public_routable ip ≡ not (is_special ip)
is_public_routable-is_special (ip4 a b c d) h = ip4_lem a b c d h.0 h.1 h.2 h.3
is_public_routable-is_special (ip6 v) h = ip6_lem v h.0 h.1
