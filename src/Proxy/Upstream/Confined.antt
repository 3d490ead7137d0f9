-- ===== src/Proxy/Upstream/Confined.antt =====
-- Which addresses a connection may go to, and which of them it takes.
use mathlib.Core.Path.{subst}
use webshot.Base.{
  ℕ, ◌≡◌, refl, sym, ap, Bool, true, false, not, ◌&&◌, Bool-cases, List, [], ◌∷◌, ◌++◌, Option,
  none, some, All, All-mono, Expected, ok, err, ◌⊎◌, inl, inr, arith,
}
use webshot.Base.Bytes.{Bytes, codes}
use webshot.Base.Outcome.{returns, ◌>>=◌}
use webshot.Proxy.{EgressProxyConfig}
use webshot.Proxy.Address.{Ip, ip4, is_public_routable}
use webshot.Proxy.Upstream.{
  Answer, failed, addresses, Network, UpstreamTarget, ResolvedTcpAddress, is_local_host,
  is_testsuite_loopback_host, is_testsuite_loopback_port, rewrite_local_fixture_if_needed, resolved,
  filter_addresses, Found, check_resolved, resolve_name, resolve_parsed, resolve_tcp, Connected,
  attempt, try_addresses, reported, target, Connection, connect_resolved, connect_upstream,
}
use webshot.Proxy.Upstream.Rewriting.{FixturePort, rewrite-cases}

abbrev pub IsIp : Option Ip → Type 0
IsIp none = ⊥
IsIp (some ip) = Unit

-- The resolver, asked for IP addresses, names no other.
abbrev pub IsIpAnswer : Answer → Type 0
IsIpAnswer failed = Unit
IsIpAnswer (addresses found_addresses) = All IsIp found_addresses

-- The hosts of the test setup that are reached whatever their address is.
abbrev pub Fixture : EgressProxyConfig → Bytes → ℕ → ResolvedTcpAddress → Type 0
Fixture cfg host asked r =
    (cfg.enable_local_fixture_rewrite ≡ true)
    × (((is_testsuite_loopback_host host ≡ true)
          × (is_testsuite_loopback_port cfg asked ≡ true)
          × (r.port ≡ asked))
        ⊎ ((is_local_host host ≡ true) × FixturePort asked r.port × (r.ip ≡ ip4 127 0 0 1)))

abbrev pub Permitted : EgressProxyConfig → Bytes → ℕ → ResolvedTcpAddress → Type 0
Permitted cfg host asked r =
    ((is_public_routable r.ip ≡ true) × (r.port ≡ asked)) ⊎ Fixture cfg host asked r

-- What is known of an address once it is resolved for a target.
abbrev Suits : Bool → ℕ → ResolvedTcpAddress → Type 0
Suits allow port r = ((is_public_routable r.ip ≡ true) ⊎ (allow ≡ true)) × (r.port ≡ port)

module _ (net : Network) where
  abbrev pub Fails : ResolvedTcpAddress → Type 0
  Fails r = (what : Bytes) × (net.connect r.ip r.port ≡ some what)

  -- The addresses are tried in order up to the first that can be connected to, which is taken; on an
  -- error all of them were tried, and none can.
  abbrev pub TakesFirst {ℓ} :
      {E : Type ℓ}
      → List ResolvedTcpAddress
      → List ResolvedTcpAddress
      → Expected ResolvedTcpAddress E
      → Type 0
  TakesFirst addrs tried (err e) = (tried ≡ addrs) × All Fails addrs
  TakesFirst addrs tried (ok s) =
      (before : List ResolvedTcpAddress) × (after : List ResolvedTcpAddress) × (addrs
        ≡ before ++ s ∷ after)
      × (tried ≡ before ++ s ∷ [])
      × All Fails before
      × (net.connect s.ip s.port ≡ none)

  -- The same for what `ResolveTcp` gives: without addresses its error is the result, and none is tried.
  abbrev pub TakesFound :
      Found net → List ResolvedTcpAddress → Expected ResolvedTcpAddress Bytes → Type 0
  TakesFound (err e) tried connected = (tried ≡ []) × (connected ≡ err e)
  TakesFound (ok addrs) tried connected = TakesFirst addrs tried connected

  filter_addresses-Suits :
      (allow : Bool) (port : ℕ) (answers : List (Option Ip))
      → All IsIp answers
      → (rs : List ResolvedTcpAddress) × (filter_addresses net allow port answers ≡ returns rs)
        × All (Suits allow port) rs
  unfolding filter_addresses
  filter_addresses-Suits allow port [] h = ([], refl, tt)
  filter_addresses-Suits allow port (none ∷ answers) h = absurd h.0
  filter_addresses-Suits allow port (some ip ∷ answers) h =
      let (rs, e, good) = filter_addresses-Suits allow port answers h.1 in
      elim (Bool-cases (not allow && not (is_public_routable ip))) [
        | inl out ↦ (rs, rw (e, out) refl, good)
        | inr in_ ↦ (resolved net port ip ∷ rs, rw (e, in_) refl, ((ground arith, refl), good))
      ]

  SuitsFound : Bool → ℕ → Found net → Type 0
  SuitsFound allow port (err e) = Unit
  SuitsFound allow port (ok rs) = All (Suits allow port) rs

  check_resolved-Suits :
      (allow : Bool) (host : Bytes) (port : ℕ) (rs : List ResolvedTcpAddress)
      → All (Suits allow port) rs
      → SuitsFound allow port (check_resolved net host rs)
  unfolding check_resolved SuitsFound
  check_resolved-Suits allow host port [] h = tt
  check_resolved-Suits allow host port (r ∷ rs) h = h

  resolve_name-Suits :
      (host : Bytes) (port : ℕ) (allow : Bool) (a : Answer)
      → IsIpAnswer a
      → (f : Found net) × (resolve_name net host port allow a ≡ returns f) × SuitsFound allow port f
  unfolding resolve_name SuitsFound
  resolve_name-Suits host port allow failed h =
      (err (codes "dns resolve failed for " ++ host), refl, tt)
  resolve_name-Suits host port allow (addresses []) h =
      (err (codes "dns resolve returned no addresses for " ++ host), refl, tt)
  resolve_name-Suits host port allow (addresses (a ∷ answers)) h =
      let (rs, e, good) = filter_addresses-Suits allow port (a ∷ answers) h in
      (check_resolved net host rs, rw e refl, check_resolved-Suits allow host port rs good)

  resolve_parsed-Suits :
      ((h : Bytes) → IsIpAnswer (net.resolve h))
      → (host : Bytes) (port : ℕ) (allow : Bool) (parsed : Option Ip)
      → (f : Found net) × (resolve_parsed net host port allow parsed ≡ returns f)
        × SuitsFound allow port f
  unfolding resolve_parsed SuitsFound
  resolve_parsed-Suits only host port allow none =
      resolve_name-Suits host port allow (net.resolve host) (only host)
  resolve_parsed-Suits only host port allow (some ip) =
      elim (Bool-cases (not allow && not (is_public_routable ip))) [
        | inl out ↦ (err (codes "ip address not public-routable for " ++ host), rw out refl, tt)
        | inr in_ ↦ (ok (resolved net port ip ∷ []), rw in_ refl, ((ground arith, refl), tt))
      ]

  resolve_tcp_literal :
      (host : Bytes) (port : ℕ) (ip : Ip)
      → net.parse_ip host ≡ some ip
      → resolve_tcp net host port true ≡ returns (ok (resolved net port ip ∷ []))
  unfolding resolve_tcp resolve_parsed
  resolve_tcp_literal host port ip p = rw p refl

  resolve_tcp-Suits :
      ((h : Bytes) → IsIpAnswer (net.resolve h))
      → (host : Bytes) (port : ℕ) (allow : Bool)
      → (f : Found net) × (resolve_tcp net host port allow ≡ returns f) × SuitsFound allow port f
  unfolding resolve_tcp
  resolve_tcp-Suits only host port allow =
      resolve_parsed-Suits only host port allow (net.parse_ip host)

  attempt-TakesFirst :
      (r : ResolvedTcpAddress) (c : Option Bytes) (addrs tried : List ResolvedTcpAddress)
      (connected : Connected net)
      → net.connect r.ip r.port ≡ c
      → TakesFirst addrs tried connected
      → TakesFirst
          (r ∷ addrs)
          (attempt net r c (tried, connected)).0
          (attempt net r c (tried, connected)).1
  attempt-TakesFirst r none addrs tried connected e h = ([], addrs, refl, refl, tt, e)
  attempt-TakesFirst r (some what) addrs tried (err errors) e (t, fail) =
      (ap (◌∷◌ r) t, ((what, e), fail))
  attempt-TakesFirst r (some what) addrs tried (ok s) e (before, after, a, t, fail, c) =
      (r ∷ before, after, ap (◌∷◌ r) a, ap (◌∷◌ r) t, ((what, e), fail), c)

  try_addresses-TakesFirst :
      (rs : List ResolvedTcpAddress)
      → TakesFirst rs (try_addresses net rs).0 (try_addresses net rs).1
  unfolding try_addresses
  try_addresses-TakesFirst [] = (refl, tt)
  try_addresses-TakesFirst (r ∷ rs) =
      attempt-TakesFirst r (net.connect r.ip r.port) rs (try_addresses net rs).0
        (try_addresses net rs).1 refl (try_addresses-TakesFirst rs)

  attempt-All :
      (P : ResolvedTcpAddress → Type 0) (r : ResolvedTcpAddress) (c : Option Bytes)
      (later : List ResolvedTcpAddress × Connected net)
      → P r
      → All P later.0
      → All P (attempt net r c later).0
  attempt-All P r none later h hs = (h, tt)
  attempt-All P r (some what) later h hs = (h, hs)

  try_addresses-All :
      (P : ResolvedTcpAddress → Type 0) (rs : List ResolvedTcpAddress)
      → All P rs
      → All P (try_addresses net rs).0
  unfolding try_addresses
  try_addresses-All P [] h = tt
  try_addresses-All P (r ∷ rs) h =
      attempt-All P r (net.connect r.ip r.port) (try_addresses net rs) h.0
        (try_addresses-All P rs h.1)

  reported-TakesFirst :
      (u : UpstreamTarget) (addrs tried : List ResolvedTcpAddress) (c : Connected net)
      → TakesFirst addrs tried c
      → TakesFirst addrs tried (reported net u c)
  reported-TakesFirst u addrs tried (ok s) h = h
  reported-TakesFirst u addrs tried (err errors) h = h

  connect_resolved_lem :
      (P : ResolvedTcpAddress → Type 0) (u : UpstreamTarget) (rs : List ResolvedTcpAddress)
      → All P rs
      → All P (connect_resolved net u (ok rs)).0
        × TakesFirst rs (connect_resolved net u (ok rs)).0 (connect_resolved net u (ok rs)).1
  unfolding connect_resolved
  connect_resolved_lem P u rs h = (
    try_addresses-All P rs h,
    reported-TakesFirst u rs (try_addresses net rs).0 (try_addresses net rs).1
        (try_addresses-TakesFirst rs),
  )

  -- A connection from the addresses check_resolved for a target.
  Connects : (ResolvedTcpAddress → Type 0) → UpstreamTarget → Type 0
  Connects P u =
      (c : Connection net) × (f : Found net) × ((resolve_tcp net u.connect_host u.connect_port
            u.allow_non_public_ip
          >>= λ addrs. returns (connect_resolved net u addrs))
        ≡ returns c)
      × All P c.0
      × (resolve_tcp net u.connect_host u.connect_port u.allow_non_public_ip ≡ returns f)
      × TakesFound f c.0 c.1

  module _ (only : (h : Bytes) → IsIpAnswer (net.resolve h)) where
    resolved_list-Connects :
        (P : ResolvedTcpAddress → Type 0) (u : UpstreamTarget) (f : Found net)
        → resolve_tcp net u.connect_host u.connect_port u.allow_non_public_ip ≡ returns f
        → SuitsFound u.allow_non_public_ip u.connect_port f
        → ((r : ResolvedTcpAddress) → Suits u.allow_non_public_ip u.connect_port r → P r)
        → Connects P u
    unfolding Connects SuitsFound
    resolved_list-Connects P u (err e) found_ h suits = (
      connect_resolved net u (err e),
      err e,
      rw found_ refl,
      (unfold connect_resolved in tt),
      found_,
      (unfold connect_resolved in (refl, refl)),
    )
    resolved_list-Connects P u (ok rs) found_ h suits =
        let lem = connect_resolved_lem P u rs (All-mono suits rs h) in
        (connect_resolved net u (ok rs), ok rs, rw found_ refl, lem.0, found_, lem.1)

module _ (net : Network) (only : (h : Bytes) → IsIpAnswer (net.resolve h))
    (here : net.parse_ip (codes "127.0.0.1") ≡ some (ip4 127 0 0 1)) (cfg : EgressProxyConfig)
    (host : Bytes) (port : ℕ) where
  resolved-Connects :
      (P : ResolvedTcpAddress → Type 0) (u : UpstreamTarget)
      → ((r : ResolvedTcpAddress) → Suits u.allow_non_public_ip u.connect_port r → P r)
      → Connects net P u
  resolved-Connects P u suits =
      let (f, e, h) =
        resolve_tcp-Suits net only u.connect_host u.connect_port u.allow_non_public_ip in
      resolved_list-Connects net only P u f e h suits

  local-Connects :
      (p : ℕ)
      → FixturePort port p
      → cfg.enable_local_fixture_rewrite ≡ true
      → is_local_host host ≡ true
      → Connects net (Permitted cfg host port) (target (codes "127.0.0.1") p true)
  unfolding Connects
  local-Connects p q e h =
      let lem =
        connect_resolved_lem net (Permitted cfg host port) (target (codes "127.0.0.1") p true)
          (resolved net p (ip4 127 0 0 1) ∷ []) (inr (e, inr (h, q, refl)), tt) in
      (
        connect_resolved net (target (codes "127.0.0.1") p true)
            (ok (resolved net p (ip4 127 0 0 1) ∷ [])),
        ok (resolved net p (ip4 127 0 0 1) ∷ []),
        rw (resolve_tcp_literal net (codes "127.0.0.1") p (ip4 127 0 0 1) here) refl,
        lem.0,
        resolve_tcp_literal net (codes "127.0.0.1") p (ip4 127 0 0 1) here,
        lem.1,
      )

  target-Connects :
      Connects net (Permitted cfg host port) (rewrite_local_fixture_if_needed cfg host port)
  target-Connects = elim (rewrite-cases cfg host port) [
    | inl e ↦ subst (Connects net (Permitted cfg host port)) (sym e) (
        resolved-Connects (Permitted cfg host port) (target host port false)
          (λ r s. inl (ground arith, s.1)))
    | inr (inl (e, h, p, u)) ↦ subst (Connects net (Permitted cfg host port)) (sym u) (
        resolved-Connects (Permitted cfg host port) (target host port true)
          (λ r s. inr (e, inl (h, p, s.1))))
    | inr (inr (e, h, (p, q, u))) ↦
        subst (Connects net (Permitted cfg host port)) (sym u) (local-Connects p q e h)
  ]

  -- With a resolver that answers with IP addresses only, and 127.0.0.1 read as itself: the call
  -- returns. Every address that it tries is public-routable and at the port asked for, unless the
  -- rewriting of test hosts is on and the host is one of them, at the port that stands for the one
  -- asked for. It tries the addresses that `ResolveTcp` gives for the target, in order, up to the first
  -- that answers, which it takes; it fails only if none of them does, or with the error of `ResolveTcp`.
  pub connect_upstream-Permitted :
      let u = rewrite_local_fixture_if_needed cfg host port in
      (c : Connection net) × (f : Found net) × (connect_upstream net cfg host port ≡ returns c)
      × All (Permitted cfg host port) c.0
      × (resolve_tcp net u.connect_host u.connect_port u.allow_non_public_ip ≡ returns f)
      × TakesFound net f c.0 c.1
  unfolding connect_upstream Connects
  connect_upstream-Permitted = target-Connects
