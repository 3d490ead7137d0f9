-- ===== src/Proxy/Upstream.antt =====
-- How the proxy finds and connects to a server: `RewriteLocalFixtureIfNeeded`, `ResolveTcp` and
-- `ConnectUpstream` of webshotd/src/crawler/egress_proxy.cpp.
pub mod Rewriting
pub mod Confined
use webshot.Base.{
  ℕ, ◌==◌, Bool, true, false, not, ◌&&◌, ◌||◌, if◌then◌else◌, List, [], ◌∷◌, ◌++◌, map, Option,
  none, some, any, length, null, Expected, ok, err,
}
use webshot.Base.Bytes.{Bytes, codes, ◌=?◌}
use webshot.Base.Outcome.{Outcome, returns, aborts, ◌>>=◌}
use webshot.Proxy.{EgressProxyConfig}
use webshot.Proxy.Address.{Ip, ip4, ip6, is_public_routable}

-- What the resolver says of a name: its exception, or addresses, each an IP or of another family.
pub data Answer : Type 0 where
  failed : Answer
  addresses : List (Option Ip) → Answer

-- What the network and the libraries do for one request; `connect` is the error of a connection.
pub record Network : Type 0 where
  pub parse_ip : Bytes → Option Ip
  pub resolve : Bytes → Answer
  pub connect : Ip → ℕ → Option Bytes
  pub primary_address_string : Ip → Bytes
  pub to_string : ℕ → Bytes

pub record UpstreamTarget : Type 0 where
  pub connect_host : Bytes
  pub connect_port : ℕ
  pub allow_non_public_ip : Bool

pub record ResolvedTcpAddress : Type 0 where
  pub ip : Ip
  pub port : ℕ
  pub label : Bytes

abbrev pub local_fixture_hosts : List Bytes
local_fixture_hosts =
    codes "test-target" ∷ codes "asset.test-target" ∷ codes "untrusted.test-target" ∷ []

abbrev pub testsuite_loopback_hosts : List Bytes
testsuite_loopback_hosts = codes "127.0.0.1" ∷ codes "localhost" ∷ codes "::1" ∷ []

abbrev pub target : Bytes → ℕ → Bool → UpstreamTarget
target host port allow = record {
  connect_host = host;
  connect_port = port;
  allow_non_public_ip = allow;
}

unfoldable pub is_local_host : Bytes → Bool
is_local_host host = any (λ h. h =? host) local_fixture_hosts

unfoldable pub is_testsuite_loopback_host : Bytes → Bool
is_testsuite_loopback_host host = any (λ h. h =? host) testsuite_loopback_hosts

unfoldable pub is_testsuite_loopback_port : EgressProxyConfig → ℕ → Bool
is_testsuite_loopback_port cfg port =
    port == 8080 || (port == 8333 || any (λ p. p == port) cfg.testsuite_loopback_ports)

-- The ports of a local host.
unfoldable pub rewrite_port : Bytes → ℕ → UpstreamTarget
rewrite_port host port =
    if port == 80
    then target (codes "127.0.0.1") 18080 true
    else if port == 443
    then target (codes "127.0.0.1") 18443 true
    else if port == 18080 || port == 18443
    then target (codes "127.0.0.1") port true
    else target host port false

unfoldable pub rewrite_local_fixture_if_needed : EgressProxyConfig → Bytes → ℕ → UpstreamTarget
unfolding rewrite_port is_local_host is_testsuite_loopback_host is_testsuite_loopback_port
rewrite_local_fixture_if_needed cfg host port =
    if not cfg.enable_local_fixture_rewrite
    then target host port false
    else if is_testsuite_loopback_host host && is_testsuite_loopback_port cfg port
    then target host port true
    else if not (is_local_host host)
    then target host port false
    else rewrite_port host port

module _ (net : Network) where
  unfoldable pub describe_sockaddr : Ip → ℕ → Bytes
  describe_sockaddr (ip4 a b c d) port =
      net.primary_address_string (ip4 a b c d) ++ (codes ":" ++ net.to_string port)
  describe_sockaddr (ip6 v) port =
      codes "[" ++ (net.primary_address_string (ip6 v) ++ (codes "]:" ++ net.to_string port))

  abbrev pub resolved : ℕ → Ip → ResolvedTcpAddress
  resolved port ip = record { ip = ip; port = port; label = describe_sockaddr ip port }

  -- The loop over the resolver's addresses.
  unfoldable pub filter_addresses : Bool → ℕ → List (Option Ip) → Outcome (List ResolvedTcpAddress)
  filter_addresses allow port [] = returns []
  filter_addresses allow port (none ∷ others) =
      aborts (codes "dns resolver returned non-IP address")
  filter_addresses allow port (some ip ∷ others) = filter_addresses allow port others >>= λ rest.
      returns (if not allow && not (is_public_routable ip) then rest else resolved port ip ∷ rest)

  abbrev pub Found : Type 0
  Found = Expected (List ResolvedTcpAddress) Bytes

  unfoldable pub check_resolved : Bytes → List ResolvedTcpAddress → Found
  check_resolved host [] =
      err (codes "dns resolve returned no public-routable addresses for " ++ host)
  check_resolved host (r ∷ rs) = ok (r ∷ rs)

  unfoldable pub resolve_name : Bytes → ℕ → Bool → Answer → Outcome Found
  unfolding check_resolved filter_addresses
  resolve_name host port allow failed = returns (err (codes "dns resolve failed for " ++ host))
  resolve_name host port allow (addresses []) =
      returns (err (codes "dns resolve returned no addresses for " ++ host))
  resolve_name host port allow (addresses (a ∷ others)) =
      filter_addresses allow port (a ∷ others) >>= λ rs. returns (check_resolved host rs)

  unfoldable pub resolve_parsed : Bytes → ℕ → Bool → Option Ip → Outcome Found
  unfolding resolve_name describe_sockaddr
  resolve_parsed host port allow none = resolve_name host port allow (net.resolve host)
  resolve_parsed host port allow (some ip) =
      if not allow && not (is_public_routable ip)
      then returns (err (codes "ip address not public-routable for " ++ host))
      else returns (ok (resolved port ip ∷ []))

  unfoldable pub resolve_tcp : Bytes → ℕ → Bool → Outcome Found
  unfolding resolve_parsed
  resolve_tcp host port allow = resolve_parsed host port allow (net.parse_ip host)

  -- The address connected to, or what went wrong at each.
  abbrev pub Connected : Type 0
  Connected = Expected ResolvedTcpAddress (List Bytes)

  abbrev pub add_error : Bytes → Connected → Connected
  add_error e (ok s) = ok s
  add_error e (err errors) = err (e ∷ errors)

  -- The addresses tried in order, and how it ended, after the first one answered.
  abbrev pub attempt :
      ResolvedTcpAddress
      → Option Bytes
      → List ResolvedTcpAddress × Connected
      → List ResolvedTcpAddress × Connected
  attempt addr none later = (addr ∷ [], ok addr)
  attempt addr (some what) later =
      (addr ∷ later.0, add_error (addr.label ++ (codes " (" ++ (what ++ codes ")"))) later.1)

  -- The loop over `addrs`.
  unfoldable pub try_addresses : List ResolvedTcpAddress → List ResolvedTcpAddress × Connected
  try_addresses [] = ([], err [])
  try_addresses (addr ∷ addrs) = attempt addr (net.connect addr.ip addr.port) (try_addresses addrs)

  -- The loop over `errors`.
  unfoldable pub join_errors : Bytes → List Bytes → Bytes
  join_errors details [] = details
  join_errors details (cur ∷ errors) =
      join_errors ((if null details then details else details ++ codes "; ") ++ cur) errors

  unfoldable pub connect_failed : UpstreamTarget → List Bytes → Bytes
  unfolding join_errors
  connect_failed u errors =
      codes "connect upstream failed for "
      ++ (u.connect_host
          ++ (codes ":"
              ++ (net.to_string u.connect_port
                  ++ (codes " after "
                      ++ (net.to_string (length errors)
                          ++ (codes " attempt(s): " ++ join_errors [] errors))))))

  abbrev pub reported : UpstreamTarget → Connected → Expected ResolvedTcpAddress Bytes
  reported u (ok s) = ok s
  reported u (err errors) = err (connect_failed u errors)

  -- The addresses tried, and the socket or the error.
  abbrev pub Connection : Type 0
  Connection = List ResolvedTcpAddress × Expected ResolvedTcpAddress Bytes

  unfoldable pub connect_resolved : UpstreamTarget → Found → Connection
  unfolding try_addresses connect_failed
  connect_resolved u (err e) = ([], err e)
  connect_resolved u (ok addrs) =
      let (tried, connected) = try_addresses addrs in (tried, reported u connected)

  unfoldable pub connect_upstream : EgressProxyConfig → Bytes → ℕ → Outcome Connection
  unfolding rewrite_local_fixture_if_needed resolve_tcp connect_resolved
  connect_upstream cfg host port =
      let u = rewrite_local_fixture_if_needed cfg host port in
      resolve_tcp u.connect_host u.connect_port u.allow_non_public_ip >>= λ addrs.
      returns (connect_resolved u addrs)
