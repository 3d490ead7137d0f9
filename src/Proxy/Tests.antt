-- ===== src/Proxy/Tests.antt =====
-- The proxy at concrete requests, addresses and interleavings.

use mathlib.Core.List.{append-nil}
use webshot.Base.{
  ℕ, ◌+◌, ◌-◌, ◌*◌, ◌==◌, leb, ◌≡◌, refl, sym, ap, Bool-cases, Bool, true, false, not, ◌&&◌,
  if◌then◌else◌, List, [], ◌∷◌, ◌++◌, Option, none, some, ok, take, drop, length, All, inl, inr,
  arith,
}
use webshot.Base.Bytes.{Bytes, codes, ◌=?◌}
use webshot.Base.Outcome.{returns}
use webshot.Base.Splitting.{cut}
use webshot.Proxy.{EgressProxyConfig}
use webshot.Proxy.Address.{ip4, ip6, is_public_routable, zeros}
use webshot.Proxy.Address.Blocks.{is_special, is_public_routable-is_special}
use webshot.Proxy.Upstream.{
  Found, resolve_tcp, rewrite_local_fixture_if_needed, addresses, Network, Connection,
  connect_upstream,
}
use webshot.Proxy.Upstream.Confined.{IsIpAnswer, Permitted, TakesFound, connect_upstream-Permitted}
use webshot.Proxy.Request.{
  TextLib, ParsedRequest, HttpRequestTarget, crlf, around, parse_header_part, parse_authority,
  should_forward_header, parse_header_block,
}
use webshot.Proxy.Request.Shape.{TrimLaws}
use webshot.Proxy.Forward.{make_forward_request, parse_http_request_target}
use webshot.Proxy.Forward.RoundTrip.{forwarded, parse_header_block-make_forward_request}
use webshot.Proxy.Budget.{claim, settle, System, Reach, start, later, claims, returned}
use webshot.Proxy.Budget.Quota.{IsQuota, Reach-IsQuota, Allowed, Reach-Allowed}
use webshot.Proxy.Client.{Action, Events, handle_client, forward_http_request_body}
use webshot.Proxy.Client.Guarded.{Guarded, handle_client-Guarded}
use webshot.Proxy.Client.Body.{concat, received_bytes, forward_http_request_body-take}

abbrev ltrim : Bytes → Bytes
ltrim [] = []
ltrim (c ∷ cs) = if c == b' ' then ltrim cs else c ∷ cs

ltrim_again : (v : Bytes) → ltrim (ltrim v) ≡ ltrim v
ltrim_again [] = refl
ltrim_again (c ∷ cs) = ground (arith, ltrim_again cs)

ltrim_part : (v : Bytes) → (a : Bytes) × (b : Bytes) × (v ≡ a ++ (ltrim v ++ b))
ltrim_part [] = ([], [], refl)
ltrim_part (c ∷ cs) = elim (Bool-cases (c == b' ')) [
  | inl e ↦ let (a, b, p) = ltrim_part cs in (c ∷ a, b, rw e (ap (◌∷◌ c) p))
  | inr e ↦ ([], [], rw e (ap (◌∷◌ c) (sym (append-nil cs))))
]

abbrev lower : ℕ → ℕ
lower c = if leb b'A' c && leb c b'Z' then c + 32 else c

abbrev prefix_of : Bytes → Bytes → Bool
prefix_of s [] = true
prefix_of [] (p ∷ ps) = false
prefix_of (c ∷ s) (p ∷ ps) = lower c == lower p && prefix_of s ps

abbrev digits : ℕ → Bytes → Option ℕ
digits n [] = some n
digits n (c ∷ cs) = if leb 48 c && leb c 57 then digits (n * 10 + (c - 48)) cs else none

abbrev lib : TextLib
lib = record {
  trim = ltrim;
  icase_starts_with = prefix_of;
  base64_decode = λ v. some v;
  parse_u16 = λ v. digits 0 v;
  parse_i64 = λ v. none;
  from_bytes = λ v. some v;
  to_string = λ n. (48 + n) ∷ [];
}

lib_laws : TrimLaws lib
lib_laws = record { again = ltrim_again; blank = λ v. refl; part = ltrim_part; close = refl }

abbrev net : Network
net = record {
  parse_ip = λ host. if host =? codes "127.0.0.1" then some (ip4 127 0 0 1) else none;
  resolve = λ host. addresses (some (ip4 10 0 0 1) ∷ some (ip4 93 184 216 34) ∷ []);
  connect = λ ip port. none;
  primary_address_string = λ ip. [];
  to_string = λ n. (48 + n) ∷ [];
}

abbrev cfg : EgressProxyConfig
cfg = record {
  run_id = codes "run";
  url_bytes_max = 100;
  down_bytes_max = 1000;
  require_auth = true;
  enable_local_fixture_rewrite = false;
  testsuite_loopback_ports = [];
}

abbrev header : Bytes
header =
    codes "GET http://ex.com:81/a HTTP/1.1"
    ++ (crlf
        ++ (codes "A: b" ++ (crlf ++ (codes "proxy-Authorization: Basic run:x" ++ (crlf ++ crlf)))))

abbrev request : ParsedRequest
request = record {
  method = codes "GET";
  target = codes "http://ex.com:81/a";
  version = codes "HTTP/1.1";
  headers =
      record { name = codes "A"; value = codes "b" }
      ∷ record { name = codes "proxy-Authorization"; value = codes "Basic run:x" }
      ∷ [];
  header_bytes = length header;
}

parse_header_block_test : parse_header_block lib header ≡ some request
unfolding parse_header_block around parse_header_part cut
parse_header_block_test = refl

abbrev target : HttpRequestTarget
target = record { host = codes "ex.com"; port = 81; path = codes "/a" }

parse_http_request_target_test : parse_http_request_target lib request ≡ ok target
unfolding parse_http_request_target parse_authority cut
parse_http_request_target_test = refl

parse_header_block-make_forward_request_example :
    parse_header_block lib (make_forward_request lib request (codes "/a"))
    ≡ some (record {
      method = codes "GET";
      target = codes "/a";
      version = codes "HTTP/1.1";
      headers = forwarded lib request.headers;
      header_bytes = length (make_forward_request lib request (codes "/a"));
    })
parse_header_block-make_forward_request_example =
    parse_header_block-make_forward_request lib lib_laws header request target
      parse_header_block_test parse_http_request_target_test

-- The proxy's own header is gone.
forwarded_test :
    forwarded lib request.headers
    ≡ record { name = codes "A"; value = codes "b" }
      ∷ record { name = codes "Connection"; value = codes "close" }
      ∷ []
unfolding should_forward_header
forwarded_test = refl

is_public_routable-is_special_example :
    is_public_routable (ip4 172 20 0 1) ≡ not (is_special (ip4 172 20 0 1))
is_public_routable-is_special_example = is_public_routable-is_special (ip4 172 20 0 1) (omega arith)

mapped_test : is_public_routable (ip6 (zeros 10 ++ 255 ∷ 255 ∷ 127 ∷ 0 ∷ 0 ∷ 1 ∷ [])) ≡ false
unfolding is_public_routable
mapped_test = refl

only_ips : (h : Bytes) → IsIpAnswer (net.resolve h)
only_ips h = (tt, (tt, tt))

connect_upstream-Permitted_example :
    let u = rewrite_local_fixture_if_needed cfg (codes "ex.com") 81 in
    (c : Connection net) × (f : Found net) × (connect_upstream net cfg (codes "ex.com") 81
      ≡ returns c)
    × All (Permitted cfg (codes "ex.com") 81) c.0
    × (resolve_tcp net u.connect_host u.connect_port u.allow_non_public_ip ≡ returns f)
    × TakesFound net f c.0 c.1
connect_upstream-Permitted_example =
    connect_upstream-Permitted net only_ips refl cfg (codes "ex.com") 81

-- The request comes in two pieces, and nothing of a body.
abbrev events : Events
events = record {
  stopped = false;
  stopped_later = false;
  pieces = some (take 20 header) ∷ some (drop 20 header) ∷ [];
  takes_head = true;
  takes_buffered = true;
  rounds = [];
}

handle_client-Guarded_example :
    (actions : List Action) × (handle_client lib net cfg events ≡ returns actions)
    × All (Guarded lib net cfg events.pieces) actions
handle_client-Guarded_example = handle_client-Guarded lib net cfg only_ips refl events

abbrev net_limit : ℕ → Bytes
net_limit n = codes "net_limit"

abbrev delivered : System net_limit 10
delivered = record {
  shared = record { down_bytes = 3; stopped = false; error = none; cancelled = false };
  pending = [];
  results = 3 ∷ [];
  lost = [];
}

delivered_reach : Reach net_limit 10 delivered
unfolding claim settle
delivered_reach =
    later
      (later start (
        claims 5 (record { down_bytes = 5; stopped = false; error = none; cancelled = false })
          (omega arith) refl))
      (returned [] [] 5 3 refl (omega arith))

Reach-IsQuota_example : IsQuota net_limit 10 delivered
Reach-IsQuota_example = Reach-IsQuota net_limit 10 delivered_reach

Reach-Allowed_example : Allowed net_limit 10 (3 ∷ [])
Reach-Allowed_example = Reach-Allowed net_limit 10 delivered_reach

-- Two bytes of the body came with the header, and one more is taken of what follows.
abbrev posting : Events
posting = record events {
  rounds = record { stopped = false; received = some (99 ∷ 100 ∷ []); taken = true } ∷ [];
}

forward_http_request_body-take_example :
    concat (forward_http_request_body (97 ∷ 98 ∷ []) 3 posting)
    ≡ take 3 ((97 ∷ 98 ∷ []) ++ received_bytes posting.rounds)
forward_http_request_body-take_example =
    forward_http_request_body-take (97 ∷ 98 ∷ []) 3 posting refl
      ((λ e. ground arith), refl, refl, (99 ∷ 100 ∷ [], refl, refl, omega arith, refl))
