-- ===== src/Proxy/Client.antt =====
-- One client of the proxy, from its first byte on: `HandleClient`, `HandleConnect`, `HandleHttp` and
-- `ForwardHttpRequestBody` of webshotd/src/crawler/egress_proxy.cpp.
pub mod Body
pub mod Guarded
use Prim.Native.Nat.{min}
use webshot.Base.{
  ℕ, ◌-◌, ◌==◌, ltb, Bool, true, false, not, ◌&&◌, if◌then◌else◌, List, [], ◌∷◌, ◌++◌, Option, none,
  some, take, drop, length, null, Expected, ok, err,
}
use webshot.Base.Bytes.{Bytes, codes, ◌=?◌}
use webshot.Base.Outcome.{Outcome, returns, aborts, ◌>>=◌}
use webshot.Proxy.{EgressProxyConfig}
use webshot.Proxy.Upstream.{Network, ResolvedTcpAddress, Connection, connect_upstream}
use webshot.Proxy.Request.{
  TextLib, ParsedRequest, Authority, HttpRequestTarget, crlf2, around, icase_equal,
  find_header_value, parse_header_block, parse_basic_auth_user, parse_authority,
}
use webshot.Proxy.Forward.{
  make_400_response, make_502_response, proxy_auth_required_response, connect_established_response,
  parse_http_request_target, parse_content_length, make_forward_request,
}

-- What one client's task does to the world, in order.
pub data Action : Type 0 where
  tries : List ResolvedTcpAddress → Action
  notes : Bytes → Action
  replies : Bytes → Action
  forwards : Bytes → Action
  relays : Action
  copies_back : Action
  closes : Action

-- One round of the loop over the body: whether the proxy was stopped, what came from the client (an
-- exception is `none`), and whether the server took it.
pub record Round : Type 0 where
  pub stopped : Bool
  pub received : Option Bytes
  pub taken : Bool

-- What else happens to a client: whether the proxy is stopped when its task starts and after the
-- answer to CONNECT, the pieces that it sends for its header (an exception is `none`), whether the
-- server takes the head of the request, and the part of the body that is at hand, and the rest of it.
pub record Events : Type 0 where
  pub stopped : Bool
  pub stopped_later : Bool
  pub pieces : List (Option Bytes)
  pub takes_head : Bool
  pub takes_buffered : Bool
  pub rounds : List Round

abbrev pub max_header_bytes : ℕ
max_header_bytes = 65536

abbrev pub io_buffer_bytes : ℕ
io_buffer_bytes = 16384

pub data Head : Type 0 where
  complete : Bytes → Head
  too_large : Head
  ended : Head

abbrev pub is_complete : Option (Bytes × Bytes) → Bool
is_complete none = false
is_complete (some found) = true

-- The loop that reads the header; a socket hands over at most a buffer at a time.
unfoldable pub read_head : Bytes → List (Option Bytes) → Head
read_head header [] =
    if is_complete (around crlf2 header)
    then complete header
    else if ltb max_header_bytes (length header)
    then too_large
    else ended
read_head header (none ∷ pieces) =
    if is_complete (around crlf2 header)
    then complete header
    else if ltb max_header_bytes (length header)
    then too_large
    else ended
read_head header (some piece ∷ pieces) =
    let received = take io_buffer_bytes piece in
    let more = read_head (header ++ received) pieces in
    if is_complete (around crlf2 header)
    then complete header
    else if ltb max_header_bytes (length header)
    then too_large
    else if null received
    then ended
    else more

-- What a round receives; nothing where the loop ends or breaks off.
unfoldable pub receive : ℕ → Option Bytes → Bytes
receive want none = []
receive want (some piece) = take want piece

unfoldable pub round_piece : ℕ → Round → Bytes
unfolding receive
round_piece remaining r =
    if remaining == 0
    then []
    else if r.stopped
    then []
    else receive (min remaining io_buffer_bytes) r.received

-- The `while` loop of `ForwardHttpRequestBody`: what the server is sent.
unfoldable pub forward_rounds : ℕ → List Round → List Bytes
forward_rounds remaining [] = []
forward_rounds remaining (r ∷ rounds) =
    let received = round_piece remaining r in
    let more = forward_rounds (remaining - length received) rounds in
    if null received then [] else received ∷ (if r.taken then more else [])

unfoldable pub forward_http_request_body : Bytes → ℕ → Events → List Bytes
unfolding forward_rounds
forward_http_request_body buffered_body remaining ev =
    let already = take (min remaining (length buffered_body)) buffered_body in
    let more = forward_rounds (remaining - length already) ev.rounds in
    if null already then more else already ∷ (if ev.takes_buffered then more else [])

abbrev pub sends : List Bytes → List Action → List Action
sends [] rest = rest
sends (b ∷ bs) rest = forwards b ∷ sends bs rest

module _ (lib : TextLib) (net : Network) (cfg : EgressProxyConfig) where
  abbrev pub send_400 : Bytes → List Action
  send_400 message = replies (make_400_response lib message) ∷ []

  abbrev pub send_502 : Bytes → List Action
  send_502 message = replies (make_502_response lib message) ∷ []

  unfoldable pub connected : Bool → Connection net → List Action
  connected stopped_later (tried, err e) = tries tried ∷ notes e ∷ send_502 e
  connected stopped_later (tried, ok s) =
      tries tried
      ∷ replies connect_established_response
      ∷ (if stopped_later then closes ∷ [] else relays ∷ closes ∷ [])

  unfoldable pub connect_to_host : Bool → ℕ → Option Bytes → Outcome (List Action)
  connect_to_host stopped_later port none = returns (send_400 (codes "invalid CONNECT target"))
  connect_to_host stopped_later port (some host) =
      connect_upstream net cfg host port >>= λ c. returns (connected stopped_later c)

  unfoldable pub connect_authority : Bool → Option Authority → Outcome (List Action)
  connect_authority stopped_later none = returns (send_400 (codes "invalid CONNECT target"))
  connect_authority stopped_later (some a) =
      connect_to_host stopped_later a.port (lib.from_bytes a.host)

  unfoldable pub handle_connect : Events → ParsedRequest → Outcome (List Action)
  handle_connect ev req = connect_authority ev.stopped_later (parse_authority lib req.target 0 true)

  -- From the `SendAll` of the request's head on, `body` being what follows if the server takes it.
  unfoldable pub after_head : Bool → List Bytes → List Action
  after_head false body =
      notes (codes "send upstream failed")
      ∷ (send_502 (codes "send upstream failed") ++ closes ∷ [])
  after_head true body = sends body (copies_back ∷ closes ∷ [])

  unfoldable pub exchange :
      Events → ParsedRequest → Bytes → Bytes → ℕ → Connection net → List Action
  unfolding after_head
  exchange ev req header path content_length (tried, err e) = tries tried ∷ notes e ∷ send_502 e
  exchange ev req header path content_length (tried, ok s) =
      tries tried
      ∷ forwards (make_forward_request lib req path)
      ∷ after_head ev.takes_head
          (forward_http_request_body (drop req.header_bytes header) content_length ev)

  abbrev pub content_length : Option Bytes → Expected ℕ Bytes
  content_length none = ok 0
  content_length (some header) = parse_content_length lib header

  unfoldable pub http_target :
      Events
      → ParsedRequest
      → Bytes
      → Expected HttpRequestTarget Bytes
      → Expected ℕ Bytes
      → Outcome (List Action)
  http_target ev req header (err e) length_ = returns (send_400 e)
  http_target ev req header (ok t) (err e) = returns (send_400 e)
  http_target ev req header (ok t) (ok n) =
      connect_upstream net cfg t.host t.port >>= λ c. returns (exchange ev req header t.path n c)

  unfoldable pub handle_http : Events → ParsedRequest → Bytes → Outcome (List Action)
  handle_http ev req header =
      http_target ev req header (parse_http_request_target lib req)
        (content_length (find_header_value lib req.headers (codes "content-length")))

  abbrev pub user_of : Option Bytes → Option (Bytes × Bytes)
  user_of none = none
  user_of (some auth) = parse_basic_auth_user lib auth

  abbrev pub is_run : Option (Bytes × Bytes) → Bool
  is_run none = false
  is_run (some user) = user.0 =? cfg.run_id

  unfoldable pub is_authorized : ParsedRequest → Bool
  is_authorized req =
      is_run (user_of (find_header_value lib req.headers (codes "proxy-authorization")))

  unfoldable pub handle_request : Events → Bytes → Option ParsedRequest → Outcome (List Action)
  handle_request ev header none = returns (send_400 (codes "invalid request"))
  handle_request ev header (some req) =
      if ltb cfg.url_bytes_max (length req.target)
      then returns (send_400 (codes "target too long"))
      else if cfg.require_auth && not (is_authorized req)
      then returns (replies proxy_auth_required_response ∷ [])
      else if icase_equal lib req.method (codes "CONNECT")
      then handle_connect ev req
      else handle_http ev req header

  unfoldable pub handle_head : Events → Head → Outcome (List Action)
  handle_head ev (complete header) = handle_request ev header (parse_header_block lib header)
  handle_head ev too_large = returns (send_400 (codes "header too large") ++ closes ∷ [])
  handle_head ev ended = returns []

  unfoldable pub handle_client : Events → Outcome (List Action)
  handle_client ev = if ev.stopped then returns [] else handle_head ev (read_head [] ev.pieces)
