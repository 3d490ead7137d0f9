-- ===== src/Proxy/Client/Guarded.antt =====
-- What a client may bring about: no connection without the right user, and none to a place that is
-- not permitted.
use webshot.Base.{
  ℕ, ◌≤◌, ◌≡◌, refl, ap, ◌∙◌, ltb, Bool, true, false, not, ◌&&◌, Bool-cases, if◌then◌else◌, List,
  [], ◌∷◌, Option, none, some, drop, length, All, Expected, ok, err, ◌⊎◌, inl, inr, arith,
}
use webshot.Base.Bytes.{Bytes, codes, =?_iff}
use webshot.Base.Outcome.{Outcome, returns}
use webshot.Proxy.{EgressProxyConfig}
use webshot.Proxy.Address.{ip4}
use webshot.Proxy.Upstream.{Network, Connection}
use webshot.Proxy.Upstream.Confined.{IsIpAnswer, Permitted, connect_upstream-Permitted}
use webshot.Proxy.Request.{
  TextLib, ParsedRequest, Authority, HttpRequestTarget, icase_equal, find_header_value,
  parse_header_block, parse_basic_auth_user, parse_authority,
}
use webshot.Proxy.Forward.{
  parse_http_request_target, make_400_response, proxy_auth_required_response,
}
use webshot.Proxy.Client.{
  Action, tries, replies, forwards, copies_back, closes, Events, Head, complete, too_large, ended,
  read_head, forward_http_request_body, sends, connected, connect_to_host, connect_authority,
  handle_connect, after_head, exchange, content_length, http_target, handle_http, user_of, is_run,
  is_authorized, handle_request, handle_head, handle_client,
}

module _ (lib : TextLib) (net : Network) (cfg : EgressProxyConfig) where
  -- The request names the run as its user.
  abbrev pub Authorized : ParsedRequest → Type 0
  Authorized req =
      (auth : Bytes) × (password : Bytes) × (find_header_value lib req.headers
          (codes "proxy-authorization")
        ≡ some auth)
      × (parse_basic_auth_user lib auth ≡ some (cfg.run_id, password))

  -- The request was parsed from the header that the pieces make up.
  abbrev pub Admitted : List (Option Bytes) → ParsedRequest → Type 0
  Admitted pieces req =
      (header : Bytes) × (read_head [] pieces ≡ complete header)
      × (parse_header_block lib header ≡ some req)
      × (length req.target ≤ cfg.url_bytes_max)
      × ((cfg.require_auth ≡ false) ⊎ Authorized req)

  -- The host and the port that a request asks for, by CONNECT or by its target.
  abbrev pub AsksFor : ParsedRequest → Bytes → ℕ → Type 0
  AsksFor req host port =
      ((a : Authority) × (parse_authority lib req.target 0 true ≡ some a)
        × (lib.from_bytes a.host ≡ some host)
        × (port ≡ a.port))
      ⊎ ((t : HttpRequestTarget) × (parse_http_request_target lib req ≡ ok t)
          × (host ≡ t.host)
          × (port ≡ t.port))

  abbrev pub Guarded : List (Option Bytes) → Action → Type 0
  Guarded pieces (tries rs) =
      (req : ParsedRequest) × Admitted pieces req
      × ((host : Bytes) × (port : ℕ) × AsksFor req host port × All (Permitted cfg host port) rs)
  Guarded pieces (forwards b) = (req : ParsedRequest) × Admitted pieces req
  Guarded pieces _ = Unit

  is_authorized-Authorized :
      (req : ParsedRequest) → is_authorized lib net cfg req ≡ true → Authorized req
  unfolding is_authorized
  is_authorized-Authorized req h =
      go (find_header_value lib req.headers (codes "proxy-authorization")) refl h
    where
      go :
          (found : Option Bytes)
          → find_header_value lib req.headers (codes "proxy-authorization") ≡ found
          → is_run lib net cfg (user_of lib net cfg found) ≡ true
          → Authorized req
      go none e t = cc
      go (some auth) e t = user (parse_basic_auth_user lib auth) refl t
        where
          user :
              (u : Option (Bytes × Bytes))
              → parse_basic_auth_user lib auth ≡ u
              → is_run lib net cfg u ≡ true
              → Authorized req
          user none p t = cc
          user (some (name, password)) p t = (
            auth,
            password,
            e,
            p ∙ ap (λ (n : Bytes). some (n, password)) ((=?_iff name cfg.run_id).0 t),
          )

  -- The call returns actions that are all guarded.
  Guards : List (Option Bytes) → Outcome (List Action) → Type 0
  Guards pieces o = (actions : List Action) × (o ≡ returns actions) × All (Guarded pieces) actions

  reply_Guards :
      (pieces : List (Option Bytes)) (response : Bytes)
      → Guards pieces (returns (replies response ∷ []))
  unfolding Guards
  reply_Guards pieces response = (replies response ∷ [], refl, (tt, tt))

  sends-Guarded :
      (pieces : List (Option Bytes)) (bs : List Bytes) (rest : List Action)
      → (req : ParsedRequest) × Admitted pieces req
      → All (Guarded pieces) rest
      → All (Guarded pieces) (sends bs rest)
  sends-Guarded pieces [] rest a h = h
  sends-Guarded pieces (b ∷ bs) rest a h = (a, sends-Guarded pieces bs rest a h)

  module _ (only : (h : Bytes) → IsIpAnswer (net.resolve h))
      (here : net.parse_ip (codes "127.0.0.1") ≡ some (ip4 127 0 0 1))
      (pieces : List (Option Bytes)) (header : Bytes) (req : ParsedRequest)
      (admitted : Admitted pieces req) where
    connected-Guards :
        (later_ : Bool) (host : Bytes) (port : ℕ) (c : Connection net)
        → AsksFor req host port
        → All (Permitted cfg host port) c.0
        → All (Guarded pieces) (connected lib net cfg later_ c)
    unfolding connected
    connected-Guards later_ host port (tried, err e) asks p =
        ((req, admitted, (host, port, asks, p)), (tt, (tt, tt)))
    connected-Guards true host port (tried, ok s) asks p =
        ((req, admitted, (host, port, asks, p)), (tt, (tt, tt)))
    connected-Guards false host port (tried, ok s) asks p =
        ((req, admitted, (host, port, asks, p)), (tt, (tt, (tt, tt))))

    connect_to_host-Guards :
        (later_ : Bool) (a : Authority) (o : Option Bytes)
        → parse_authority lib req.target 0 true ≡ some a
        → lib.from_bytes a.host ≡ o
        → Guards pieces (connect_to_host lib net cfg later_ a.port o)
    unfolding connect_to_host Guards
    connect_to_host-Guards later_ a none e f =
        reply_Guards pieces (make_400_response lib (codes "invalid CONNECT target"))
    connect_to_host-Guards later_ a (some host) e f =
        let (c, _, g, p, _, _) = connect_upstream-Permitted net only here cfg host a.port in
        (
          connected lib net cfg later_ c,
          rw g refl,
          connected-Guards later_ host a.port c (inl (a, e, f, refl)) p,
        )

    connect_authority-Guards :
        (later_ : Bool) (o : Option Authority)
        → parse_authority lib req.target 0 true ≡ o
        → Guards pieces (connect_authority lib net cfg later_ o)
    unfolding connect_authority
    connect_authority-Guards later_ none e =
        reply_Guards pieces (make_400_response lib (codes "invalid CONNECT target"))
    connect_authority-Guards later_ (some a) e =
        connect_to_host-Guards later_ a (lib.from_bytes a.host) e refl

    after_head-Guards :
        (takes_head : Bool) (body : List Bytes)
        → All (Guarded pieces) (after_head lib net cfg takes_head body)
    unfolding after_head
    after_head-Guards false body = (tt, (tt, (tt, tt)))
    after_head-Guards true body =
        sends-Guarded pieces body (copies_back ∷ closes ∷ []) (req, admitted) (tt, (tt, tt))

    exchange-Guards :
        (ev : Events) (t : HttpRequestTarget) (n : ℕ) (c : Connection net)
        → parse_http_request_target lib req ≡ ok t
        → All (Permitted cfg t.host t.port) c.0
        → All (Guarded pieces) (exchange lib net cfg ev req header t.path n c)
    unfolding exchange
    exchange-Guards ev t n (tried, err e) h p =
        ((req, admitted, (t.host, t.port, inr (t, h, refl, refl), p)), (tt, (tt, tt)))
    exchange-Guards ev t n (tried, ok s) h p = (
      (req, admitted, (t.host, t.port, inr (t, h, refl, refl), p)),
      (
        (req, admitted),
        after_head-Guards ev.takes_head
            (forward_http_request_body (drop req.header_bytes header) n ev),
      ),
    )

    http_target-Guards :
        (ev : Events) (t : Expected HttpRequestTarget Bytes) (n : Expected ℕ Bytes)
        → parse_http_request_target lib req ≡ t
        → Guards pieces (http_target lib net cfg ev req header t n)
    unfolding http_target Guards
    http_target-Guards ev (err e) n h = reply_Guards pieces (make_400_response lib e)
    http_target-Guards ev (ok t) (err e) h = reply_Guards pieces (make_400_response lib e)
    http_target-Guards ev (ok t) (ok n) h =
        let (c, _, g, p, _, _) = connect_upstream-Permitted net only here cfg t.host t.port in
        (exchange lib net cfg ev req header t.path n c, rw g refl, exchange-Guards ev t n c h p)

  module _ (only : (h : Bytes) → IsIpAnswer (net.resolve h))
      (here : net.parse_ip (codes "127.0.0.1") ≡ some (ip4 127 0 0 1)) where
    request-Guards :
        (ev : Events) (header : Bytes) (req : ParsedRequest)
        → Admitted ev.pieces req
        → Guards ev.pieces (
            if icase_equal lib req.method (codes "CONNECT")
            then handle_connect lib net cfg ev req
            else handle_http lib net cfg ev req header)
    unfolding handle_connect handle_http
    request-Guards ev header req a =
        elim (Bool-cases (icase_equal lib req.method (codes "CONNECT"))) [
          | inl c ↦ rw c (
              connect_authority-Guards only here ev.pieces header req a ev.stopped_later
                (parse_authority lib req.target 0 true) refl)
          | inr c ↦ rw c (
              http_target-Guards only here ev.pieces header req a ev
                (parse_http_request_target lib req)
                (content_length lib net cfg
                  (find_header_value lib req.headers (codes "content-length")))
                refl)
        ]

    admitted_user :
        (req : ParsedRequest)
        → (cfg.require_auth && not (is_authorized lib net cfg req)) ≡ false
        → (cfg.require_auth ≡ false) ⊎ Authorized req
    admitted_user req h = elim (Bool-cases (is_authorized lib net cfg req)) [
      | inl k ↦ inr (is_authorized-Authorized req k)
      | inr k ↦ inl (ground arith)
    ]

    handle_request-Guards :
        (ev : Events) (header : Bytes) (o : Option ParsedRequest)
        → read_head [] ev.pieces ≡ complete header
        → parse_header_block lib header ≡ o
        → Guards ev.pieces (handle_request lib net cfg ev header o)
    unfolding handle_request
    handle_request-Guards ev header none r e =
        reply_Guards ev.pieces (make_400_response lib (codes "invalid request"))
    handle_request-Guards ev header (some req) r e =
        elim (Bool-cases (ltb cfg.url_bytes_max (length req.target))) [
          | inl l ↦ rw l (reply_Guards ev.pieces (make_400_response lib (codes "target too long")))
          | inr l ↦ elim (Bool-cases (cfg.require_auth && not (is_authorized lib net cfg req))) [
            | inl k ↦ rw (l, k) (reply_Guards ev.pieces proxy_auth_required_response)
            | inr k ↦
                rw (l, k)
                  (request-Guards ev header req (header, r, e, ground arith, admitted_user req k))
          ]
        ]

    handle_head-Guards :
        (ev : Events) (head : Head)
        → read_head [] ev.pieces ≡ head
        → Guards ev.pieces (handle_head lib net cfg ev head)
    unfolding handle_head Guards
    handle_head-Guards ev (complete header) e =
        handle_request-Guards ev header (parse_header_block lib header) e refl
    handle_head-Guards ev too_large e = (
      replies (make_400_response lib (codes "header too large")) ∷ closes ∷ [],
      refl,
      (tt, (tt, tt)),
    )
    handle_head-Guards ev ended e = ([], refl, tt)

    -- With a resolver that answers with IP addresses only, and 127.0.0.1 read as itself: the task of
    -- a client returns. Each of its connections and all that it sends to a server belong to a request
    -- that was parsed from the header read, whose target is not too long, and which names the run as
    -- its user where that is required; and the addresses tried are those permitted for the host and
    -- the port that it asks for.
    pub handle_client-Guarded :
        (ev : Events)
        → (actions : List Action) × (handle_client lib net cfg ev ≡ returns actions)
          × All (Guarded ev.pieces) actions
    unfolding handle_client Guards
    handle_client-Guarded ev = elim (Bool-cases ev.stopped) [
      | inl s ↦ ([], ground arith, tt)
      | inr s ↦
          let (actions, e, h) = handle_head-Guards ev (read_head [] ev.pieces) refl in
          (actions, ground arith, h)
    ]
