-- ===== src/Runner/Interception.antt =====
-- How the crawler answers the requests of a page that Chromium holds back for it, and the events of the
-- page (`CaptureSession` of webshotd/src/crawler/runner.cpp).
pub mod Guarded
pub mod Tests
use webshot.Base.{
  ℕ, Bool, true, false, not, ◌&&◌, ◌||◌, if◌then◌else◌, List, [], ◌∷◌, ◌++◌, length, Option, none,
  some, Expected, ok, err, err_as, ◌>>=◌,
}
use webshot.Base.Bytes.{Bytes, codes, ◌=?◌, starts_with}
use webshot.Base.Outcome
use webshot.Base.Outcome.{Outcome, returns, aborts}
use webshot.Prefix.{make_prefix_key}
use webshot.Policy.{
  Table, AccessPolicyMode, regular, allowlist_only, AccessDecision, AccessDecisionReason, non_https,
  access_decision_message, evaluate_prefix,
}
use webshot.Links.{LinkLib, LinkErrorCode, input_too_long, normalized_href_too_long, link_from_url}
use webshot.Runner.Urls.{UrlLib, is_http_or_https}
use webshot.Runner.State.{TrackerData, CdpEvent, fail_with}
use webshot.Runner.Tracker.{handle_event}

pub record Config : Type 0 where
  pub url_bytes_max : ℕ
  pub https_only : Bool
  pub allowlist_only : Bool

-- The commands with which a held request is answered.
pub data Command : Type 0 where
  continue_request : Bytes → Command
  fulfill_request : Bytes → ℕ → List (Bytes × Bytes) → Bytes → Bytes → Command
  continue_with_auth : Bytes → Bytes → Option (Bytes × Bytes) → Command

-- The parameters of a held request (its id and its URL), and of a demand to log in (its id, and where
-- it comes from).
pub record RequestPaused : Type 0 where
  pub request_id : Bytes
  pub url : Bytes

pub record AuthRequired : Type 0 where
  pub request_id : Bytes
  pub source : Option Bytes

pub data SessionEvent : Type 0 where
  auth_required : Expected AuthRequired Bytes → SessionEvent
  request_paused : Expected RequestPaused Bytes → SessionEvent
  page_event : CdpEvent → SessionEvent

-- What the session has noted, and the commands that it has sent, in order.
pub record Session : Type 0 where
  pub interception_error : Option Bytes
  pub tracker : Option TrackerData
  pub sent : List Command

unfoldable pub note_interception_error : Bytes → Session → Session
note_interception_error reason s = elim s.interception_error [
  | some e ↦ s
  | none ↦ record s {
    interception_error = some reason;
    tracker = elim s.tracker [ none ↦ none | some d ↦ some (fail_with reason d) ];
  }
]

-- `CurrentWaitError`.
unfoldable pub current_wait_error : Session → Option Bytes
current_wait_error s = elim s.interception_error [
  | some e ↦ some e
  | none ↦ elim s.tracker [ none ↦ none | some d ↦ d.main_request_error ]
]

abbrev pub mode_of : Config → AccessPolicyMode
mode_of config = if config.allowlist_only then allowlist_only else regular

abbrev pub link_error_text : Bytes → LinkErrorCode → Bytes
link_error_text href input_too_long = codes "url too long"
link_error_text href normalized_href_too_long = codes "url too long"
link_error_text href _ = codes "failed to normalize intercepted request url " ++ href

abbrev pub map_err {ℓ κ μ} :
    {A : Type ℓ} {E : Type κ} {F : Type μ} → (E → F) → Expected A E → Expected A F
map_err f (ok a) = ok a
map_err f (err e) = err (f e)

-- The URLs that a page may ask for. The two parsers are of one URL type.
module _ {Url : Type 0} (lib : UrlLib Url) where
  abbrev pub is_ws : Url → Bool
  is_ws u = starts_with (codes "ws://") (lib.href u)

  abbrev pub is_wss : Url → Bool
  is_wss u = starts_with (codes "wss://") (lib.href u)

  abbrev pub policed : Option Url → Option Url
  policed none = none
  policed (some u) = if is_http_or_https lib u || is_ws u || is_wss u then some u else none

  unfoldable pub access_policy_url_from_text : Bytes → Option Url
  access_policy_url_from_text text = policed (lib.from_text text)

  abbrev pub is_plain : Url → Bool
  is_plain u = lib.is_http u || is_ws u

  -- The URL that stands for it on the web.
  abbrev pub web_url : LinkLib Url → Url → Url
  web_url links u =
      if is_ws u
      then links.set_protocol u (codes "http")
      else if is_wss u
      then links.set_protocol u (codes "https")
      else u

  unfoldable pub link_from_interception_url : LinkLib Url → Config → Url → Expected Url Bytes
  link_from_interception_url links config u =
      map_err (link_error_text (lib.href u))
        (link_from_url links (web_url links u) config.url_bytes_max)

abbrev pub link_key : {Url : Type 0} → LinkLib Url → Url → Bytes
link_key links link = make_prefix_key (links.hostname link) (links.pathname link)

-- The tables are those that the queries meet.
module _ {Url : Type 0} (lib : UrlLib Url) (links : LinkLib Url) (to_hex : Bytes → Bytes)
    (config : Config) (allowlist denylist : Table) where
  unfoldable pub evaluate_access_policy : Url → Expected AccessDecision Bytes
  evaluate_access_policy u =
      if config.https_only && is_plain lib u
      then ok (record { allowed = false; reason = non_https })
      else link_from_interception_url lib links config u >>= λ link.
          err_as (evaluate_prefix to_hex allowlist denylist (link_key links link) (mode_of config))
            (codes "access policy check failed during fetch interception")

-- How a held request is answered: `format` prints a number, `base64_encode` is userver's. `send`
-- is the answer of Chromium to a command, the text of an error where it fails.
pub record Replies : Type 0 where
  pub format : ℕ → Bytes
  pub base64_encode : Bytes → Bytes
  pub send : Command → Option Bytes

unfoldable pub make_blocked_fetch_headers : (ℕ → Bytes) → ℕ → List (Bytes × Bytes)
make_blocked_fetch_headers format body_bytes =
    (codes "Content-Type", codes "text/plain; charset=utf-8")
    ∷ (codes "Content-Length", format body_bytes)
    ∷ (codes "Cache-Control", codes "no-store")
    ∷ []

module _ (replies : Replies) where
  -- `SendVoid`, and the error that is noted where it fails.
  unfoldable pub send_or_note : Command → Session → Session
  send_or_note command s =
      let s' = record s { sent = s.sent ++ command ∷ [] } in
      elim (replies.send command) [ none ↦ s' | some why ↦ note_interception_error why s' ]

  unfoldable pub blocked : Bytes → AccessDecisionReason → Command
  blocked id reason =
      let body = access_decision_message reason ++ 10 ∷ [] in
      fulfill_request id 403 (make_blocked_fetch_headers replies.format (length body))
        (replies.base64_encode body) (codes "Forbidden")

  unfoldable pub answer_decision : Bytes → Expected AccessDecision Bytes → Session → Session
  answer_decision id (err why) s = note_interception_error why s
  answer_decision id (ok decision) s =
      if decision.allowed
      then send_or_note (continue_request id) s
      else send_or_note (blocked id decision.reason) s

  abbrev pub is_proxy_challenge : Option Bytes → Bool
  is_proxy_challenge none = true
  is_proxy_challenge (some source) = source =? codes "Proxy"

  unfoldable pub handle_fetch_auth_required :
      Bytes → Expected AuthRequired Bytes → Session → Session
  handle_fetch_auth_required run_id (err why) s = note_interception_error why s
  handle_fetch_auth_required run_id (ok auth) s =
      send_or_note
        (if is_proxy_challenge auth.source
          then continue_with_auth auth.request_id (codes "ProvideCredentials")
              (some (run_id, codes "x"))
          else continue_with_auth auth.request_id (codes "Default") none)
        s

module _ {Url : Type 0} (lib : UrlLib Url) (links : LinkLib Url) (to_hex : Bytes → Bytes)
    (replies : Replies) (config : Config) (allowlist denylist : Table) where
  abbrev pub answer_url : Bytes → Option Url → Session → Session
  answer_url id none s = send_or_note replies (continue_request id) s
  answer_url id (some u) s =
      answer_decision replies id
        (evaluate_access_policy lib links to_hex config allowlist denylist u) s

  abbrev pub answer_text : Bytes → Option Bytes → Session → Session
  answer_text id none s =
      note_interception_error (codes "Fetch.requestPaused contained invalid request url") s
  answer_text id (some text) s = answer_url id (access_policy_url_from_text lib text) s

  unfoldable pub handle_fetch_request_paused : Expected RequestPaused Bytes → Session → Session
  handle_fetch_request_paused (err why) s = note_interception_error why s
  handle_fetch_request_paused (ok paused) s =
      answer_text paused.request_id (lib.from_bytes paused.url) s

  abbrev pub tracked : Session → Option TrackerData → CdpEvent → Outcome Session
  tracked s none e = returns s
  tracked s (some d) e =
      Outcome.◌>>=◌ (handle_event lib e d) (λ d'. returns (record s { tracker = some d' }))

  unfoldable pub handle_session_event : Bytes → SessionEvent → Session → Outcome Session
  handle_session_event run_id (auth_required a) s =
      returns (handle_fetch_auth_required replies run_id a s)
  handle_session_event run_id (request_paused p) s = returns (handle_fetch_request_paused p s)
  handle_session_event run_id (page_event e) s = tracked s s.tracker e
