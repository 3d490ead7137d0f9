-- ===== src/Runner/Requests.antt =====
-- How `PageTracker` of webshotd/src/crawler/runner.cpp takes the requests of a page, those of the main
-- document among them, and their redirects.
use webshot.Base.{
  ℕ, ◌+◌, ◌==◌, Bool, true, false, not, ◌&&◌, ◌||◌, if◌then◌else◌, List, [], ◌∷◌, ◌++◌, last,
  length, Option, none, some,
}
use webshot.Base.Bytes.{Bytes, codes, ◌=?◌, starts_with}
use webshot.Base.Outcome.{Outcome, returns, aborts, ◌>>=◌}
use webshot.Crawl.Fallback.{ℤ}
use webshot.Artifacts.{CapturedMainDocumentRedirect}
use webshot.Runner.Urls.{
  UrlLib, CdpHeaders, canonicalize_captured_url, normalize_headers_for_capture,
  resolve_redirect_target_url,
}
use webshot.Runner.State.{
  TrackedRequest, MainResponse, TrackerData, NetworkResponse, RequestWillBeSent, is, find_active,
  erase_active, put_active, insert_inflight, response_of, is_some, or_value, or_else, fail_with,
}

abbrev pub main_document_redirect : MainResponse → CapturedMainDocumentRedirect
main_document_redirect r = record {
  redirect_url = r.request_url;
  status_code = r.status_code;
  status_message = r.status_message;
  headers = r.headers;
  timestamp = r.timestamp;
}

-- The last redirect that is recorded is to the same URL with the same status.
abbrev pub is_repeated : (ℤ → ℤ → Bool) → Option CapturedMainDocumentRedirect → MainResponse → Bool
is_repeated eq none r = false
is_repeated eq (some p) r = p.redirect_url =? r.request_url && eq p.status_code r.status_code

abbrev pub eq_int : ℤ → ℤ → Bool
eq_int (ℤ.pos a) (ℤ.pos b) = a == b
eq_int (ℤ.negsuc a) (ℤ.negsuc b) = a == b
eq_int _ _ = false

unfoldable pub record_main_document_redirect :
    Option MainResponse → TrackerData → Outcome TrackerData
record_main_document_redirect none d =
    aborts (codes "main redirect request missing response fields")
record_main_document_redirect (some r) d = returns (
    if is_repeated eq_int (last d.main_document_redirects) r then d else record d {
      main_document_redirects = d.main_document_redirects ++ main_document_redirect r ∷ [];
    })

unfoldable pub record_resource_redirect :
    TrackedRequest → Option MainResponse → TrackerData → Outcome TrackerData
record_resource_redirect request none d =
    aborts (codes "resource redirect request missing response fields")
record_resource_redirect request (some r) d = returns (record d {
  redirected_resources =
      d.redirected_resources
      ++ record {
        resource_url = r.request_url;
        method = request.method;
        resource_type = request.resource_type;
        status_code = r.status_code;
        status_message = r.status_message;
        headers = r.headers;
        body = [];
        timestamp = r.timestamp;
      }
        ∷ [];
})

abbrev pub forget_main_request : Bytes → TrackerData → TrackerData
forget_main_request id d =
    if is d.main_request_id id then record d { main_request_id = none } else d

-- `MatchesTrackedMainLoader`, where the tracker has a loader id.
abbrev pub matches_loader : Bytes → Option Bytes → Bool
matches_loader main_loader_id loader_id = is loader_id main_loader_id

abbrev pub both : Option Bytes → Option Bytes → Bool
both (some a) (some b) = a =? b
both _ _ = false

unfoldable pub is_main_frame_document_request : TrackerData → RequestWillBeSent → Bool
is_main_frame_document_request d e = both e.frame_id d.main_frame_id && is e.type (codes "Document")

abbrev pub ends_with_slash : Bytes → Bool
ends_with_slash s = elim (last s) [ none ↦ false | some c ↦ c == b'/' ]

unfoldable pub matches_seed : Bytes → Bytes → Bool
matches_seed seed_url url =
    url =? seed_url
    || (not (ends_with_slash seed_url)
        && length url == length seed_url + 1
        && starts_with seed_url url
        && ends_with_slash url)

-- A request is left out, or it is tracked, as the main document or not.
pub data Admission : Type 0 where
  ignored : Admission
  admitted : TrackerData → Bool → Admission

abbrev pub is_none {ℓ} : {A : Type ℓ} → Option A → Bool
is_none o = not (is_some o)

abbrev pub is_foreign_navigation : TrackerData → Bytes → Bool
is_foreign_navigation d url =
    is_none d.main_loader_id
    && is_none d.main_request_id
    && elim d.seed_navigation_url [ none ↦ false | some seed ↦ not (matches_seed seed url) ]

abbrev pub is_foreign_loader : TrackerData → Option Bytes → Bool
is_foreign_loader d loader_id = elim d.main_loader_id [
  | none ↦ false
  | some own ↦ not (matches_loader own loader_id)
]

unfoldable pub admit : RequestWillBeSent → TrackerData → Outcome Admission
admit e d =
    if is_main_frame_document_request d e
    then if d.seed_navigation_started
      then returns (
          if is_foreign_loader d e.loader_id || is_foreign_navigation d e.url
          then ignored
          else admitted (record d { main_loader_id = or_else d.main_loader_id e.loader_id }) true)
      else aborts (codes "main document request observed before seed navigation started")
    else returns (admitted d false)

abbrev pub record_redirect : Bytes → TrackedRequest → TrackerData → Outcome TrackerData
record_redirect id r d =
    if r.is_tracked_main_document
    then (record_main_document_redirect (response_of r) d >>= λ d'.
        returns (forget_main_request id d'))
    else record_resource_redirect r (response_of r) d

abbrev pub headers_of : Option NetworkResponse → Option (Option CdpHeaders)
headers_of none = none
headers_of (some r) = some r.headers

abbrev pub tracked_request : RequestWillBeSent → Bytes → Bool → TrackedRequest
tracked_request e url is_main = record {
  request_url = url;
  method = e.method;
  status_code = none;
  status_message = none;
  headers = none;
  timestamp = none;
  loader_id = e.loader_id;
  frame_id = e.frame_id;
  resource_type = e.type;
  loaded = false;
  is_tracked_main_document = is_main;
}

abbrev pub push_chain : Bytes → List Bytes → List Bytes
push_chain url chain = if is (last chain) url then chain else chain ++ url ∷ []

-- The request is entered, and followed if it is the main document.
unfoldable pub track : RequestWillBeSent → Bytes → Bool → TrackerData → TrackerData
track e url is_main d =
    let d' = record d {
      active_requests = put_active e.request_id (tracked_request e url is_main) d.active_requests;
    } in
    if is_main
    then record d' {
      main_request_id = some e.request_id;
      redirect_chain = push_chain url d.redirect_chain;
    }
    else d'

abbrev pub seen : Bytes → ℕ → TrackerData → TrackerData
seen id now d = record d { inflight = insert_inflight id d.inflight; last_network_at = now }

module _ {Url : Type 0} (lib : UrlLib Url) where
  abbrev pub redirected : NetworkResponse → ℤ → Bytes → TrackedRequest → TrackedRequest
  redirected response status timestamp request = record request {
    status_code = some status;
    status_message = some (or_value response.status_text []);
    headers = some (normalize_headers_for_capture lib response.headers request.request_url);
    timestamp = some timestamp;
    loaded = true;
  }

  unfoldable pub finalize_redirect_request :
      Bytes
      → NetworkResponse
      → Bytes
      → Option ℤ
      → Option TrackedRequest
      → TrackerData
      → Outcome TrackerData
  finalize_redirect_request id response timestamp none found d =
      aborts (codes "redirect response must include status")
  finalize_redirect_request id response timestamp (some status) none d =
      returns (fail_with (codes "redirect response for unknown request id " ++ id) d)
  finalize_redirect_request id response timestamp (some status) (some request) d =
      record_redirect id (redirected response status timestamp request)
        (record d { active_requests = erase_active id d.active_requests })

  abbrev pub finalize_if_redirected :
      Bytes → Bytes → Option NetworkResponse → TrackerData → Outcome TrackerData
  finalize_if_redirected id timestamp none d = returns d
  finalize_if_redirected id timestamp (some response) d =
      finalize_redirect_request id response timestamp response.status
        (find_active id d.active_requests) d

  unfoldable pub canonical_request_url : RequestWillBeSent → Option TrackedRequest → Bytes
  canonical_request_url e none = canonicalize_captured_url lib e.url
  canonical_request_url e (some previous) =
      resolve_redirect_target_url lib previous.request_url e.url (headers_of e.redirect_response)

  abbrev pub after_admission :
      RequestWillBeSent → Bytes → TrackerData → Admission → Outcome TrackerData
  after_admission e timestamp d ignored = returns d
  after_admission e timestamp d (admitted d' is_main) =
      finalize_if_redirected e.request_id timestamp e.redirect_response d' >>= λ d''.
      returns (
        track e (canonical_request_url e (find_active e.request_id d'.active_requests)) is_main d'')

  unfoldable pub handle_request_will_be_sent :
      RequestWillBeSent → ℕ → Bytes → TrackerData → Outcome TrackerData
  handle_request_will_be_sent e now timestamp d =
      if starts_with (codes "data:") e.url
      then returns d
      else let d' = seen e.request_id now d in admit e d' >>= λ a. after_admission e timestamp d' a
