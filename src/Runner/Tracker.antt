-- ===== src/Runner/Tracker.antt =====
-- The events that `PageTracker` of webshotd/src/crawler/runner.cpp handles.
pub mod Exchange
pub mod Sound
use webshot.Base.{
  ℕ, suc, ◌+◌, ◌==◌, Bool, true, false, not, ◌&&◌, ◌||◌, null, if◌then◌else◌, List, [], ◌∷◌, ◌++◌,
  any, keep, last, length, Option, none, some, Expected, ok, err,
}
use webshot.Base.Bytes.{Bytes, codes, ◌=?◌, starts_with}
use webshot.Base.Outcome.{Outcome, returns, aborts, ◌>>=◌}
use webshot.Crawl.Fallback.{ℤ}
use webshot.Artifacts.{Headers, CapturedMainDocumentRedirect, CapturedResource}
use webshot.Runner.Urls.{
  UrlLib, CdpHeaders, canonicalize_captured_url, normalize_headers_for_capture,
  resolve_redirect_target_url,
}
use webshot.Runner.State.{
  TrackedRequest, MainResponse, Active, TrackerData, NetworkResponse, RequestWillBeSent,
  ResponseReceived, EventKind, CdpEvent, is, find_active, erase_active, put_active, insert_inflight,
  erase_inflight, main_response, response_of, is_some, has_response, or_value, or_else, fail_with,
  fresh, begin_seed_navigation, set_main_frame_id, set_expected_main_loader_id, target_crashed,
  target_destroyed, detached_from_target, inspector_detached, load_event_fired,
  request_will_be_sent, response_received, loading_finished, loading_failed, any_other,
}
use webshot.Runner.Requests.{
  main_document_redirect, is_repeated, eq_int, record_main_document_redirect,
  record_resource_redirect, forget_main_request, matches_loader, both,
  is_main_frame_document_request, ends_with_slash, matches_seed, Admission, is_none,
  is_foreign_navigation, is_foreign_loader, admit, record_redirect, headers_of, tracked_request,
  push_chain, track, seen, redirected, finalize_redirect_request, finalize_if_redirected,
  canonical_request_url, after_admission, handle_request_will_be_sent, ignored, admitted,
}

abbrev pub unknown_main : Bytes → Bytes → TrackerData → TrackerData
unknown_main what id d =
    if is d.main_request_id id
    then fail_with (codes "main document " ++ (what ++ (codes " for unknown request id " ++ id))) d
    else d

-- The entry is written, and kept as the main document's where it is one with a response.
abbrev pub complete : Bytes → TrackedRequest → TrackerData → TrackerData
complete id r d =
    let d' = record d { active_requests = put_active id r d.active_requests } in
    if r.is_tracked_main_document && has_response r
    then record d' { completed_main_request = some r; main_response_request_id = some id }
    else d'

abbrev pub settled : Bytes → ℕ → TrackerData → TrackerData
settled id now d = record d { inflight = erase_inflight id d.inflight; last_network_at = now }

unfoldable pub handle_loading_finished : Bytes → Option TrackedRequest → TrackerData → TrackerData
handle_loading_finished id none d = unknown_main (codes "loading finished") id d
handle_loading_finished id (some r) d = complete id (record r { loaded = true }) d

unfoldable pub handle_loading_failed :
    Bytes → Option Bytes → Option TrackedRequest → TrackerData → TrackerData
handle_loading_failed id error_text none d = unknown_main (codes "loading failed") id d
handle_loading_failed id error_text (some r) d =
    let d' = record d {
      active_requests = put_active id (record r { loaded = true }) d.active_requests;
    } in
    if r.is_tracked_main_document && not (has_response r)
    then fail_with (or_value error_text (codes "main document request failed")) d'
    else d'

abbrev pub failed_for : Option Bytes → Bytes → Bytes → TrackerData → TrackerData
failed_for event_id own_id why d = if is event_id own_id then fail_with why d else d

abbrev pub is_other_session : Option Bytes → Bytes → Bool
is_other_session none own = false
is_other_session (some s) own = not (s =? own)

abbrev pub detached_text : Option Bytes → Bytes
detached_text none = codes "inspector detached"
detached_text (some reason) = codes "inspector detached: " ++ reason

module _ {Url : Type 0} (lib : UrlLib Url) where
  abbrev pub answered : ResponseReceived → Bytes → TrackedRequest → TrackedRequest
  answered e timestamp r = record r {
    status_code = some (or_value e.response.status (ℤ.pos 0));
    status_message = some (or_value e.response.status_text []);
    headers = some (normalize_headers_for_capture lib e.response.headers r.request_url);
    timestamp = some timestamp;
    resource_type = or_else e.type r.resource_type;
    loader_id = or_else e.loader_id r.loader_id;
  }

  unfoldable pub handle_response_received :
      ResponseReceived → Bytes → Option TrackedRequest → TrackerData → TrackerData
  handle_response_received e timestamp none d =
      unknown_main (codes "response received") e.request_id d
  handle_response_received e timestamp (some r) d = complete e.request_id (answered e timestamp r) d

  -- The events that are looked at only in the tracker's own session.
  abbrev pub handle_page_event : EventKind → ℕ → Bytes → TrackerData → Outcome TrackerData
  handle_page_event load_event_fired now timestamp d = returns (record d { loaded = true })
  handle_page_event (request_will_be_sent (err why)) now timestamp d = returns (fail_with why d)
  handle_page_event (request_will_be_sent (ok e)) now timestamp d =
      handle_request_will_be_sent lib e now timestamp d
  handle_page_event (response_received (err why)) now timestamp d = returns (fail_with why d)
  handle_page_event (response_received (ok e)) now timestamp d =
      returns (handle_response_received e timestamp (find_active e.request_id d.active_requests) d)
  handle_page_event (loading_finished (err why)) now timestamp d = returns (fail_with why d)
  handle_page_event (loading_finished (ok id)) now timestamp d =
      returns (handle_loading_finished id (find_active id d.active_requests) (settled id now d))
  handle_page_event (loading_failed (err why)) now timestamp d = returns (fail_with why d)
  handle_page_event (loading_failed (ok e)) now timestamp d =
      returns
        (handle_loading_failed e.0 e.1 (find_active e.0 d.active_requests) (settled e.0 now d))
  handle_page_event _ now timestamp d = returns d

  abbrev pub dispatch : EventKind → Option Bytes → ℕ → Bytes → TrackerData → Outcome TrackerData
  dispatch (target_crashed id) session now timestamp d =
      returns (failed_for id d.target_id (codes "page target crashed") d)
  dispatch (detached_from_target id) session now timestamp d =
      returns (failed_for id d.session_id (codes "target session detached") d)
  dispatch (target_destroyed id) session now timestamp d =
      returns (failed_for id d.target_id (codes "page target destroyed") d)
  dispatch (inspector_detached reason) session now timestamp d =
      returns
        (if is_other_session session d.session_id then d else fail_with (detached_text reason) d)
  dispatch kind session now timestamp d =
      if is session d.session_id then handle_page_event kind now timestamp d else returns d

  unfoldable pub handle_event : CdpEvent → TrackerData → Outcome TrackerData
  handle_event event d = dispatch event.kind event.session_id event.now event.timestamp d

  unfoldable pub handle_events : List CdpEvent → TrackerData → Outcome TrackerData
  handle_events [] d = returns d
  handle_events (e ∷ es) d = handle_event e d >>= λ d'. handle_events es d'
