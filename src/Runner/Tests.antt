-- ===== src/Runner/Tests.antt =====
-- A page whose address moves, and the requests that it is held back for.
use webshot.Base.{
  ◌≡◌, refl, ◌⊎◌, Bool, true, false, if◌then◌else◌, List, [], ◌∷◌, ◌++◌, Option, none, some, ok,
}
use webshot.Base.Bytes.{Bytes, codes, starts_with}
use webshot.Base.Outcome.{Outcome, returns, aborts}
use webshot.Crawl.Fallback.{pos}
use webshot.Artifacts.{CapturedMainDocumentRedirect, find_header}
use webshot.Runner.Urls.{
  UrlLib, canonicalize_captured_url, canonicalize_captured_location_header, is_local_fixture_host,
  make_url_origin, normalize_headers, normalize_headers_for_capture, resolve_redirect_target_url,
}
use webshot.Runner.Requests.{
  handle_request_will_be_sent, admit, is_main_frame_document_request, matches_seed, track,
  finalize_redirect_request, record_main_document_redirect, canonical_request_url,
}
use webshot.Runner.State.{
  TrackedRequest, TrackerData, RequestWillBeSent, EventKind, CdpEvent, load_event_fired, is_some,
  request_will_be_sent, response_received, loading_finished, fresh, find_active, put_active,
}
use webshot.Runner.Tracker.{
  handle_event, handle_events, handle_response_received, handle_loading_finished,
}
use webshot.Runner.Tracker.Exchange.{has_main_document_or_error, active_main_request}
use webshot.Runner.Tracker.Sound.{IsSound, Extends, NoRepeats, same_redirect}
use webshot.Runner.Tracker.Sound.Recorded.{Records}
use webshot.Runner.Tracker.Sound.Run.{HasForbidden, handle_events-IsSound}
use webshot.Runner.Tracker.Sound.Archived.{Makes, handle_events-Makes}

-- URLs that are their own text, all of the host `ex.com`.
abbrev pub text_lib : UrlLib Bytes
text_lib = record {
  from_text = λ s. if starts_with (codes "http") s then some s else none;
  is_http = λ u. starts_with (codes "http://") u;
  is_https = λ u. starts_with (codes "https://") u;
  has_port = λ u. false;
  port = λ u. [];
  host = λ u. codes "ex.com";
  hostname = λ u. codes "ex.com";
  href = λ u. u;
  origin = λ u. codes "https://ex.com";
  path_with_search = λ u. codes "/a";
  without_port = λ u. u;
  without_hash_and_query = λ u. u;
  with_search = λ u s. u ++ s;
  to_lower = λ s. s;
  from_bytes = λ s. some s;
}

abbrev seed : Bytes
seed = codes "https://ex.com"

abbrev target : Bytes
target = codes "https://ex.com/a"

abbrev waiting : TrackerData
waiting = record (fresh (codes "s") (codes "t") (codes "p") 0) {
  main_frame_id = some (codes "f");
  seed_navigation_url = some seed;
  seed_navigation_started = true;
}

waiting-IsSound : IsSound waiting
waiting-IsSound = record {
  held = tt;
  completed = tt;
  started = λ h. refl;
  chain = tt;
  redirects = tt;
}

abbrev asked : RequestWillBeSent
asked = record {
  request_id = codes "1";
  url = seed;
  method = codes "GET";
  loader_id = some (codes "l");
  frame_id = some (codes "f");
  type = some (codes "Document");
  redirect_response = none;
}

abbrev moved_on : RequestWillBeSent
moved_on = record asked {
  url = target;
  redirect_response = some (record {
    status = some (pos 301);
    status_text = some (codes "Moved");
    headers = some ((codes "location", target) ∷ []);
  });
}

abbrev event : EventKind → CdpEvent
event kind = record {
  session_id = some (codes "s");
  kind = kind;
  now = 1;
  timestamp = codes "2024";
}

abbrev page_events : List CdpEvent
page_events =
    event (request_will_be_sent (ok asked))
    ∷ event (request_will_be_sent (ok moved_on))
    ∷ event (
        response_received (
          ok (record {
            request_id = codes "1";
            response = record {
              status = some (pos 200);
              status_text = some (codes "OK");
              headers = none;
            };
            type = some (codes "Document");
            loader_id = none;
          })))
    ∷ event (loading_finished (ok (codes "1")))
    ∷ event load_event_fired
    ∷ []

-- What the tests read of a state.
abbrev Summary : Type 0
Summary = List Bytes × List Bytes × Bool × Bool

abbrev urls_of : List CapturedMainDocumentRedirect → List Bytes
urls_of [] = []
urls_of (r ∷ rs) = r.redirect_url ∷ urls_of rs

abbrev summary : Outcome TrackerData → Option Summary
summary (aborts why) = none
summary (returns d) = some (
  d.redirect_chain,
  urls_of d.main_document_redirects,
  is_some d.main_request_error,
  has_main_document_or_error d,
)

redirect_test :
    summary (handle_events text_lib page_events waiting)
    ≡ some (seed ∷ target ∷ [], seed ∷ [], false, true)
unfolding handle_events handle_event handle_request_will_be_sent admit
    is_main_frame_document_request matches_seed track finalize_redirect_request find_active
    put_active record_main_document_redirect handle_response_received handle_loading_finished
    canonical_request_url has_main_document_or_error active_main_request canonicalize_captured_url
    resolve_redirect_target_url find_header normalize_headers_for_capture normalize_headers
    canonicalize_captured_location_header is_local_fixture_host make_url_origin
redirect_test = refl

abbrev pub answered : TrackedRequest
answered = record {
  request_url = target;
  method = codes "GET";
  status_code = some (pos 200);
  status_message = some [];
  headers = some [];
  timestamp = some (codes "2024");
  loader_id = none;
  frame_id = some (codes "f");
  resource_type = some (codes "Document");
  loaded = true;
  is_tracked_main_document = true;
}

abbrev pub arrived : TrackerData
arrived = record waiting {
  completed_main_request = some answered;
  main_response_request_id = some (codes "1");
}

arrived-IsSound : IsSound arrived
arrived-IsSound = record {
  held = tt;
  completed = (refl, refl);
  started = λ h. refl;
  chain = tt;
  redirects = tt;
}

handle_events-IsSound_example :
    ((d' : TrackerData) × (handle_events text_lib page_events waiting ≡ returns d')
      × IsSound d'
      × Extends waiting d'
      × Records text_lib page_events waiting d')
    ⊎ HasForbidden text_lib page_events waiting
handle_events-IsSound_example = handle_events-IsSound text_lib page_events waiting waiting-IsSound

handle_events-Makes_example :
    ((d' : TrackerData) × (handle_events text_lib page_events arrived ≡ returns d')
      × Makes target none [] [] d'
      × ((l : List CapturedMainDocumentRedirect) × (d'.main_document_redirects ≡ [] ++ l)
          × NoRepeats same_redirect d'.main_document_redirects)
      × Records text_lib page_events arrived d')
    ⊎ HasForbidden text_lib page_events arrived
handle_events-Makes_example =
    handle_events-Makes text_lib page_events arrived target none [] [] arrived-IsSound refl
