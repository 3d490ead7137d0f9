-- ===== src/Runner/State.antt =====
-- The state of `PageTracker` of webshotd/src/crawler/runner.cpp, and the events that it handles.
use webshot.Base.{
  ℕ, Bool, true, false, not, if◌then◌else◌, List, [], ◌∷◌, any, keep, Option, none, some, Expected,
}
use webshot.Base.Bytes.{Bytes, ◌=?◌}
use webshot.Crawl.Fallback.{ℤ}
use webshot.Artifacts.{Headers, CapturedMainDocumentRedirect, CapturedResource}
use webshot.Runner.Urls.{CdpHeaders}

pub record TrackedRequest : Type 0 where
  pub request_url : Bytes
  pub method : Bytes
  pub status_code : Option ℤ
  pub status_message : Option Bytes
  pub headers : Option Headers
  pub timestamp : Option Bytes
  pub loader_id : Option Bytes
  pub frame_id : Option Bytes
  pub resource_type : Option Bytes
  pub loaded : Bool
  pub is_tracked_main_document : Bool

pub record MainResponse : Type 0 where
  pub request_url : Bytes
  pub status_code : ℤ
  pub status_message : Bytes
  pub headers : Headers
  pub timestamp : Bytes

abbrev pub Active : Type 0
Active = List (Bytes × TrackedRequest)

-- `Data`, the state of a tracker.
pub record TrackerData : Type 0 where
  pub session_id : Bytes
  pub target_id : Bytes
  pub page_id : Bytes
  pub active_requests : Active
  pub redirected_resources : List CapturedResource
  pub redirect_chain : List Bytes
  pub main_document_redirects : List CapturedMainDocumentRedirect
  pub inflight : List Bytes
  pub main_request_id : Option Bytes
  pub main_response_request_id : Option Bytes
  pub main_loader_id : Option Bytes
  pub main_frame_id : Option Bytes
  pub seed_navigation_url : Option Bytes
  pub completed_main_request : Option TrackedRequest
  pub loaded : Bool
  pub seed_navigation_started : Bool
  pub main_request_error : Option Bytes
  pub last_network_at : ℕ

-- The response of a request, as Chromium sends it.
pub record NetworkResponse : Type 0 where
  pub status : Option ℤ
  pub status_text : Option Bytes
  pub headers : Option CdpHeaders

pub record RequestWillBeSent : Type 0 where
  pub request_id : Bytes
  pub url : Bytes
  pub method : Bytes
  pub loader_id : Option Bytes
  pub frame_id : Option Bytes
  pub type : Option Bytes
  pub redirect_response : Option NetworkResponse

pub record ResponseReceived : Type 0 where
  pub request_id : Bytes
  pub response : NetworkResponse
  pub type : Option Bytes
  pub loader_id : Option Bytes

-- The parameters of an event, where they are read: an `err` holds why they cannot be. Texts are
-- UTF-8, as those of JSON are.
pub data EventKind : Type 0 where
  target_crashed target_destroyed detached_from_target inspector_detached : Option Bytes → EventKind
  load_event_fired : EventKind
  request_will_be_sent : Expected RequestWillBeSent Bytes → EventKind
  response_received : Expected ResponseReceived Bytes → EventKind
  loading_finished : Expected Bytes Bytes → EventKind
  loading_failed : Expected (Bytes × Option Bytes) Bytes → EventKind
  any_other : EventKind

-- An event with its session and the two clocks at the time when it is handled.
pub record CdpEvent : Type 0 where
  pub session_id : Option Bytes
  pub kind : EventKind
  pub now : ℕ
  pub timestamp : Bytes

abbrev pub is : Option Bytes → Bytes → Bool
is none b = false
is (some a) b = a =? b

unfoldable pub find_active : Bytes → Active → Option TrackedRequest
find_active id [] = none
find_active id (e ∷ es) = if e.0 =? id then some e.1 else find_active id es

abbrev pub erase_active : Bytes → Active → Active
erase_active id = keep (λ e. not (e.0 =? id))

-- `insert_or_assign`, also for an entry that is written through a reference.
unfoldable pub put_active : Bytes → TrackedRequest → Active → Active
put_active id r [] = (id, r) ∷ []
put_active id r (e ∷ es) = if e.0 =? id then (id, r) ∷ es else e ∷ put_active id r es

abbrev pub insert_inflight : Bytes → List Bytes → List Bytes
insert_inflight id ids = if any (λ i. i =? id) ids then ids else id ∷ ids

abbrev pub erase_inflight : Bytes → List Bytes → List Bytes
erase_inflight id = keep (λ i. not (i =? id))

abbrev pub main_response :
    Bytes → Option ℤ → Option Bytes → Option Headers → Option Bytes → Option MainResponse
main_response url (some status) (some message) (some headers) (some timestamp) = some (record {
  request_url = url;
  status_code = status;
  status_message = message;
  headers = headers;
  timestamp = timestamp;
})
main_response url _ _ _ _ = none

-- `ToMainResponse` where `HasResponse`.
abbrev pub response_of : TrackedRequest → Option MainResponse
response_of r = main_response r.request_url r.status_code r.status_message r.headers r.timestamp

abbrev pub is_some {ℓ} : {A : Type ℓ} → Option A → Bool
is_some none = false
is_some (some a) = true

abbrev pub has_response : TrackedRequest → Bool
has_response r = is_some (response_of r)

abbrev pub or_value {ℓ} : {A : Type ℓ} → Option A → A → A
or_value none d = d
or_value (some a) d = a

abbrev pub or_else : Option Bytes → Option Bytes → Option Bytes
or_else none o = o
or_else (some a) o = some a

-- `state.main_request_error = …`.
abbrev pub fail_with : Bytes → TrackerData → TrackerData
fail_with why d = record d { main_request_error = some why }

abbrev pub fresh : Bytes → Bytes → Bytes → ℕ → TrackerData
fresh session_id target_id page_id now = record {
  session_id = session_id;
  target_id = target_id;
  page_id = page_id;
  active_requests = [];
  redirected_resources = [];
  redirect_chain = [];
  main_document_redirects = [];
  inflight = [];
  main_request_id = none;
  main_response_request_id = none;
  main_loader_id = none;
  main_frame_id = none;
  seed_navigation_url = none;
  completed_main_request = none;
  loaded = false;
  seed_navigation_started = false;
  main_request_error = none;
  last_network_at = now;
}

unfoldable pub begin_seed_navigation : Bytes → TrackerData → TrackerData
begin_seed_navigation seed_url d = record d {
  seed_navigation_started = true;
  seed_navigation_url = some seed_url;
}

unfoldable pub set_main_frame_id : Bytes → TrackerData → TrackerData
set_main_frame_id main_frame_id d = record d { main_frame_id = some main_frame_id }

unfoldable pub set_expected_main_loader_id : Option Bytes → TrackerData → TrackerData
set_expected_main_loader_id none d = d
set_expected_main_loader_id (some loader_id) d = record d { main_loader_id = some loader_id }
