-- ===== src/Runner/Tracker/Exchange.antt =====
-- What `PageTracker` tells of its page: whether the main document has come, how the seed was answered,
-- and the exchange that goes into the archive (webshotd/src/crawler/runner.cpp).
use webshot.Base.{
  ℕ, leb, ◌-◌, Bool, false, not, ◌&&◌, ◌||◌, null, if◌then◌else◌, List, [], ◌∷◌, Option, none, some,
}
use webshot.Base.Bytes.{Bytes, codes, ◌=?◌}
use webshot.Base.Outcome.{Outcome, returns, aborts}
use webshot.Crawl.Fallback.{ℤ, SeedProbe}
use webshot.Artifacts.{CapturedExchange, CapturedResource}
use webshot.Runner.State.{
  TrackedRequest, TrackerData, MainResponse, find_active, response_of, has_response, is_some,
  or_value,
}

abbrev pub find_main : Option Bytes → TrackerData → Option TrackedRequest
find_main none d = none
find_main (some id) d = find_active id d.active_requests

unfoldable pub active_main_request : TrackerData → Option TrackedRequest
active_main_request d = find_main d.main_request_id d

abbrev pub has_loaded_response : Option TrackedRequest → Bool
has_loaded_response none = false
has_loaded_response (some r) = has_response r && r.loaded

unfoldable pub is_loaded_or_failed : TrackerData → Bool
is_loaded_or_failed d = d.loaded || is_some d.main_request_error

unfoldable pub has_main_document_or_error : TrackerData → Bool
has_main_document_or_error d =
    is_some d.main_request_error
    || has_loaded_response d.completed_main_request
    || has_loaded_response (active_main_request d)

-- `idle` and the times count the same unit.
unfoldable pub is_idle_for : ℕ → ℕ → TrackerData → Bool
is_idle_for idle now d = null d.inflight && leb idle (now - d.last_network_at)

abbrev pub response_in : Option TrackedRequest → Option MainResponse
response_in none = none
response_in (some r) = response_of r

abbrev pub first_some {ℓ} : {A : Type ℓ} → Option A → Option A → Option A
first_some none b = b
first_some (some a) b = some a

abbrev pub resolved : Option TrackedRequest → Option TrackedRequest → Option TrackedRequest
resolved none active = active
resolved (some r) active = if has_response r then some r else active

unfoldable pub resolved_main_request : TrackerData → Option TrackedRequest
resolved_main_request d = resolved d.completed_main_request (active_main_request d)

abbrev pub answered_probe : TrackerData → Option TrackedRequest → Option SeedProbe
answered_probe d none = none
answered_probe d (some r) = elim r.status_code [
  | none ↦ none
  | some status ↦ some (record {
    status = some status;
    load_state = some (if r.loaded && not (is_some d.main_request_error) then ℤ.pos 2 else ℤ.pos 0);
  })
]

unfoldable pub current_seed_probe : TrackerData → Option SeedProbe
current_seed_probe d = first_some (answered_probe d (resolved_main_request d)) (
    if is_some d.main_request_id || is_some d.main_request_error || d.loaded
    then some (record { status = some (ℤ.pos 0); load_state = some (ℤ.pos 0) })
    else none)

abbrev pub at_url : Bytes → Option MainResponse → Option MainResponse
at_url final_url none = none
at_url final_url (some m) = if m.request_url =? final_url then some m else none

unfoldable pub select_main_response : Bytes → TrackerData → Option MainResponse
select_main_response final_url d =
    let completed = response_in d.completed_main_request in
    let active = response_in (active_main_request d) in
    first_some (at_url final_url completed)
      (first_some (at_url final_url active) (first_some completed active))

abbrev pub make_redirect_chain_for_exchange : List Bytes → Bytes → List Bytes
make_redirect_chain_for_exchange [] final_url = final_url ∷ []
make_redirect_chain_for_exchange (u ∷ us) final_url = u ∷ us

abbrev pub exchange_of :
    MainResponse
    → Bytes
    → Option Bytes
    → Bytes
    → List CapturedResource
    → TrackerData
    → CapturedExchange
exchange_of response final_url title body resources d = record {
  seed_url = or_value d.seed_navigation_url final_url;
  page_id = d.page_id;
  final_url = final_url;
  status_code = response.status_code;
  status_message = response.status_message;
  headers = response.headers;
  body = body;
  timestamp = response.timestamp;
  redirect_chain = make_redirect_chain_for_exchange d.redirect_chain final_url;
  main_document_redirects = d.main_document_redirects;
  resources = resources;
  title = title;
}

unfoldable pub make_exchange :
    Bytes → Option Bytes → Bytes → List CapturedResource → TrackerData → Outcome CapturedExchange
make_exchange final_url title body resources d = elim (select_main_response final_url d) [
  | none ↦ aborts (codes "missing main response while building exchange")
  | some response ↦ returns (exchange_of response final_url title body resources d)
]
