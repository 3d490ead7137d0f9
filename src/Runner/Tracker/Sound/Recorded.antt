-- ===== src/Runner/Tracker/Sound/Recorded.antt =====
-- Each redirect of a request that is tracked is recorded, and nothing else is.

use webshot.Base.{
  ℕ, ◌≡◌, refl, Bool, true, false, ◌&&◌, if◌then◌else◌, List, [], ◌∷◌, Option, none, some, ok, err,
}
use webshot.Base.Bytes.{Bytes, codes, starts_with}
use webshot.Base.Outcome.{Outcome, returns, aborts, ◌>>=◌}
use webshot.Crawl.Fallback.{ℤ}
use webshot.Runner.Urls.{UrlLib}
use webshot.Runner.State.{
  TrackedRequest, TrackerData, NetworkResponse, RequestWillBeSent, ResponseReceived, EventKind,
  target_crashed, target_destroyed, detached_from_target, inspector_detached, load_event_fired,
  request_will_be_sent, response_received, loading_finished, loading_failed, any_other, CdpEvent,
  erase_active, find_active, has_response, is,
}
use webshot.Runner.Requests.{
  ignored, admitted, admit, seen, redirected, track, finalize_redirect_request,
  finalize_if_redirected, after_admission, canonical_request_url, handle_request_will_be_sent,
}
use webshot.Runner.Tracker.{
  settled, is_other_session, answered, handle_response_received, handle_page_event, dispatch,
  handle_event, handle_events,
}
use webshot.Runner.Tracker.Sound.Redirects.{
  Redirected, with_status, redirected_request, if_admitted, ended_by_kind, ended_by, Recorded,
  Yields, if_Recorded, finished-Recorded, failed-Recorded, same_lists, Yields-from, track-Recorded,
  recorded-Yields,
}

ended_by_none :
    (own : Bool) (d x : TrackerData) → Recorded none d x → Recorded (if own then none else none) d x
ended_by_none true d x h = h
ended_by_none false d x h = h

module _ {Url : Type 0} (lib : UrlLib Url) where
  finalized-Yields :
      (id timestamp : Bytes) (response : NetworkResponse) (status : Option ℤ)
      (found : Option TrackedRequest) (d : TrackerData)
      → Yields
          (Recorded (with_status status found) d)
          (finalize_redirect_request lib id response timestamp status found d)
  unfolding finalize_redirect_request
  finalized-Yields id timestamp response none found d = tt
  finalized-Yields id timestamp response (some status) none d = (refl, refl)
  finalized-Yields id timestamp response (some status) (some r) d =
      recorded-Yields id r (redirected lib response status timestamp r) _ d
        (erase_active id d.active_requests) r.is_tracked_main_document refl refl refl

  response-Yields :
      (id timestamp : Bytes) (o : Option NetworkResponse) (d : TrackerData)
      → Yields
          (Recorded (redirected_request o (find_active id d.active_requests)) d)
          (finalize_if_redirected lib id timestamp o d)
  response-Yields id timestamp none d = (refl, refl)
  response-Yields id timestamp (some r) d =
      finalized-Yields id timestamp r r.status (find_active id d.active_requests) d

  tracked-Yields :
      (e : RequestWillBeSent) (url : Bytes) (is_main : Bool) (r : Redirected) (d : TrackerData)
      (o : Outcome TrackerData)
      → Yields (Recorded r d) o
      → Yields (Recorded r d) (o >>= λ x. returns (track e url is_main x))
  tracked-Yields e url is_main r d (aborts why) h = tt
  tracked-Yields e url is_main r d (returns x) h =
      let (p, q) = track-Recorded e url is_main x in same_lists r d x (track e url is_main x) p q h

  -- A request that is admitted in a state with the lists and the requests of another.
  admitted-Yields :
      (e : RequestWillBeSent) (timestamp : Bytes) (is_main : Bool) (d x : TrackerData)
      → x.main_document_redirects ≡ d.main_document_redirects
      → x.redirected_resources ≡ d.redirected_resources
      → Yields
          (Recorded
            (redirected_request e.redirect_response (find_active e.request_id x.active_requests))
            d)
          (after_admission lib e timestamp x (admitted x is_main))
  admitted-Yields e timestamp is_main d x p q =
      let r = redirected_request e.redirect_response (find_active e.request_id x.active_requests) in
      let o = finalize_if_redirected lib e.request_id timestamp e.redirect_response x in
      tracked-Yields e (canonical_request_url lib e (find_active e.request_id x.active_requests))
        is_main r d o
        (Yields-from r d x o p q (response-Yields e.request_id timestamp e.redirect_response x))

  choice-Yields :
      (e : RequestWillBeSent) (timestamp why : Bytes) (now : ℕ) (loader : Option Bytes)
      (d : TrackerData) (is_main started foreign : Bool)
      → let d' = seen e.request_id now d in
        let a =
          if is_main
          then if started
            then returns
                (if foreign then ignored else admitted (record d' { main_loader_id = loader }) true)
            else aborts why
          else returns (admitted d' false) in
        Yields
          (Recorded
            (if_admitted a
              (redirected_request e.redirect_response (find_active e.request_id d.active_requests)))
            d)
          (a >>= λ x. after_admission lib e timestamp d' x)
  choice-Yields e timestamp why now loader d true true true = (refl, refl)
  choice-Yields e timestamp why now loader d true true false =
      admitted-Yields e timestamp true d
        (record (seen e.request_id now d) { main_loader_id = loader }) refl refl
  choice-Yields e timestamp why now loader d true false foreign = tt
  choice-Yields e timestamp why now loader d false started foreign =
      admitted-Yields e timestamp false d (seen e.request_id now d) refl refl

  data_or-Yields :
      (is_data : Bool) (r : Redirected) (d : TrackerData) (o : Outcome TrackerData)
      → Yields (Recorded r d) o
      → Yields (Recorded (if is_data then none else r) d) (if is_data then returns d else o)
  data_or-Yields true r d o h = (refl, refl)
  data_or-Yields false r d o h = h

  sent-Yields :
      (e : RequestWillBeSent) (now : ℕ) (timestamp : Bytes) (d : TrackerData)
      → Yields
          (Recorded (ended_by_kind (request_will_be_sent (ok e)) now d) d)
          (handle_request_will_be_sent lib e now timestamp d)
  unfolding handle_request_will_be_sent admit
  sent-Yields e now timestamp d =
      data_or-Yields (starts_with (codes "data:") e.url) _ d _
        (choice-Yields e timestamp _ now _ d _ _ _)

  received-Recorded :
      (e : ResponseReceived) (timestamp : Bytes) (o : Option TrackedRequest) (d : TrackerData)
      → Recorded none d (handle_response_received lib e timestamp o d)
  unfolding handle_response_received
  received-Recorded e timestamp none d =
      if_Recorded (is d.main_request_id e.request_id) d _ d (refl, refl) (refl, refl)
  received-Recorded e timestamp (some r) d =
      if_Recorded (r.is_tracked_main_document && has_response (answered lib e timestamp r)) d _ _
        (refl, refl) (refl, refl)

  kind-Yields :
      (kind : EventKind) (now : ℕ) (timestamp : Bytes) (d : TrackerData)
      → Yields (Recorded (ended_by_kind kind now d) d) (handle_page_event lib kind now timestamp d)
  kind-Yields load_event_fired now timestamp d = (refl, refl)
  kind-Yields (request_will_be_sent (ok e)) now timestamp d = sent-Yields e now timestamp d
  kind-Yields (request_will_be_sent (err why)) now timestamp d = (refl, refl)
  kind-Yields (response_received (ok e)) now timestamp d =
      received-Recorded e timestamp (find_active e.request_id d.active_requests) d
  kind-Yields (response_received (err why)) now timestamp d = (refl, refl)
  kind-Yields (loading_finished (ok id)) now timestamp d =
      finished-Recorded id (find_active id d.active_requests) (settled id now d)
  kind-Yields (loading_finished (err why)) now timestamp d = (refl, refl)
  kind-Yields (loading_failed (ok e)) now timestamp d =
      failed-Recorded e.0 e.1 (find_active e.0 d.active_requests) (settled e.0 now d)
  kind-Yields (loading_failed (err why)) now timestamp d = (refl, refl)
  kind-Yields (target_crashed o) now timestamp d = (refl, refl)
  kind-Yields (target_destroyed o) now timestamp d = (refl, refl)
  kind-Yields (detached_from_target o) now timestamp d = (refl, refl)
  kind-Yields (inspector_detached o) now timestamp d = (refl, refl)
  kind-Yields any_other now timestamp d = (refl, refl)

  own-Yields :
      (own : Bool) (kind : EventKind) (now : ℕ) (timestamp : Bytes) (d : TrackerData)
      → Yields
          (Recorded (if own then ended_by_kind kind now d else none) d)
          (if own then handle_page_event lib kind now timestamp d else returns d)
  own-Yields true kind now timestamp d = kind-Yields kind now timestamp d
  own-Yields false kind now timestamp d = (refl, refl)

  dispatch-Yields :
      (kind : EventKind) (session : Option Bytes) (now : ℕ) (timestamp : Bytes) (d : TrackerData)
      → Yields
          (Recorded (if is session d.session_id then ended_by_kind kind now d else none) d)
          (dispatch lib kind session now timestamp d)
  dispatch-Yields (target_crashed o) session now timestamp d =
      ended_by_none (is session d.session_id) d _
        (if_Recorded (is o d.target_id) d _ d (refl, refl) (refl, refl))
  dispatch-Yields (target_destroyed o) session now timestamp d =
      ended_by_none (is session d.session_id) d _
        (if_Recorded (is o d.target_id) d _ d (refl, refl) (refl, refl))
  dispatch-Yields (detached_from_target o) session now timestamp d =
      ended_by_none (is session d.session_id) d _
        (if_Recorded (is o d.session_id) d _ d (refl, refl) (refl, refl))
  dispatch-Yields (inspector_detached o) session now timestamp d =
      ended_by_none (is session d.session_id) d _
        (if_Recorded (is_other_session session d.session_id) d d _ (refl, refl) (refl, refl))
  dispatch-Yields load_event_fired session now timestamp d =
      own-Yields (is session d.session_id) load_event_fired now timestamp d
  dispatch-Yields (request_will_be_sent x) session now timestamp d =
      own-Yields (is session d.session_id) (request_will_be_sent x) now timestamp d
  dispatch-Yields (response_received x) session now timestamp d =
      own-Yields (is session d.session_id) (response_received x) now timestamp d
  dispatch-Yields (loading_finished x) session now timestamp d =
      own-Yields (is session d.session_id) (loading_finished x) now timestamp d
  dispatch-Yields (loading_failed x) session now timestamp d =
      own-Yields (is session d.session_id) (loading_failed x) now timestamp d
  dispatch-Yields any_other session now timestamp d =
      own-Yields (is session d.session_id) any_other now timestamp d

  handle_event-Yields :
      (e : CdpEvent) (d : TrackerData) → Yields (Recorded (ended_by e d) d) (handle_event lib e d)
  unfolding handle_event
  handle_event-Yields e d = dispatch-Yields e.kind e.session_id e.now e.timestamp d

  -- Each event records the redirect of the request that it ends, and nothing where it ends none.
  abbrev pub Records : List CdpEvent → TrackerData → TrackerData → Type 0
  Records [] d d' = d ≡ d'
  Records (e ∷ es) d d' =
      (d1 : TrackerData) × (handle_event lib e d ≡ returns d1)
      × Recorded (ended_by e d) d d1
      × Records es d1 d'

  after-Records :
      (e : CdpEvent) (es : List CdpEvent) (d d' : TrackerData) (o : Outcome TrackerData)
      → handle_event lib e d ≡ o
      → Yields (Recorded (ended_by e d) d) o
      → ((d1 : TrackerData) → handle_events lib es d1 ≡ returns d' → Records es d1 d')
      → (o >>= λ x. handle_events lib es x) ≡ returns d'
      → Records (e ∷ es) d d'
  after-Records e es d d' (aborts why) q y k h = absurd (cc)
  after-Records e es d d' (returns d1) q y k h = (d1, q, y, k d1 h)

  pub handle_events-Records :
      (es : List CdpEvent) (d d' : TrackerData)
      → handle_events lib es d ≡ returns d'
      → Records es d d'
  unfolding handle_events
  handle_events-Records [] d d' h = cc
  handle_events-Records (e ∷ es) d d' h =
      after-Records e es d d' (handle_event lib e d) refl (handle_event-Yields e d)
        (λ d1 k. handle_events-Records es d1 d' k) h
