-- ===== src/Runner/Tracker/Sound/Run.antt =====
-- Events in any number and order: the state stays sound, and an archive can be made once the main
-- document has come.

use webshot.Base.{
  ℕ, ◌≡◌, refl, ◌⊎◌, inl, inr, Bool, true, false, if◌then◌else◌, List, [], ◌∷◌, Option, none, some,
  ok, err,
}
use webshot.Base.Bytes.{Bytes, codes}
use webshot.Base.Outcome.{Outcome, returns, aborts, ◌>>=◌}
use webshot.Runner.Urls.{UrlLib}
use webshot.Runner.State.{
  TrackedRequest, TrackerData, ResponseReceived, EventKind, target_crashed, target_destroyed,
  detached_from_target, inspector_detached, load_event_fired, request_will_be_sent,
  response_received, loading_finished, loading_failed, any_other, CdpEvent, find_active, is_some,
  is, fail_with,
}
use webshot.Runner.Tracker.{
  settled, answered, is_other_session, detached_text, handle_response_received,
  handle_loading_finished, handle_loading_failed, handle_page_event, dispatch, handle_event,
  handle_events,
}
use webshot.Runner.Tracker.Sound.{
  IsHeld, IsSound, Extends, Next, Extends_refl, Extends_trans, find_active-All,
}
use webshot.Runner.Tracker.Sound.Parts.{
  quiet, fail_with-Next, settled-Next, unknown_main-Next, complete-Next, failed-Next,
}
use webshot.Runner.Tracker.Sound.Recorded.{Records, handle_events-Records}
use webshot.Runner.Tracker.Sound.Events.{Ends, IsForbidden, handle_request_will_be_sent-Ends}

-- A request that must not come, in this state.
abbrev pub IsForbiddenEvent : EventKind → TrackerData → Type 0
IsForbiddenEvent (request_will_be_sent (ok e)) d = IsForbidden e d
IsForbiddenEvent _ d = ⊥

found-IsHeld :
    (id : Bytes) (r : TrackedRequest) (d : TrackerData)
    → IsSound d
    → find_active id d.active_requests ≡ some r
    → IsHeld d.seed_navigation_started (is_some d.completed_main_request) r
found-IsHeld id r d s =
    find_active-All (IsHeld d.seed_navigation_started (is_some d.completed_main_request)) id r
      d.active_requests s.held

loaded-Next : (d : TrackerData) → IsSound d → Next d (record d { loaded = true })
loaded-Next d s = (
  record {
    held = s.held;
    completed = s.completed;
    started = s.started;
    chain = s.chain;
    redirects = s.redirects;
  },
  quiet d (record d { loaded = true }) (refl, refl, refl, refl, refl, refl) (λ h. h) (λ h. h),
)

finished-Next :
    (id : Bytes) (d : TrackerData) (o : Option TrackedRequest)
    → find_active id d.active_requests ≡ o
    → IsSound d
    → Next d (handle_loading_finished id o d)
unfolding handle_loading_finished
finished-Next id d none e s = unknown_main-Next (codes "loading finished") id d s
finished-Next id d (some r) e s =
    complete-Next id (record r { loaded = true }) d (λ h. (found-IsHeld id r d s e h).0) s

not_loaded-Next :
    (id : Bytes) (error_text : Option Bytes) (d : TrackerData) (o : Option TrackedRequest)
    → find_active id d.active_requests ≡ o
    → IsSound d
    → Next d (handle_loading_failed id error_text o d)
unfolding handle_loading_failed
not_loaded-Next id error_text d none e s = unknown_main-Next (codes "loading failed") id d s
not_loaded-Next id error_text d (some r) e s =
    failed-Next id _ (record r { loaded = true }) d (found-IsHeld id r d s e) s _

followed : (d d' d'' : TrackerData) → Next d d' → Next d' d'' → Next d d''
followed d d' d'' p q = (q.0, Extends_trans d d' d'' p.1 q.1)

failed_if :
    (b : Bool) (why : Bytes) (d : TrackerData)
    → IsSound d
    → Next d (if b then fail_with why d else d)
failed_if true why d s = fail_with-Next why d s
failed_if false why d s = (s, Extends_refl d)

failed_unless :
    (b : Bool) (why : Bytes) (d : TrackerData)
    → IsSound d
    → Next d (if b then d else fail_with why d)
failed_unless true why d s = (s, Extends_refl d)
failed_unless false why d s = fail_with-Next why d s

own_session :
    (b : Bool) (Bad : Type 0) (o : Outcome TrackerData) (d : TrackerData)
    → IsSound d
    → Ends Bad d o
    → Ends Bad d (if b then o else returns d)
own_session true Bad o d s h = h
own_session false Bad o d s h = (s, Extends_refl d)

module _ {Url : Type 0} (lib : UrlLib Url) where
  received-Next :
      (e : ResponseReceived) (timestamp : Bytes) (d : TrackerData) (o : Option TrackedRequest)
      → find_active e.request_id d.active_requests ≡ o
      → IsSound d
      → Next d (handle_response_received lib e timestamp o d)
  unfolding handle_response_received
  received-Next e timestamp d none h s =
      unknown_main-Next (codes "response received") e.request_id d s
  received-Next e timestamp d (some r) h s =
      complete-Next e.request_id (answered lib e timestamp r) d
        (λ t. (found-IsHeld e.request_id r d s h t).0) s

  page-Ends :
      (kind : EventKind) (now : ℕ) (timestamp : Bytes) (d : TrackerData)
      → IsSound d
      → Ends (IsForbiddenEvent kind d) d (handle_page_event lib kind now timestamp d)
  page-Ends load_event_fired now timestamp d s = loaded-Next d s
  page-Ends (request_will_be_sent (ok e)) now timestamp d s =
      handle_request_will_be_sent-Ends lib e now timestamp d s
  page-Ends (request_will_be_sent (err why)) now timestamp d s = fail_with-Next why d s
  page-Ends (response_received (ok e)) now timestamp d s =
      received-Next e timestamp d (find_active e.request_id d.active_requests) refl s
  page-Ends (response_received (err why)) now timestamp d s = fail_with-Next why d s
  page-Ends (loading_finished (ok id)) now timestamp d s =
      let n = settled-Next id now d s in
      followed d (settled id now d) _ n
        (finished-Next id (settled id now d) (find_active id d.active_requests) refl n.0)
  page-Ends (loading_finished (err why)) now timestamp d s = fail_with-Next why d s
  page-Ends (loading_failed (ok e)) now timestamp d s =
      let n = settled-Next e.0 now d s in
      followed d (settled e.0 now d) _ n
        (not_loaded-Next e.0 e.1 (settled e.0 now d) (find_active e.0 d.active_requests) refl n.0)
  page-Ends (loading_failed (err why)) now timestamp d s = fail_with-Next why d s
  page-Ends (target_crashed o) now timestamp d s = (s, Extends_refl d)
  page-Ends (target_destroyed o) now timestamp d s = (s, Extends_refl d)
  page-Ends (detached_from_target o) now timestamp d s = (s, Extends_refl d)
  page-Ends (inspector_detached o) now timestamp d s = (s, Extends_refl d)
  page-Ends any_other now timestamp d s = (s, Extends_refl d)

  in_session :
      (kind : EventKind) (own : Bool) (now : ℕ) (timestamp : Bytes) (d : TrackerData)
      → IsSound d
      → Ends
          (IsForbiddenEvent kind d)
          d
          (if own then handle_page_event lib kind now timestamp d else returns d)
  in_session kind own now timestamp d s =
      own_session own (IsForbiddenEvent kind d) (handle_page_event lib kind now timestamp d) d s
        (page-Ends kind now timestamp d s)

  dispatch-Ends :
      (kind : EventKind) (session : Option Bytes) (now : ℕ) (timestamp : Bytes) (d : TrackerData)
      → IsSound d
      → Ends (IsForbiddenEvent kind d) d (dispatch lib kind session now timestamp d)
  dispatch-Ends (target_crashed o) session now timestamp d s = failed_if (is o d.target_id) _ d s
  dispatch-Ends (target_destroyed o) session now timestamp d s = failed_if (is o d.target_id) _ d s
  dispatch-Ends (detached_from_target o) session now timestamp d s =
      failed_if (is o d.session_id) _ d s
  dispatch-Ends (inspector_detached o) session now timestamp d s =
      failed_unless (is_other_session session d.session_id) (detached_text o) d s
  dispatch-Ends load_event_fired session now timestamp d s =
      in_session load_event_fired (is session d.session_id) now timestamp d s
  dispatch-Ends (request_will_be_sent x) session now timestamp d s =
      in_session (request_will_be_sent x) (is session d.session_id) now timestamp d s
  dispatch-Ends (response_received x) session now timestamp d s =
      in_session (response_received x) (is session d.session_id) now timestamp d s
  dispatch-Ends (loading_finished x) session now timestamp d s =
      in_session (loading_finished x) (is session d.session_id) now timestamp d s
  dispatch-Ends (loading_failed x) session now timestamp d s =
      in_session (loading_failed x) (is session d.session_id) now timestamp d s
  dispatch-Ends any_other session now timestamp d s =
      in_session any_other (is session d.session_id) now timestamp d s

  -- One of the events must not come, in the state in which it does.
  abbrev pub HasForbidden : List CdpEvent → TrackerData → Type 0
  HasForbidden [] d = ⊥
  HasForbidden (e ∷ es) d =
      IsForbiddenEvent e.kind d
      ⊎ ((d' : TrackerData) × (handle_event lib e d ≡ returns d') × HasForbidden es d')

  Handled : List CdpEvent → TrackerData → Type 0
  Handled es d =
      ((d' : TrackerData) × (handle_events lib es d ≡ returns d') × IsSound d' × Extends d d')
      ⊎ HasForbidden es d

  after_event :
      (es : List CdpEvent) (Bad : Type 0) (d : TrackerData) (o : Outcome TrackerData)
      → Ends Bad d o
      → ((d' : TrackerData) → IsSound d' → Handled es d')
      → ((d' : TrackerData) × (o >>= (λ x. handle_events lib es x) ≡ returns d')
          × IsSound d'
          × Extends d d')
        ⊎ Bad
        ⊎ ((d' : TrackerData) × (o ≡ returns d') × HasForbidden es d')
  unfolding Handled
  after_event es Bad d (aborts why) bad h = inr (inl bad)
  after_event es Bad d (returns d1) n h = elim (h d1 n.0) [
    | inl (d', q, s, x) ↦ inl (d', q, s, Extends_trans d d1 d' n.1 x)
    | inr f ↦ inr (inr (d1, refl, f))
  ]

  handle_event-Ends :
      (e : CdpEvent) (d : TrackerData)
      → IsSound d
      → Ends (IsForbiddenEvent e.kind d) d (handle_event lib e d)
  unfolding handle_event
  handle_event-Ends e d s = dispatch-Ends e.kind e.session_id e.now e.timestamp d s

  handled : (es : List CdpEvent) (d : TrackerData) → IsSound d → Handled es d
  unfolding handle_events Handled
  handled [] d s = inl (d, refl, s, Extends_refl d)
  handled (e ∷ es) d s =
      after_event es (IsForbiddenEvent e.kind d) d (handle_event lib e d) (handle_event-Ends e d s)
        (λ d' s'. handled es d' s')

  -- Whatever events come, the tracker handles them all without an abort and stays sound. A tracked
  -- request that the page sends again with the response of a redirect, and that is not left out (as one
  -- for a data: URL or of a foreign main document is), is recorded under its URL and the status of that
  -- response: as a redirect of the main document, unless the last one is the same, or as a resource;
  -- and nothing else is recorded there. What is recorded of redirects, and the chain of URLs, only
  -- grow, and neither the redirects of the main document nor the chain has equal neighbours; the page,
  -- the seed and an error that is noted stay; and once a main document is kept with a response, there
  -- is always one. It is only where a redirect has no status, or the main document is requested before
  -- the navigation has begun, that it may abort.
  pub handle_events-IsSound :
      (es : List CdpEvent) (d : TrackerData)
      → IsSound d
      → ((d' : TrackerData) × (handle_events lib es d ≡ returns d')
          × IsSound d'
          × Extends d d'
          × Records lib es d d')
        ⊎ HasForbidden es d
  unfolding Handled
  handle_events-IsSound es d s = elim (handled es d s) [
    | inl (d', e, t, x) ↦ inl (d', e, t, x, handle_events-Records lib es d d' e)
    | inr f ↦ inr f
  ]
