-- ===== src/Runner/Tracker/Sound/Parts.antt =====
-- The parts of the handlers of `PageTracker` keep its state sound.
use mathlib.Core.Path.{subst}
use mathlib.Core.List.{append-nil}
use mathlib.Core.Bool.{false≢true}
use webshot.Base.{
  &&-true, ℕ, ◌≡◌, refl, sym, ◌∙◌, inl, inr, Bool, true, false, ◌&&◌, if◌then◌else◌, Bool-cases,
  List, [], ◌++◌, All, All-mono, some,
}
use webshot.Base.Bytes.{Bytes}
use webshot.Artifacts.{CapturedMainDocumentRedirect, CapturedResource}
use webshot.Runner.State.{
  TrackedRequest, TrackerData, Active, put_active, has_response, is_some, is, fail_with,
}
use webshot.Runner.Requests.{seen}
use webshot.Runner.Tracker.{settled, unknown_main, complete}
use webshot.Runner.Tracker.Sound.{
  IsHeld, IsSound, Extends, Next, Extends_refl, Extends_trans, put_active-All,
}

-- The lists for the archive and the names stay as they are.
abbrev pub Same : TrackerData → TrackerData → Type 0
Same d d' =
    (d'.page_id ≡ d.page_id)
    × (d'.seed_navigation_url ≡ d.seed_navigation_url)
    × (d'.seed_navigation_started ≡ d.seed_navigation_started)
    × (d'.redirect_chain ≡ d.redirect_chain)
    × (d'.main_document_redirects ≡ d.main_document_redirects)
    × (d'.redirected_resources ≡ d.redirected_resources)

pub grows :
    (d d' : TrackerData)
    → (d'.page_id ≡ d.page_id)
      × (d'.seed_navigation_url ≡ d.seed_navigation_url)
      × (d'.seed_navigation_started ≡ d.seed_navigation_started)
    → (is_some d.completed_main_request ≡ true → is_some d'.completed_main_request ≡ true)
    → (is_some d.main_request_error ≡ true → is_some d'.main_request_error ≡ true)
    → ((l : List Bytes) × (d'.redirect_chain ≡ d.redirect_chain ++ l))
    → ((l : List CapturedMainDocumentRedirect) × (d'.main_document_redirects
          ≡ d.main_document_redirects ++ l))
    → ((l : List CapturedResource) × (d'.redirected_resources ≡ d.redirected_resources ++ l))
    → Extends d d'
grows d d' (a, b, c) completes error chain redirects resources = record {
  page = a;
  seed = b;
  navigation = c;
  completes = completes;
  more_chain = chain;
  more_redirects = redirects;
  more_resources = resources;
  error = error;
}

pub quiet :
    (d d' : TrackerData)
    → Same d d'
    → (is_some d.completed_main_request ≡ true → is_some d'.completed_main_request ≡ true)
    → (is_some d.main_request_error ≡ true → is_some d'.main_request_error ≡ true)
    → Extends d d'
quiet d d' (a, b, c, e, f, g) completes error =
    grows d d' (a, b, c) completes error ([], e ∙ sym (append-nil d.redirect_chain))
      ([], f ∙ sym (append-nil d.main_document_redirects))
      ([], g ∙ sym (append-nil d.redirected_resources))

pub fail_with-Next : (why : Bytes) (d : TrackerData) → IsSound d → Next d (fail_with why d)
fail_with-Next why d s = (
  record {
    held = s.held;
    completed = s.completed;
    started = s.started;
    chain = s.chain;
    redirects = s.redirects;
  },
  quiet d (fail_with why d) (refl, refl, refl, refl, refl, refl) (λ h. h) (λ h. refl),
)

pub seen-Next : (id : Bytes) (now : ℕ) (d : TrackerData) → IsSound d → Next d (seen id now d)
seen-Next id now d s = (
  record {
    held = s.held;
    completed = s.completed;
    started = s.started;
    chain = s.chain;
    redirects = s.redirects;
  },
  quiet d (seen id now d) (refl, refl, refl, refl, refl, refl) (λ h. h) (λ h. h),
)

pub settled-Next : (id : Bytes) (now : ℕ) (d : TrackerData) → IsSound d → Next d (settled id now d)
settled-Next id now d s = (
  record {
    held = s.held;
    completed = s.completed;
    started = s.started;
    chain = s.chain;
    redirects = s.redirects;
  },
  quiet d (settled id now d) (refl, refl, refl, refl, refl, refl) (λ h. h) (λ h. h),
)

pub unknown_main-Next :
    (what id : Bytes) (d : TrackerData) → IsSound d → Next d (unknown_main what id d)
unknown_main-Next what id d s = elim (Bool-cases (is d.main_request_id id)) [
  | inl e ↦ rw e (fail_with-Next _ d s)
  | inr e ↦ rw e (s, Extends_refl d)
]

-- A main document among the active requests is one of a navigation that was begun.
abbrev pub IsStarted : Bool → TrackedRequest → Type 0
IsStarted started r = r.is_tracked_main_document ≡ true → started ≡ true

put_held :
    (started completed : Bool) (id : Bytes) (r : TrackedRequest) (es : Active)
    → IsHeld started completed r
    → All (λ e. IsHeld started completed e.1) es
    → All (λ e. IsHeld started completed e.1) (put_active id r es)
put_held started completed id r es = put_active-All (IsHeld started completed) id r es

abbrev pub entered : Bytes → TrackedRequest → TrackerData → TrackerData
entered id r d = record d { active_requests = put_active id r d.active_requests }

pub entered-Next :
    (id : Bytes) (r : TrackedRequest) (d : TrackerData)
    → IsHeld d.seed_navigation_started (is_some d.completed_main_request) r
    → IsSound d
    → Next d (entered id r d)
entered-Next id r d h s = (
  record {
    held =
        put_held d.seed_navigation_started (is_some d.completed_main_request) id r d.active_requests
          h s.held;
    completed = s.completed;
    started = s.started;
    chain = s.chain;
    redirects = s.redirects;
  },
  quiet d (entered id r d) (refl, refl, refl, refl, refl, refl) (λ h. h) (λ h. h),
)

abbrev kept : Bytes → TrackedRequest → TrackerData → TrackerData
kept id r d = record (entered id r d) {
  completed_main_request = some r;
  main_response_request_id = some id;
}

kept-Next :
    (id : Bytes) (r : TrackedRequest) (d : TrackerData)
    → IsStarted d.seed_navigation_started r
    → (r.is_tracked_main_document ≡ true) × (has_response r ≡ true)
    → IsSound d
    → Next d (kept id r d)
kept-Next id r d b h s = (
  record {
    held =
        put_held d.seed_navigation_started true id r d.active_requests (λ t. (b t, λ x. refl))
          (All-mono (λ e k t. ((k t).0, λ x. refl)) d.active_requests s.held);
    completed = h;
    started = s.started;
    chain = s.chain;
    redirects = s.redirects;
  },
  quiet d (kept id r d) (refl, refl, refl, refl, refl, refl) (λ h. refl) (λ h. h),
)

pub complete-Next :
    (id : Bytes) (r : TrackedRequest) (d : TrackerData)
    → IsStarted d.seed_navigation_started r
    → IsSound d
    → Next d (complete id r d)
complete-Next id r d b s = elim (Bool-cases (r.is_tracked_main_document && has_response r)) [
  | inl e ↦
      subst (λ t. Next d (if t then kept id r d else entered id r d)) (sym e)
        (kept-Next id r d b (&&-true r.is_tracked_main_document (has_response r) e) s)
  | inr e ↦
      subst (λ t. Next d (if t then kept id r d else entered id r d)) (sym e)
        (entered-Next id r d (λ t. (b t, λ x. absurd (false≢true (sym e ∙ rw (t, x) refl)))) s)
]

-- A main document that fails before it has a response fails the page.
pub failed-Next :
    (id why : Bytes) (r : TrackedRequest) (d : TrackerData)
    → IsHeld d.seed_navigation_started (is_some d.completed_main_request) r
    → IsSound d
    → (fails : Bool) → Next d (if fails then fail_with why (entered id r d) else entered id r d)
failed-Next id why r d h s true =
    let (s', x) = entered-Next id r d h s in
    let (s'', y) = fail_with-Next why (entered id r d) s' in
    (s'', Extends_trans d (entered id r d) (fail_with why (entered id r d)) x y)
failed-Next id why r d h s false = entered-Next id r d h s
