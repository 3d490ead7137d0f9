-- ===== src/Runner/Tracker/Sound/Events.antt =====
-- Every event keeps the state of a tracker sound.
use mathlib.Core.Path.{subst}
use mathlib.Core.List.{append-nil}
use mathlib.Core.Bool.{false≢true}
use webshot.Base.{
  ℕ, ◌≡◌, refl, sym, ap, ◌∙◌, ◌⊎◌, inl, inr, Bool, true, false, not, if◌then◌else◌, Bool-cases, [],
  ◌∷◌, ◌++◌, last, All-keep, Option, none, some,
}
use webshot.Base.Bytes.{Bytes, ◌=?◌, codes, starts_with}
use webshot.Base.Outcome.{Outcome, returns, aborts, ◌>>=◌}
use webshot.Crawl.Fallback.{ℤ}
use webshot.Runner.Urls.{UrlLib}
use webshot.Runner.State.{
  TrackedRequest, TrackerData, MainResponse, NetworkResponse, RequestWillBeSent, find_active,
  erase_active, is,
}
use webshot.Runner.Requests.{
  Admission, ignored, admitted, is_repeated, eq_int, seen, main_document_redirect,
  record_main_document_redirect, record_resource_redirect, redirected, forget_main_request, track,
  tracked_request, admit, is_main_frame_document_request, finalize_redirect_request,
  finalize_if_redirected, after_admission, canonical_request_url, handle_request_will_be_sent,
}
use webshot.Runner.Tracker.Sound.{
  same_redirect, IsSound, Extends, Next, Extends_refl, Extends_trans, NoRepeats-concat,
  push_chain-NoRepeats, push_chain-more,
}
use webshot.Runner.Tracker.Sound.Parts.{quiet, grows, entered-Next, fail_with-Next, seen-Next}

-- It returns a state that is sound and has lost nothing, or it aborts, which only bad input makes it.
abbrev pub Ends : Type 0 → TrackerData → Outcome TrackerData → Type 0
Ends Bad d (returns d') = Next d d'
Ends Bad d (aborts why) = Bad

pub Ends-later :
    (Bad : Type 0) (d d' : TrackerData) (o : Outcome TrackerData)
    → Extends d d'
    → Ends Bad d' o
    → Ends Bad d o
Ends-later Bad d d' (returns d'') x (s, y) = (s, Extends_trans d d' d'' x y)
Ends-later Bad d d' (aborts why) x bad = bad

pub Ends-bind :
    (Bad : Type 0) (d : TrackerData) (o : Outcome TrackerData)
    (f : TrackerData → Outcome TrackerData)
    → Ends Bad d o
    → ((d' : TrackerData) → Next d d' → Ends Bad d' (f d'))
    → Ends Bad d (o >>= f)
Ends-bind Bad d (returns d') f (s, x) g = Ends-later Bad d d' (f d') x (g d' (s, x))
Ends-bind Bad d (aborts why) f bad g = bad

abbrev pushed : MainResponse → TrackerData → TrackerData
pushed r d = record d {
  main_document_redirects = d.main_document_redirects ++ main_document_redirect r ∷ [];
}

pushed-Next :
    (r : MainResponse) (d : TrackerData)
    → IsSound d
    → is_repeated eq_int (last d.main_document_redirects) r ≡ false
    → Next d (pushed r d)
pushed-Next r d s e = (
  record {
    held = s.held;
    completed = s.completed;
    started = s.started;
    chain = s.chain;
    redirects =
        NoRepeats-concat same_redirect d.main_document_redirects (main_document_redirect r)
          s.redirects (λ y q. sym (ap (λ o. is_repeated eq_int o r) q) ∙ e);
  },
  grows d (pushed r d) (refl, refl, refl) (λ h. h) (λ h. h) ([], sym (append-nil d.redirect_chain))
      (main_document_redirect r ∷ [], refl) ([], sym (append-nil d.redirected_resources)),
)

record_main-Ends :
    (Bad : Type 0) (r : MainResponse) (d : TrackerData)
    → IsSound d
    → Ends Bad d (record_main_document_redirect (some r) d)
unfolding record_main_document_redirect
record_main-Ends Bad r d s =
    elim (Bool-cases (is_repeated eq_int (last d.main_document_redirects) r)) [
      | inl e ↦ subst (λ t. Next d (if t then d else pushed r d)) (sym e) (s, Extends_refl d)
      | inr e ↦ subst (λ t. Next d (if t then d else pushed r d)) (sym e) (pushed-Next r d s e)
    ]

record_resource-Ends :
    (Bad : Type 0) (request : TrackedRequest) (r : MainResponse) (d : TrackerData)
    → IsSound d
    → Ends Bad d (record_resource_redirect request (some r) d)
unfolding record_resource_redirect
record_resource-Ends Bad request r d s = (
  record {
    held = s.held;
    completed = s.completed;
    started = s.started;
    chain = s.chain;
    redirects = s.redirects;
  },
  grows d _ (refl, refl, refl) (λ h. h) (λ h. h) ([], sym (append-nil d.redirect_chain))
      ([], sym (append-nil d.main_document_redirects)) (_ ∷ [], refl),
)

forget-Next : (id : Bytes) (d : TrackerData) → IsSound d → Next d (forget_main_request id d)
forget-Next id d s = elim (Bool-cases (is d.main_request_id id)) [
  | inr e ↦ rw e (s, Extends_refl d)
  | inl e ↦ rw e (
    record {
      held = s.held;
      completed = s.completed;
      started = λ h. absurd (false≢true h);
      chain = s.chain;
      redirects = s.redirects;
    },
    quiet d (record d { main_request_id = none }) (refl, refl, refl, refl, refl, refl) (λ h. h)
        (λ h. h),
  )
]

recorded-Ends :
    (Bad : Type 0) (id : Bytes) (request : TrackedRequest) (r : MainResponse) (d : TrackerData)
    → IsSound d
    → (is_main : Bool)
    → Ends Bad d (
        if is_main
        then (record_main_document_redirect (some r) d >>= λ d'.
            returns (forget_main_request id d'))
        else record_resource_redirect request (some r) d)
recorded-Ends Bad id request r d s true =
    Ends-bind Bad d (record_main_document_redirect (some r) d)
      (λ d'. returns (forget_main_request id d')) (record_main-Ends Bad r d s)
      (λ d' n. forget-Next id d' n.0)
recorded-Ends Bad id request r d s false = record_resource-Ends Bad request r d s

erased-Next :
    (id : Bytes) (d : TrackerData)
    → IsSound d
    → Next d (record d { active_requests = erase_active id d.active_requests })
erased-Next id d s = (
  record {
    held = All-keep _ (λ e. not (e.0 =? id)) d.active_requests s.held;
    completed = s.completed;
    started = s.started;
    chain = s.chain;
    redirects = s.redirects;
  },
  quiet d _ (refl, refl, refl, refl, refl, refl) (λ h. h) (λ h. h),
)

-- A redirect has no status.
abbrev pub LacksStatus : Option NetworkResponse → Type 0
LacksStatus none = ⊥
LacksStatus (some r) = r.status ≡ none

track-Next :
    (e : RequestWillBeSent) (url : Bytes) (is_main : Bool) (d : TrackerData)
    → (is_main ≡ true → d.seed_navigation_started ≡ true)
    → IsSound d
    → Next d (track e url is_main d)
unfolding track
track-Next e url false d b s =
    entered-Next e.request_id (tracked_request e url false) d (λ h. absurd (false≢true h)) s
track-Next e url true d b s =
    let n =
      entered-Next e.request_id (tracked_request e url true) d
        (λ h. (b refl, λ k. absurd (false≢true k))) s in
    (
      record {
        held = n.0.held;
        completed = s.completed;
        started = λ h. b refl;
        chain = push_chain-NoRepeats url d.redirect_chain s.chain;
        redirects = s.redirects;
      },
      grows d _ (refl, refl, refl) (λ h. h) (λ h. h) (push_chain-more url d.redirect_chain)
          ([], sym (append-nil d.main_document_redirects))
          ([], sym (append-nil d.redirected_resources)),
    )

-- A main document is requested before the navigation began, or a redirect has no status.
abbrev pub IsForbidden : RequestWillBeSent → TrackerData → Type 0
IsForbidden e d =
    ((is_main_frame_document_request d e ≡ true) × (d.seed_navigation_started ≡ false))
    ⊎ LacksStatus e.redirect_response

abbrev Admits : RequestWillBeSent → TrackerData → Outcome Admission → Type 0
Admits e d (returns ignored) = Unit
Admits e d (returns (admitted d' is_main)) =
    Next d d' × (is_main ≡ true → d'.seed_navigation_started ≡ true)
Admits e d (aborts why) =
    (is_main_frame_document_request d e ≡ true) × (d.seed_navigation_started ≡ false)

loader-Next :
    (o : Option Bytes) (d : TrackerData) → IsSound d → Next d (record d { main_loader_id = o })
loader-Next o d s = (
  record {
    held = s.held;
    completed = s.completed;
    started = s.started;
    chain = s.chain;
    redirects = s.redirects;
  },
  quiet d (record d { main_loader_id = o }) (refl, refl, refl, refl, refl, refl) (λ h. h) (λ h. h),
)

choice-Admits :
    (e : RequestWillBeSent) (d : TrackerData) (o : Option Bytes) (why : Bytes)
    (is_main started foreign : Bool)
    → is_main_frame_document_request d e ≡ is_main
    → d.seed_navigation_started ≡ started
    → IsSound d
    → Admits e d (
        if is_main
        then if started
          then returns
              (if foreign then ignored else admitted (record d { main_loader_id = o }) true)
          else aborts why
        else returns (admitted d false))
choice-Admits e d o why true true true m b s = tt
choice-Admits e d o why true true false m b s = (loader-Next o d s, λ h. b)
choice-Admits e d o why true false foreign m b s = (m, b)
choice-Admits e d o why false started foreign m b s =
    ((s, Extends_refl d), λ h. absurd (false≢true h))

admit-Admits : (e : RequestWillBeSent) (d : TrackerData) → IsSound d → Admits e d (admit e d)
unfolding admit
admit-Admits e d s = choice-Admits e d _ _ _ _ _ refl refl s

forbidden :
    (e : RequestWillBeSent) (now : ℕ) (d : TrackerData)
    → (is_main_frame_document_request (seen e.request_id now d) e ≡ true)
      × (d.seed_navigation_started ≡ false)
    → IsForbidden e d
unfolding is_main_frame_document_request
forbidden e now d h = inl h

module _ {Url : Type 0} (lib : UrlLib Url) where
  finalize-Ends :
      (Bad : Type 0) (id : Bytes) (response : NetworkResponse) (timestamp : Bytes)
      (status : Option ℤ) (found : Option TrackedRequest) (d : TrackerData)
      → (status ≡ none → Bad)
      → IsSound d
      → Ends Bad d (finalize_redirect_request lib id response timestamp status found d)
  unfolding finalize_redirect_request
  finalize-Ends Bad id response timestamp none found d bad s = bad refl
  finalize-Ends Bad id response timestamp (some status) none d bad s = fail_with-Next _ d s
  finalize-Ends Bad id response timestamp (some status) (some r) d bad s =
      let (s', x) = erased-Next id d s in
      Ends-later Bad d _ _ x (
        recorded-Ends Bad id (redirected lib response status timestamp r) _ _ s'
          r.is_tracked_main_document)

  redirect-Ends :
      (Bad : Type 0) (id timestamp : Bytes) (response : Option NetworkResponse) (d : TrackerData)
      → (LacksStatus response → Bad)
      → IsSound d
      → Ends Bad d (finalize_if_redirected lib id timestamp response d)
  redirect-Ends Bad id timestamp none d bad s = (s, Extends_refl d)
  redirect-Ends Bad id timestamp (some r) d bad s =
      finalize-Ends Bad id r timestamp r.status (find_active id d.active_requests) d bad s

  admitted-Ends :
      (e : RequestWillBeSent) (timestamp : Bytes) (d d0 : TrackerData) (a : Outcome Admission)
      → IsSound d
      → ((is_main_frame_document_request d e ≡ true) × (d.seed_navigation_started ≡ false)
          → IsForbidden e d0)
      → Admits e d a
      → Ends (IsForbidden e d0) d (a >>= λ x. after_admission lib e timestamp d x)
  admitted-Ends e timestamp d d0 (aborts why) s bad h = bad h
  admitted-Ends e timestamp d d0 (returns ignored) s bad h = (s, Extends_refl d)
  admitted-Ends e timestamp d d0 (returns (admitted d' is_main)) s bad (n, b) =
      let url = canonical_request_url lib e (find_active e.request_id d'.active_requests) in
      let first = finalize_if_redirected lib e.request_id timestamp e.redirect_response d' in
      let next : TrackerData → Outcome TrackerData = λ x. returns (track e url is_main x) in
      Ends-later (IsForbidden e d0) d d' (first >>= next) n.1 (
        Ends-bind (IsForbidden e d0) d' first next
          (redirect-Ends (IsForbidden e d0) e.request_id timestamp e.redirect_response d' inr n.0)
          (λ d'' m. track-Next e url is_main d'' (λ h. m.1.navigation ∙ b h) m.0))

  pub handle_request_will_be_sent-Ends :
      (e : RequestWillBeSent) (now : ℕ) (timestamp : Bytes) (d : TrackerData)
      → IsSound d
      → Ends (IsForbidden e d) d (handle_request_will_be_sent lib e now timestamp d)
  unfolding handle_request_will_be_sent
  handle_request_will_be_sent-Ends e now timestamp d s =
      let d' = seen e.request_id now d in
      let n = seen-Next e.request_id now d s in
      let o = admit e d' >>= λ a. after_admission lib e timestamp d' a in
      let r : Ends (IsForbidden e d) d o = Ends-later _ d d' o n.1 (
        admitted-Ends e timestamp d' d (admit e d') n.0 (forbidden e now d)
          (admit-Admits e d' n.0)) in
      elim (Bool-cases (starts_with (codes "data:") e.url)) [
        | inl h ↦
            subst (λ t. Ends (IsForbidden e d) d (if t then returns d else o)) (sym h)
              (s, Extends_refl d)
        | inr h ↦ subst (λ t. Ends (IsForbidden e d) d (if t then returns d else o)) (sym h) r
      ]
