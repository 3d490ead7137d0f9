-- ===== src/Runner/Tracker/Sound/Redirects.antt =====
-- What it is to record a redirect, and the steps that record one or none.
use mathlib.Core.Bool.{false≢true}
use webshot.Base.{
  &&-true, inl, inr, ap, sym, ◌∙◌, arith, ℕ, ◌≡◌, refl, ◌⊎◌, Bool, true, false, not, ◌&&◌,
  if◌then◌else◌, Bool-cases, List, [], ◌∷◌, ◌++◌, last, Option, none, some, ok,
}
use webshot.Base.Bytes.{Bytes, ◌=?◌, =?_refl, codes, starts_with}
use webshot.Base.Outcome.{Outcome, returns, aborts, ◌>>=◌}
use webshot.Crawl.Fallback.{ℤ}
use webshot.Artifacts.{CapturedMainDocumentRedirect, CapturedResource}
use webshot.Runner.State.{
  TrackedRequest, TrackerData, MainResponse, NetworkResponse, RequestWillBeSent, EventKind,
  request_will_be_sent, CdpEvent, Active, find_active, has_response, is,
}
use webshot.Runner.Requests.{
  Admission, admitted, admit, seen, is_repeated, eq_int, main_document_redirect,
  record_main_document_redirect, record_resource_redirect, forget_main_request, track,
}
use webshot.Runner.Tracker.{handle_loading_finished, handle_loading_failed}

-- A request with the status of the redirect that ends it.
abbrev pub Redirected : Type 0
Redirected = Option (TrackedRequest × ℤ)

abbrev pub with_status : Option ℤ → Option TrackedRequest → Redirected
with_status (some status) (some r) = some (r, status)
with_status _ _ = none

abbrev pub redirected_request : Option NetworkResponse → Option TrackedRequest → Redirected
redirected_request none found = none
redirected_request (some response) found = with_status response.status found

abbrev pub if_admitted : Outcome Admission → Redirected → Redirected
if_admitted (returns (admitted d is_main)) r = r
if_admitted _ r = none

-- The request that an event of the page ends with a redirect: one that is tracked under the id of the
-- new request, which has the response of the redirect with it and is no request that is left out.
abbrev pub ended_by_kind : EventKind → ℕ → TrackerData → Redirected
ended_by_kind (request_will_be_sent (ok e)) now d =
    if starts_with (codes "data:") e.url
    then none
    else if_admitted (admit e (seen e.request_id now d))
        (redirected_request e.redirect_response (find_active e.request_id d.active_requests))
ended_by_kind _ now d = none

abbrev pub ended_by : CdpEvent → TrackerData → Redirected
ended_by event d =
    if is event.session_id d.session_id then ended_by_kind event.kind event.now d else none

-- The last redirect is this one: it is added, or it is last already and none is.
abbrev IsLast :
    CapturedMainDocumentRedirect
    → List CapturedMainDocumentRedirect
    → List CapturedMainDocumentRedirect
    → Type 0
IsLast p before after = ((after ≡ before) × (last before ≡ some p)) ⊎ (after ≡ before ++ p ∷ [])

-- The last redirect is of the request, with the status; or a resource is added that is of the request,
-- with the status. The other list stays as it is, and both do where no request ended.
abbrev RecordedAs : Bool → TrackedRequest → ℤ → TrackerData → TrackerData → Type 0
RecordedAs true r status d d' =
    (d'.redirected_resources ≡ d.redirected_resources)
    × ((p : CapturedMainDocumentRedirect) × IsLast p d.main_document_redirects
          d'.main_document_redirects
        × ((p.redirect_url =? r.request_url) ≡ true)
        × (eq_int p.status_code status ≡ true))
RecordedAs false r status d d' =
    (d'.main_document_redirects ≡ d.main_document_redirects)
    × ((x : CapturedResource) × (d'.redirected_resources ≡ d.redirected_resources ++ x ∷ [])
        × (x.resource_url ≡ r.request_url)
        × (x.method ≡ r.method)
        × (x.resource_type ≡ r.resource_type)
        × (x.status_code ≡ status))

abbrev pub Recorded : Redirected → TrackerData → TrackerData → Type 0
Recorded none d d' =
    (d'.main_document_redirects ≡ d.main_document_redirects)
    × (d'.redirected_resources ≡ d.redirected_resources)
Recorded (some (r, status)) d d' = RecordedAs r.is_tracked_main_document r status d d'

-- Where it returns, the result is one of these.
abbrev pub Yields : (TrackerData → Type 0) → Outcome TrackerData → Type 0
Yields P (returns d) = P d
Yields P (aborts why) = Unit

pub if_Recorded :
    (b : Bool) (d x y : TrackerData)
    → Recorded none d x
    → Recorded none d y
    → Recorded none d (if b then x else y)
if_Recorded true d x y h k = h
if_Recorded false d x y h k = k

pub finished-Recorded :
    (id : Bytes) (o : Option TrackedRequest) (d : TrackerData)
    → Recorded none d (handle_loading_finished id o d)
unfolding handle_loading_finished
finished-Recorded id none d = if_Recorded (is d.main_request_id id) d _ d (refl, refl) (refl, refl)
finished-Recorded id (some r) d =
    if_Recorded (r.is_tracked_main_document && has_response (record r { loaded = true })) d _ _
      (refl, refl) (refl, refl)

pub failed-Recorded :
    (id : Bytes) (text : Option Bytes) (o : Option TrackedRequest) (d : TrackerData)
    → Recorded none d (handle_loading_failed id text o d)
unfolding handle_loading_failed
failed-Recorded id text none d =
    if_Recorded (is d.main_request_id id) d _ d (refl, refl) (refl, refl)
failed-Recorded id text (some r) d =
    if_Recorded (r.is_tracked_main_document && not (has_response r)) d _ _ (refl, refl) (refl, refl)

IsLast-after :
    (p : CapturedMainDocumentRedirect) (xs ys zs : List CapturedMainDocumentRedirect)
    → zs ≡ ys
    → IsLast p xs ys
    → IsLast p xs zs
IsLast-after p xs ys zs e (inl (f, l)) = inl (e ∙ f, l)
IsLast-after p xs ys zs e (inr f) = inr (e ∙ f)

IsLast-before :
    (p : CapturedMainDocumentRedirect) (xs ys zs : List CapturedMainDocumentRedirect)
    → ys ≡ xs
    → IsLast p ys zs
    → IsLast p xs zs
IsLast-before p xs ys zs e (inl (f, l)) = inl (f ∙ e, ap last (sym e) ∙ l)
IsLast-before p xs ys zs e (inr f) = inr (f ∙ ap (λ t. t ++ p ∷ []) e)

-- Only the two lists matter.
same_as :
    (is_main : Bool) (r : TrackedRequest) (status : ℤ) (d d' d'' : TrackerData)
    → d''.main_document_redirects ≡ d'.main_document_redirects
    → d''.redirected_resources ≡ d'.redirected_resources
    → RecordedAs is_main r status d d'
    → RecordedAs is_main r status d d''
same_as true r status d d' d'' p q (k, (x, l, a, b)) = (
  q ∙ k,
  (
    x,
    IsLast-after x d.main_document_redirects d'.main_document_redirects d''.main_document_redirects
        p l,
    a,
    b,
  ),
)
same_as false r status d d' d'' p q (k, (x, l, a, b, c, e)) = (p ∙ k, (x, q ∙ l, a, b, c, e))

pub same_lists :
    (o : Redirected) (d d' d'' : TrackerData)
    → d''.main_document_redirects ≡ d'.main_document_redirects
    → d''.redirected_resources ≡ d'.redirected_resources
    → Recorded o d d'
    → Recorded o d d''
same_lists none d d' d'' p q (h, k) = (p ∙ h, q ∙ k)
same_lists (some (r, status)) d d' d'' p q h =
    same_as r.is_tracked_main_document r status d d' d'' p q h

from_as :
    (is_main : Bool) (r : TrackedRequest) (status : ℤ) (d x d' : TrackerData)
    → x.main_document_redirects ≡ d.main_document_redirects
    → x.redirected_resources ≡ d.redirected_resources
    → RecordedAs is_main r status x d'
    → RecordedAs is_main r status d d'
from_as true r status d x d' p q (k, (y, l, a, b)) = (
  k ∙ q,
  (
    y,
    IsLast-before y d.main_document_redirects x.main_document_redirects d'.main_document_redirects p
        l,
    a,
    b,
  ),
)
from_as false r status d x d' p q (k, (y, l, a, b, c, e)) =
    (k ∙ p, (y, l ∙ ap (λ t. t ++ y ∷ []) q, a, b, c, e))

from_lists :
    (o : Redirected) (d x d' : TrackerData)
    → x.main_document_redirects ≡ d.main_document_redirects
    → x.redirected_resources ≡ d.redirected_resources
    → Recorded o x d'
    → Recorded o d d'
from_lists none d x d' p q (h, k) = (h ∙ p, k ∙ q)
from_lists (some (r, status)) d x d' p q h =
    from_as r.is_tracked_main_document r status d x d' p q h

pub Yields-from :
    (r : Redirected) (d x : TrackerData) (o : Outcome TrackerData)
    → x.main_document_redirects ≡ d.main_document_redirects
    → x.redirected_resources ≡ d.redirected_resources
    → Yields (Recorded r x) o
    → Yields (Recorded r d) o
Yields-from r d x (aborts why) p q h = tt
Yields-from r d x (returns y) p q h = from_lists r d x y p q h

forget_main_request-redirects :
    (id : Bytes) (d : TrackerData) → Recorded none d (forget_main_request id d)
forget_main_request-redirects id d =
    if_Recorded (is d.main_request_id id) d _ d (refl, refl) (refl, refl)

pub track-Recorded :
    (e : RequestWillBeSent) (url : Bytes) (is_main : Bool) (d : TrackerData)
    → Recorded none d (track e url is_main d)
unfolding track
track-Recorded e url is_main d = if_Recorded is_main d _ _ (refl, refl) (refl, refl)

eq_int_refl : (n : ℤ) → eq_int n n ≡ true
eq_int_refl (ℤ.pos n) = ground arith
eq_int_refl (ℤ.negsuc n) = ground arith

abbrev answer_of : TrackedRequest → ℤ → Bytes → List (Bytes × Bytes) → Bytes → MainResponse
answer_of r status message headers timestamp = record {
  request_url = r.request_url;
  status_code = status;
  status_message = message;
  headers = headers;
  timestamp = timestamp;
}

repeated-Recorded :
    (r : TrackedRequest) (m : MainResponse) (d : TrackerData)
    (o : Option CapturedMainDocumentRedirect)
    → last d.main_document_redirects ≡ o
    → is_repeated eq_int o m ≡ true
    → m.request_url ≡ r.request_url
    → RecordedAs true r m.status_code d d
repeated-Recorded r m d none l h u = absurd (false≢true h)
repeated-Recorded r m d (some p) l h u =
    let (a, b) = &&-true (p.redirect_url =? m.request_url) (eq_int p.status_code m.status_code) h in
    (refl, (p, inl (refl, l), ap (λ t. p.redirect_url =? t) (sym u) ∙ a, b))

main-Recorded :
    (id : Bytes) (r : TrackedRequest) (m : MainResponse) (d : TrackerData)
    → m.request_url ≡ r.request_url
    → Yields
        (RecordedAs true r m.status_code d)
        (record_main_document_redirect (some m) d >>= λ d'. returns (forget_main_request id d'))
unfolding record_main_document_redirect
main-Recorded id r m d u =
    elim (Bool-cases (is_repeated eq_int (last d.main_document_redirects) m)) [
      | inl e ↦
          let (p, q) = forget_main_request-redirects id d in
          rw e (
            same_as true r m.status_code d d (forget_main_request id d) p q
              (repeated-Recorded r m d (last d.main_document_redirects) refl e u))
      | inr e ↦
          let d' : TrackerData = record d {
            main_document_redirects = d.main_document_redirects ++ main_document_redirect m ∷ [];
          } in
          let (p, q) = forget_main_request-redirects id d' in
          rw e (
            same_as true r m.status_code d d' (forget_main_request id d') p q (
              refl,
              (
                main_document_redirect m,
                inr refl,
                ap (λ t. t =? r.request_url) u ∙ =?_refl r.request_url,
                eq_int_refl m.status_code,
              ),
            ))
    ]

pub recorded-Yields :
    (id : Bytes) (r x : TrackedRequest) (m : MainResponse) (d : TrackerData) (es : Active)
    (is_main : Bool)
    → m.request_url ≡ r.request_url
    → x.method ≡ r.method
    → x.resource_type ≡ r.resource_type
    → Yields (RecordedAs is_main r m.status_code d) (
        if is_main
        then (record_main_document_redirect (some m) (record d { active_requests = es }) >>= λ d'.
            returns (forget_main_request id d'))
        else record_resource_redirect x (some m) (record d { active_requests = es }))
recorded-Yields id r x m d es true u h k =
    main-Recorded id r m (record d { active_requests = es }) u
recorded-Yields id r x m d es false u h k =
    unfold record_resource_redirect in (refl, (_, refl, u, h, k, refl))
