-- ===== src/Runner/Tracker/Sound.antt =====
-- What holds of the state of a tracker, and what its events leave as it is.
pub mod Parts
pub mod Events
pub mod Run
pub mod Archived
pub mod Redirects
pub mod Recorded
use mathlib.Core.Path.{subst}
use mathlib.Core.List.{append_assoc, append-nil}
use webshot.Base.{
  ℕ, ◌≡◌, refl, sym, ap, ◌∙◌, ◌⊎◌, inl, inr, Bool, true, false, not, ◌&&◌, if◌then◌else◌,
  Bool-cases, Option-cases, List, [], ◌∷◌, ◌++◌, keep, last, All, All-keep, All-mono, Option, none,
  some, Expected, ok, err, arith,
}
use webshot.Base.Bytes.{Bytes, ◌=?◌, starts_with, codes}
use webshot.Base.Outcome.{Outcome, returns, aborts, ◌>>=◌}
use webshot.Crawl.Fallback.{ℤ}
use webshot.Artifacts.{CapturedMainDocumentRedirect, CapturedResource}
use webshot.Runner.Urls.{UrlLib}
use webshot.Runner.State.{
  TrackedRequest, TrackerData, MainResponse, NetworkResponse, RequestWillBeSent, ResponseReceived,
  EventKind, CdpEvent, Active, find_active, put_active, erase_active, response_of, has_response,
  is_some, is, fail_with,
}
use webshot.Runner.Requests.{eq_int, push_chain}

-- Held among the active requests: a main document is one of a navigation that was begun, and where
-- it has a response, one was kept.
abbrev pub IsHeld : Bool → Bool → TrackedRequest → Type 0
IsHeld started completed r =
    r.is_tracked_main_document ≡ true
    → (started ≡ true) × (has_response r ≡ true → completed ≡ true)

-- The request that is kept as the main document's is one, and has a response.
abbrev pub IsCompleted : Option TrackedRequest → Option Bytes → Type 0
IsCompleted none none = Unit
IsCompleted (some r) (some id) = (r.is_tracked_main_document ≡ true) × (has_response r ≡ true)
IsCompleted none (some id) = ⊥
IsCompleted (some r) none = ⊥

-- No two neighbours are equal.
abbrev pub NoRepeats {ℓ} : {A : Type ℓ} → (A → A → Bool) → List A → Type 0
NoRepeats eq [] = Unit
NoRepeats eq (x ∷ []) = Unit
NoRepeats eq (x ∷ y ∷ ys) = (eq x y ≡ false) × NoRepeats eq (y ∷ ys)

abbrev pub same_redirect : CapturedMainDocumentRedirect → CapturedMainDocumentRedirect → Bool
same_redirect p q = p.redirect_url =? q.redirect_url && eq_int p.status_code q.status_code

pub record IsSound (d : TrackerData) : Type 0 where
  pub held :
      All
        (λ e. IsHeld d.seed_navigation_started (is_some d.completed_main_request) e.1)
        d.active_requests
  pub completed : IsCompleted d.completed_main_request d.main_response_request_id
  pub started : is_some d.main_request_id ≡ true → d.seed_navigation_started ≡ true
  pub chain : NoRepeats ◌=?◌ d.redirect_chain
  pub redirects : NoRepeats same_redirect d.main_document_redirects

-- What is recorded only grows, and what a tracker knows of its page stays.
pub record Extends (d d' : TrackerData) : Type 0 where
  pub page : d'.page_id ≡ d.page_id
  pub seed : d'.seed_navigation_url ≡ d.seed_navigation_url
  pub navigation : d'.seed_navigation_started ≡ d.seed_navigation_started
  pub completes : is_some d.completed_main_request ≡ true → is_some d'.completed_main_request ≡ true
  pub more_chain : (l : List Bytes) × (d'.redirect_chain ≡ d.redirect_chain ++ l)
  pub more_redirects :
      (l : List CapturedMainDocumentRedirect) × (d'.main_document_redirects
        ≡ d.main_document_redirects ++ l)
  pub more_resources :
      (l : List CapturedResource) × (d'.redirected_resources ≡ d.redirected_resources ++ l)
  pub error : is_some d.main_request_error ≡ true → is_some d'.main_request_error ≡ true

abbrev pub Next : TrackerData → TrackerData → Type 0
Next d d' = IsSound d' × Extends d d'

more_refl {ℓ} : {A : Type ℓ} (xs : List A) → (l : List A) × (xs ≡ xs ++ l)
more_refl xs = ([], sym (append-nil xs))

more_trans {ℓ} :
    {A : Type ℓ} (xs ys zs : List A)
    → ((l : List A) × (ys ≡ xs ++ l))
    → ((l : List A) × (zs ≡ ys ++ l))
    → (l : List A) × (zs ≡ xs ++ l)
more_trans xs ys zs (l, e) (k, f) = (l ++ k, f ∙ ap (λ u. u ++ k) e ∙ append_assoc xs l k)

pub Extends_refl : (d : TrackerData) → Extends d d
Extends_refl d = record {
  page = refl;
  seed = refl;
  navigation = refl;
  completes = λ h. h;
  more_chain = more_refl d.redirect_chain;
  more_redirects = more_refl d.main_document_redirects;
  more_resources = more_refl d.redirected_resources;
  error = λ h. h;
}

pub Extends_trans : (a b c : TrackerData) → Extends a b → Extends b c → Extends a c
Extends_trans a b c p q = record {
  page = q.page ∙ p.page;
  seed = q.seed ∙ p.seed;
  navigation = q.navigation ∙ p.navigation;
  completes = λ h. q.completes (p.completes h);
  more_chain =
      more_trans a.redirect_chain b.redirect_chain c.redirect_chain p.more_chain q.more_chain;
  more_redirects =
      more_trans a.main_document_redirects b.main_document_redirects c.main_document_redirects
        p.more_redirects q.more_redirects;
  more_resources =
      more_trans a.redirected_resources b.redirected_resources c.redirected_resources
        p.more_resources q.more_resources;
  error = λ h. q.error (p.error h);
}

pub put_active-All :
    (P : TrackedRequest → Type 0) (id : Bytes) (r : TrackedRequest) (es : Active)
    → P r
    → All (λ e. P e.1) es
    → All (λ e. P e.1) (put_active id r es)
unfolding put_active
put_active-All P id r [] p h = (p, tt)
put_active-All P id r (e ∷ es) p h = elim (Bool-cases (e.0 =? id)) [
  | inl q ↦ rw q (p, h.1)
  | inr q ↦ rw q (h.0, put_active-All P id r es p h.1)
]

pub find_active-All :
    (P : TrackedRequest → Type 0) (id : Bytes) (r : TrackedRequest) (es : Active)
    → All (λ e. P e.1) es
    → find_active id es ≡ some r
    → P r
unfolding find_active
find_active-All P id r [] h e = absurd (cc)
find_active-All P id r (x ∷ es) h e = elim (Bool-cases (x.0 =? id)) [
  | inl q ↦ subst P (let f : x.1 ≡ r = ground (arith, rw q at e) in f) h.0
  | inr q ↦ find_active-All P id r es h.1 (rw q at e)
]

pub NoRepeats-concat {ℓ} :
    {A : Type ℓ} (eq : A → A → Bool) (xs : List A) (x : A)
    → NoRepeats eq xs
    → ((y : A) → last xs ≡ some y → eq y x ≡ false)
    → NoRepeats eq (xs ++ x ∷ [])
NoRepeats-concat eq [] x h k = tt
NoRepeats-concat eq (y ∷ []) x h k = (k y refl, tt)
NoRepeats-concat eq (y ∷ z ∷ xs) x h k = (h.0, NoRepeats-concat eq (z ∷ xs) x h.1 k)

pub push_chain-NoRepeats :
    (url : Bytes) (xs : List Bytes) → NoRepeats ◌=?◌ xs → NoRepeats ◌=?◌ (push_chain url xs)
push_chain-NoRepeats url xs h = elim (Bool-cases (is (last xs) url)) [
  | inl e ↦ rw e h
  | inr e ↦ rw e (NoRepeats-concat ◌=?◌ xs url h (λ y q. rw q at e))
]

pub push_chain-more :
    (url : Bytes) (xs : List Bytes) → (l : List Bytes) × (push_chain url xs ≡ xs ++ l)
push_chain-more url xs = elim (Bool-cases (is (last xs) url)) [
  | inl e ↦ ([], rw e (sym (append-nil xs)))
  | inr e ↦ (url ∷ [], rw e refl)
]
