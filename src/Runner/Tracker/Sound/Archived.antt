-- ===== src/Runner/Tracker/Sound/Archived.antt =====
-- An exchange can be made once the main document has come, and from then on.
use webshot.Base.{
  ◌≡◌, refl, sym, ap, ◌∙◌, ◌⊎◌, inl, inr, Bool, true, false, ◌||◌, Bool-cases, Option-cases,
  &&-true, List, [], ◌∷◌, ◌++◌, Option, none, some, arith,
}
use webshot.Base.Bytes.{Bytes, ◌=?◌, =?_iff}
use webshot.Base.Outcome.{returns}
use webshot.Artifacts.{CapturedExchange, CapturedResource, CapturedMainDocumentRedirect}
use webshot.Runner.Urls.{UrlLib}
use webshot.Runner.State.{
  TrackedRequest, TrackerData, MainResponse, CdpEvent, is_some, has_response, or_value,
}
use webshot.Runner.Tracker.{handle_events}
use webshot.Runner.Tracker.Exchange.{
  active_main_request, has_loaded_response, has_main_document_or_error, response_in, first_some,
  at_url, select_main_response, make_redirect_chain_for_exchange, exchange_of, make_exchange,
}
use webshot.Runner.Tracker.Sound.{NoRepeats, same_redirect, IsCompleted, IsSound}
use webshot.Runner.Tracker.Sound.Recorded.{Records}
use webshot.Runner.Tracker.Sound.Run.{HasForbidden, handle_events-IsSound}

-- One of the two is chosen, and the one for the URL where there is one.
abbrev pub IsChosen : Bytes → Option MainResponse → Option MainResponse → MainResponse → Type 0
IsChosen final_url completed active m =
    ((completed ≡ some m) ⊎ (active ≡ some m))
    × ((k : MainResponse)
        → (completed ≡ some k) ⊎ (active ≡ some k)
        → k.request_url ≡ final_url
        → m.request_url ≡ final_url)

misses :
    (final_url : Bytes) (o : Option MainResponse)
    → at_url final_url o ≡ none
    → (k : MainResponse) → o ≡ some k
    → k.request_url ≡ final_url
    → ⊥
misses final_url none h k e u = cc
misses final_url (some c) h k e u =
    let same : c ≡ k = cc in
    ground (
      arith,
      h,
      (=?_iff c.request_url final_url).1 (ap (λ (x : MainResponse). x.request_url) same ∙ u),
    )

hits :
    (final_url : Bytes) (o : Option MainResponse) (m : MainResponse)
    → at_url final_url o ≡ some m
    → (o ≡ some m) × (m.request_url ≡ final_url)
hits final_url none m h = absurd (cc)
hits final_url (some c) m h = elim (Bool-cases (c.request_url =? final_url)) [
  | inl e ↦
      let same : c ≡ m = ground (arith, h, e) in
      (
        ap some same,
        sym (ap (λ (x : MainResponse). x.request_url) same) ∙ (=?_iff c.request_url final_url).0 e,
      )
  | inr e ↦ absurd (ground (arith, h, e))
]

one_of :
    (completed active : Option MainResponse)
    → (is_some completed || is_some active) ≡ true
    → (m : MainResponse) × (first_some completed active ≡ some m)
      × ((completed ≡ some m) ⊎ (active ≡ some m))
one_of none none h = absurd (cc)
one_of (some c) active h = (c, refl, inl refl)
one_of none (some a) h = (a, refl, inr refl)

neither :
    (final_url : Bytes) (completed active : Option MainResponse)
    → at_url final_url completed ≡ none
    → at_url final_url active ≡ none
    → (k : MainResponse) → (completed ≡ some k) ⊎ (active ≡ some k)
    → k.request_url ≡ final_url
    → ⊥
neither final_url completed active e f k (inl i) u = misses final_url completed e k i u
neither final_url completed active e f k (inr i) u = misses final_url active f k i u

chosen :
    (final_url : Bytes) (completed active : Option MainResponse)
    → (is_some completed || is_some active) ≡ true
    → (m : MainResponse) × (first_some
          (at_url final_url completed)
          (first_some (at_url final_url active) (first_some completed active))
        ≡ some m)
      × IsChosen final_url completed active m
chosen final_url completed active h = elim (Option-cases (at_url final_url completed)) [
  | inr (m, e) ↦ let (p, u) = hits final_url completed m e in (m, rw e refl, (inl p, λ k i v. u))
  | inl e ↦ elim (Option-cases (at_url final_url active)) [
    | inr (m, f) ↦
        let (p, u) = hits final_url active m f in (m, rw (e, f) refl, (inr p, λ k i v. u))
    | inl f ↦
        let (m, q, i) = one_of completed active h in
        (m, rw (e, f, q) refl, (i, λ k j v. absurd (neither final_url completed active e f k j v)))
  ]
]

-- What an exchange holds: the status, the message, the headers and the time of the response, the
-- redirects, the chain and the seed that the tracker has, and what it is given.
abbrev pub Holds :
    MainResponse
    → Bytes
    → Option Bytes
    → Bytes
    → List CapturedResource
    → TrackerData
    → CapturedExchange
    → Type 0
Holds m final_url title body resources d x =
    (x.status_code ≡ m.status_code)
    × (x.status_message ≡ m.status_message)
    × (x.headers ≡ m.headers)
    × (x.timestamp ≡ m.timestamp)
    × (x.main_document_redirects ≡ d.main_document_redirects)
    × ((x.redirect_chain ≡ d.redirect_chain)
        ⊎ ((d.redirect_chain ≡ []) × (x.redirect_chain ≡ final_url ∷ [])))
    × ((d.seed_navigation_url ≡ some x.seed_url)
        ⊎ ((d.seed_navigation_url ≡ none) × (x.seed_url ≡ final_url)))
    × (x.page_id ≡ d.page_id)
    × (x.final_url ≡ final_url)
    × (x.title ≡ title)
    × (x.body ≡ body)
    × (x.resources ≡ resources)

-- An exchange is made, from a response of the main document, and by a response for the URL where
-- there is one; it holds that response, and the redirects and the chain that the tracker has.
abbrev pub Makes : Bytes → Option Bytes → Bytes → List CapturedResource → TrackerData → Type 0
Makes final_url title body resources d =
    (m : MainResponse) × (x : CapturedExchange) × (make_exchange final_url title body resources d
      ≡ returns x)
    × Holds m final_url title body resources d x
    × IsChosen final_url (response_in d.completed_main_request)
        (response_in (active_main_request d)) m

chain_cases :
    (chain : List Bytes) (url : Bytes)
    → (make_redirect_chain_for_exchange chain url ≡ chain)
      ⊎ ((chain ≡ []) × (make_redirect_chain_for_exchange chain url ≡ url ∷ []))
chain_cases [] url = inr (refl, refl)
chain_cases (u ∷ us) url = inl refl

seed_cases :
    (seed : Option Bytes) (url : Bytes)
    → (seed ≡ some (or_value seed url)) ⊎ ((seed ≡ none) × (or_value seed url ≡ url))
seed_cases none url = inr (refl, refl)
seed_cases (some s) url = inl refl

or_left : (a b : Bool) → a ≡ true → (a || b) ≡ true
or_left a b h = ground arith

or_right : (a b : Bool) → b ≡ true → (a || b) ≡ true
or_right a b h = ground arith

or_rest : (a b c : Bool) → a ≡ false → b ≡ false → (a || b || c) ≡ true → c ≡ true
or_rest a b c h k e = ground arith

made :
    (final_url : Bytes) (title : Option Bytes) (body : Bytes) (resources : List CapturedResource)
    (d : TrackerData) (m : MainResponse)
    → select_main_response final_url d ≡ some m
    → make_exchange final_url title body resources d
      ≡ returns (exchange_of m final_url title body resources d)
unfolding make_exchange
made final_url title body resources d m h = rw (make_exchange, h) refl

answered-Makes :
    (final_url : Bytes) (title : Option Bytes) (body : Bytes) (resources : List CapturedResource)
    (d : TrackerData)
    → (is_some (response_in d.completed_main_request)
        || is_some (response_in (active_main_request d)))
      ≡ true
    → Makes final_url title body resources d
unfolding select_main_response
answered-Makes final_url title body resources d h =
    let (m, e, c) =
      chosen final_url (response_in d.completed_main_request) (response_in (active_main_request d))
        h in
    (
      m,
      exchange_of m final_url title body resources d,
      made final_url title body resources d m e,
      (
        refl,
        refl,
        refl,
        refl,
        refl,
        chain_cases d.redirect_chain final_url,
        seed_cases d.seed_navigation_url final_url,
        refl,
        refl,
        refl,
        refl,
        refl,
      ),
      c,
    )

has_response_in :
    (o : Option TrackedRequest) → has_loaded_response o ≡ true → is_some (response_in o) ≡ true
has_response_in none h = absurd (cc)
has_response_in (some r) h = (&&-true (has_response r) r.loaded h).0

-- Where the tracker tells that the main document has come, and no error is noted, an exchange is made.
has_main_document_or_error-Makes :
    (final_url : Bytes) (title : Option Bytes) (body : Bytes) (resources : List CapturedResource)
    (d : TrackerData)
    → has_main_document_or_error d ≡ true
    → d.main_request_error ≡ none
    → Makes final_url title body resources d
unfolding has_main_document_or_error
has_main_document_or_error-Makes final_url title body resources d h n =
    answered-Makes final_url title body resources d
      (elim (Bool-cases (has_loaded_response d.completed_main_request)) [
        | inl e ↦ or_left _ _ (has_response_in d.completed_main_request e)
        | inr e ↦ or_right _ _ (
            has_response_in (active_main_request d)
              (or_rest (is_some d.main_request_error) _ _ (ap is_some n) e h))
      ])

completed_response :
    (o : Option TrackedRequest) (id : Option Bytes)
    → IsCompleted o id
    → is_some o ≡ true
    → is_some (response_in o) ≡ true
completed_response none id c h = absurd (cc)
completed_response (some r) none c h = absurd c
completed_response (some r) (some id) c h = c.1

-- Once the main document has come, an exchange is made whatever events come after it, unless one of
-- them must not come. It has a response of the main document, with its status and headers, and the
-- redirects that the tracker has then: those that it had before the events come first among them, and
-- each event of the page that ends a tracked request of the main document with a redirect, and is not
-- left out, has recorded it, unless it is the one that was recorded last.
pub handle_events-Makes :
    {Url : Type 0} (lib : UrlLib Url) (es : List CdpEvent) (d : TrackerData) (final_url : Bytes)
    (title : Option Bytes) (body : Bytes) (resources : List CapturedResource)
    → IsSound d
    → is_some d.completed_main_request ≡ true
    → ((d' : TrackerData) × (handle_events lib es d ≡ returns d')
        × Makes final_url title body resources d'
        × ((l : List CapturedMainDocumentRedirect) × (d'.main_document_redirects
              ≡ d.main_document_redirects ++ l)
            × NoRepeats same_redirect d'.main_document_redirects)
        × Records lib es d d')
      ⊎ HasForbidden lib es d
handle_events-Makes lib es d final_url title body resources s c =
    elim (handle_events-IsSound lib es d s) [
      | inr f ↦ inr f
      | inl (d', e, t, x, w) ↦
          let (l, q) = x.more_redirects in
          inl (
            d',
            e,
            answered-Makes final_url title body resources d' (
                or_left _ _ (
                  completed_response d'.completed_main_request d'.main_response_request_id
                    t.completed (x.completes c))),
            (l, q, t.redirects),
            w,
          )
    ]
