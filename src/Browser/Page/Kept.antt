-- ===== src/Browser/Page/Kept.antt =====
-- What the state of a page says of the ids that its session holds, and that no operation aborts.
use webshot.Base.{◌≡◌, refl, sym, ap, ◌∙◌, Bool, true, false, Option, none, some, Expected, ok, err}
use webshot.Base.Bytes.{Bytes}
use webshot.Base.Outcome.{Outcome, returns, aborts}
use webshot.Browser.Page.{
  State, idle, browser_context_created, target_created, attached, base_domains_enabled, detached,
  disposed, stopped, stop, PageSession, Done, ◌then_do◌, mark, StopReplies, detach_session,
  dispose_browser_context, stop_session, stop_in_phases, if_some,
}

abbrev pub has {ℓ} : {A : Type ℓ} → Option A → Bool
has none = false
has (some a) = true

abbrev pub has_context : State → Bool
has_context idle = false
has_context disposed = false
has_context stopped = false
has_context _ = true

abbrev pub has_target : State → Bool
has_target browser_context_created = false
has_target s = has_context s

abbrev pub has_session : State → Bool
has_session attached = true
has_session base_domains_enabled = true
has_session _ = false

-- The session holds the ids that its state says, and no other.
pub record IsKept (p : PageSession) : Type 0 where
  pub context : has p.browser_context_id ≡ has_context p.lifecycle
  pub target : has p.target_id ≡ has_target p.lifecycle
  pub id : has p.session_id ≡ has_session p.lifecycle
  pub session : has p.session ≡ has_session p.lifecycle

-- The operation returns; it leaves a session that is kept right, in a state of the first kind after
-- success, and of the second kind after an error.
abbrev pub Ends : (State → Type 0) → (State → Type 0) → Outcome Done → Type 0
Ends Good Bad (aborts why) = ⊥
Ends Good Bad (returns (p, ok u)) = IsKept p × Good p.lifecycle
Ends Good Bad (returns (p, err e)) = IsKept p × Bad p.lifecycle

abbrev pub Any : State → Type 0
Any s = Unit

pub then_do-Ends :
    (G H B : State → Type 0) (o : Outcome Done) (next : PageSession → Outcome Done)
    → Ends G B o
    → ((p : PageSession) → IsKept p → G p.lifecycle → Ends H B (next p))
    → Ends H B (o then_do next)
then_do-Ends G H B (aborts why) next h k = h
then_do-Ends G H B (returns (p, ok u)) next h k = k p h.0 h.1
then_do-Ends G H B (returns (p, err e)) next h k = h

module _ (ctx tgt sid : Option Bytes) (ses : Option (Bytes × Bytes)) (l : State) where
  abbrev pub session_of : PageSession
  session_of = record {
    lifecycle = l;
    browser_context_id = ctx;
    target_id = tgt;
    session_id = sid;
    session = ses;
  }

abbrev Quiet : State → Type 0
Quiet s = has_session s ≡ false

abbrev Closed : State → Type 0
Closed s = has_context s ≡ false

detached_from :
    (ctx tgt sid : Option Bytes) (ses : Option (Bytes × Bytes)) (l : State)
    (reply : Expected (Unit {0}) Bytes)
    → IsKept (session_of ctx tgt sid ses l)
    → Ends Quiet Any (detach_session reply (session_of ctx tgt sid ses l))
unfolding detach_session
detached_from ctx tgt none ses l reply k = (k, sym k.id)
detached_from ctx tgt (some id) ses l (err e) k = (k, tt)
detached_from ctx tgt (some id) ses attached (ok u) k =
    (record { context = k.context; target = k.target; id = refl; session = refl }, refl)
detached_from ctx tgt (some id) ses base_domains_enabled (ok u) k =
    (record { context = k.context; target = k.target; id = refl; session = refl }, refl)
detached_from ctx tgt (some id) ses _ (ok u) k = cc k.id

disposed_from :
    (ctx tgt sid : Option Bytes) (ses : Option (Bytes × Bytes)) (l : State)
    (reply : Expected (Unit {0}) Bytes)
    → IsKept (session_of ctx tgt sid ses l)
    → Quiet l
    → Ends Closed Any (dispose_browser_context reply (session_of ctx tgt sid ses l))
unfolding dispose_browser_context
disposed_from none tgt sid ses l reply k q = (k, sym k.context)
disposed_from (some id) tgt sid ses l (err e) k q = (k, tt)
disposed_from (some id) tgt sid ses browser_context_created (ok u) k q =
    (record { context = refl; target = refl; id = k.id; session = k.session }, refl)
disposed_from (some id) tgt sid ses target_created (ok u) k q =
    (record { context = refl; target = refl; id = k.id; session = k.session }, refl)
disposed_from (some id) tgt sid ses detached (ok u) k q =
    (record { context = refl; target = refl; id = k.id; session = k.session }, refl)
disposed_from (some id) tgt sid ses attached (ok u) k q = cc q
disposed_from (some id) tgt sid ses base_domains_enabled (ok u) k q = cc q
disposed_from (some id) tgt sid ses _ (ok u) k q = cc k.context

abbrev pub Stopped : State → Type 0
Stopped s = s ≡ stopped

mark-Stopped_at :
    (why : Bytes) (ctx tgt sid : Option Bytes) (ses : Option (Bytes × Bytes)) (l : State)
    → IsKept (session_of ctx tgt sid ses l)
    → Closed l
    → Ends Stopped Any (mark stop why (session_of ctx tgt sid ses l))
unfolding mark
mark-Stopped_at why ctx tgt sid ses idle k c =
    (record { context = k.context; target = k.target; id = k.id; session = k.session }, refl)
mark-Stopped_at why ctx tgt sid ses disposed k c =
    (record { context = k.context; target = k.target; id = k.id; session = k.session }, refl)
mark-Stopped_at why ctx tgt sid ses stopped k c =
    (record { context = k.context; target = k.target; id = k.id; session = k.session }, refl)
mark-Stopped_at why ctx tgt sid ses _ k c = cc c

detach_session-Ends :
    (reply : Expected (Unit {0}) Bytes) (p : PageSession)
    → IsKept p
    → Ends Quiet Any (detach_session reply p)
detach_session-Ends reply p k =
    detached_from p.browser_context_id p.target_id p.session_id p.session p.lifecycle reply k

dispose_browser_context-Ends :
    (reply : Expected (Unit {0}) Bytes) (p : PageSession)
    → IsKept p
    → Quiet p.lifecycle
    → Ends Closed Any (dispose_browser_context reply p)
dispose_browser_context-Ends reply p k q =
    disposed_from p.browser_context_id p.target_id p.session_id p.session p.lifecycle reply k q

mark-Stopped :
    (why : Bytes) (p : PageSession)
    → IsKept p
    → Closed p.lifecycle
    → Ends Stopped Any (mark stop why p)
mark-Stopped why p k c =
    mark-Stopped_at why p.browser_context_id p.target_id p.session_id p.session p.lifecycle k c

-- `Stop` may be called in any state that a session can be in, also a second time after an error:
-- it does not abort, and where it succeeds the page is stopped and nothing is held any more.
pub stop_session-Ends :
    (r : StopReplies) (p : PageSession) → IsKept p → Ends Stopped Any (stop_session r p)
unfolding stop_session
stop_session-Ends r p k =
    then_do-Ends Closed Stopped Any
      (detach_session r.detached p then_do dispose_browser_context r.disposed) _
      (then_do-Ends Quiet Closed Any (detach_session r.detached p) _
        (detach_session-Ends r.detached p k)
        (λ q kq quiet. dispose_browser_context-Ends r.disposed q kq quiet))
      (λ q kq closed. mark-Stopped _ q kq closed)

if_some-Ends :
    (G : State → Type 0) (o : Option Bytes) (run : PageSession → Outcome Done) (p : PageSession)
    → IsKept p
    → (o ≡ none → G p.lifecycle)
    → Ends G Any (run p)
    → Ends G Any (if_some o run p)
if_some-Ends G none run p k idle_ h = (k, idle_ refl)
if_some-Ends G (some id) run p k idle_ h = h

pub stop_in_phases-Ends :
    (r : StopReplies) (p : PageSession) → IsKept p → Ends Stopped Any (stop_in_phases r p)
unfolding stop_in_phases
stop_in_phases-Ends r p k =
    then_do-Ends Closed Stopped Any
      (if_some p.session_id (detach_session r.detached) p then_do λ q.
        if_some q.browser_context_id (dispose_browser_context r.disposed) q)
      _
      (then_do-Ends Quiet Closed Any (if_some p.session_id (detach_session r.detached) p) _
        (if_some-Ends Quiet p.session_id (detach_session r.detached) p k (λ e. sym k.id ∙ ap has e)
          (detach_session-Ends r.detached p k))
        (λ q kq quiet.
          if_some-Ends Closed q.browser_context_id (dispose_browser_context r.disposed) q kq
            (λ e. sym kq.context ∙ ap has e) (dispose_browser_context-Ends r.disposed q kq quiet)))
      (λ q kq closed. stop_session-Ends r q kq)
