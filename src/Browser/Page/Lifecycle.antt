-- ===== src/Browser/Page/Lifecycle.antt =====
-- A page from its first call to its last: what a start and the stops that follow it do.
use webshot.Base.{
  ◌≡◌, refl, Bool, true, false, List, [], ◌∷◌, Option, none, some, Expected, ok, err,
}
use webshot.Base.Bytes.{Bytes}
use webshot.Base.Outcome.{Outcome, returns, aborts}
use webshot.Browser.Page.{
  State, idle, browser_context_created, target_created, attached, base_domains_enabled,
  enable_base_domains, PageSession, made, Reply, Done, ◌then_do◌, mark, StartReplies, StopReplies,
  make_browser_context, make_blank_target, attach_to_target, attach_fresh_target,
  enable_base_domains_of, send_session, stop_session, stop_in_phases,
}
use webshot.Browser.Page.Kept.{
  IsKept, Ends, Any, Stopped, session_of, then_do-Ends, stop_session-Ends, stop_in_phases-Ends,
}

abbrev At : State → State → Type 0
At l s = s ≡ l

context_from :
    (reply : Reply) (ctx tgt sid : Option Bytes) (ses : Option (Bytes × Bytes)) (l : State)
    → IsKept (session_of ctx tgt sid ses l)
    → l ≡ idle
    → Ends
        (At browser_context_created)
        Any
        (make_browser_context reply (session_of ctx tgt sid ses l))
unfolding make_browser_context
context_from (err e) ctx tgt sid ses l k h = (k, tt)
context_from (ok id) ctx tgt sid ses idle k h =
    (record { context = refl; target = k.target; id = k.id; session = k.session }, refl)
context_from (ok id) ctx tgt sid ses _ k h = cc h

target_from :
    (reply : Reply) (ctx tgt sid : Option Bytes) (ses : Option (Bytes × Bytes)) (l : State)
    → IsKept (session_of ctx tgt sid ses l)
    → l ≡ browser_context_created
    → Ends (At target_created) Any (make_blank_target reply (session_of ctx tgt sid ses l))
unfolding make_blank_target
target_from reply none tgt sid ses browser_context_created k h = cc k.context
target_from (err e) (some ctx) tgt sid ses browser_context_created k h = (k, tt)
target_from (ok id) (some ctx) tgt sid ses browser_context_created k h =
    (record { context = refl; target = refl; id = k.id; session = k.session }, refl)
target_from reply ctx tgt sid ses _ k h = cc h

attached_from :
    (reply : Reply) (registered : Expected (Unit {0}) Bytes) (ctx tgt sid : Option Bytes)
    (ses : Option (Bytes × Bytes)) (l : State)
    → IsKept (session_of ctx tgt sid ses l)
    → l ≡ target_created
    → Ends (At attached) Any (attach_to_target reply registered (session_of ctx tgt sid ses l))
unfolding attach_to_target
attached_from reply registered ctx none sid ses target_created k h = cc k.target
attached_from (err e) registered ctx (some tgt) sid ses target_created k h = (k, tt)
attached_from (ok id) (err e) ctx (some tgt) sid ses target_created k h = (k, tt)
attached_from (ok id) (ok u) ctx (some tgt) sid ses target_created k h =
    (record { context = k.context; target = refl; id = refl; session = refl }, refl)
attached_from reply registered ctx tgt sid ses _ k h = cc h

attach_fresh_target-Ends :
    (r : StartReplies) (p : PageSession)
    → IsKept p
    → p.lifecycle ≡ idle
    → Ends (At attached) Any (attach_fresh_target r p)
unfolding attach_fresh_target
attach_fresh_target-Ends r p k h =
    then_do-Ends (At target_created) (At attached) Any
      (make_browser_context r.context p then_do make_blank_target r.target) _
      (then_do-Ends (At browser_context_created) (At target_created) Any
        (make_browser_context r.context p) _
        (context_from r.context p.browser_context_id p.target_id p.session_id p.session p.lifecycle
          k h)
        (λ q kq e.
          target_from r.target q.browser_context_id q.target_id q.session_id q.session q.lifecycle
            kq e))
      (λ q kq e.
        attached_from r.attached r.registered q.browser_context_id q.target_id q.session_id
          q.session q.lifecycle kq e)

sent_from :
    (reply : Expected (Unit {0}) Bytes) (ctx tgt sid : Option Bytes) (ses : Option (Bytes × Bytes))
    (l : State)
    → IsKept (session_of ctx tgt sid ses l)
    → l ≡ attached
    → Ends (At attached) Any (send_session reply (session_of ctx tgt sid ses l))
unfolding send_session
sent_from reply ctx tgt sid none attached k h = cc k.session
sent_from (ok u) ctx tgt sid (some ses) attached k h = (k, refl)
sent_from (err e) ctx tgt sid (some ses) attached k h = (k, tt)
sent_from reply ctx tgt sid ses _ k h = cc h

send_session-Ends :
    (reply : Expected (Unit {0}) Bytes) (p : PageSession)
    → IsKept p
    → p.lifecycle ≡ attached
    → Ends (At attached) Any (send_session reply p)
send_session-Ends reply p k h =
    sent_from reply p.browser_context_id p.target_id p.session_id p.session p.lifecycle k h

enabled_from :
    (why : Bytes) (ctx tgt sid : Option Bytes) (ses : Option (Bytes × Bytes)) (l : State)
    → IsKept (session_of ctx tgt sid ses l)
    → l ≡ attached
    → Ends
        (At base_domains_enabled)
        Any
        (mark enable_base_domains why (session_of ctx tgt sid ses l))
unfolding mark
enabled_from why ctx tgt sid ses attached k h =
    (record { context = k.context; target = k.target; id = k.id; session = k.session }, refl)
enabled_from why ctx tgt sid ses _ k h = cc h

enable_base_domains_of-Ends :
    (r : StartReplies) (p : PageSession)
    → IsKept p
    → p.lifecycle ≡ attached
    → Ends (At base_domains_enabled) Any (enable_base_domains_of r p)
unfolding enable_base_domains_of
enable_base_domains_of-Ends r p k h =
    then_do-Ends (At attached) (At base_domains_enabled) Any
      (send_session r.page p
        then_do send_session r.runtime
        then_do send_session r.network
        then_do send_session r.lifecycle_events)
      _
      (then_do-Ends (At attached) (At attached) Any
        (send_session r.page p then_do send_session r.runtime then_do send_session r.network) _
        (then_do-Ends (At attached) (At attached) Any
          (send_session r.page p then_do send_session r.runtime) _
          (then_do-Ends (At attached) (At attached) Any (send_session r.page p) _
            (send_session-Ends r.page p k h) (λ q kq e. send_session-Ends r.runtime q kq e))
          (λ q kq e. send_session-Ends r.network q kq e))
        (λ q kq e. send_session-Ends r.lifecycle_events q kq e))
      (λ q kq e.
        enabled_from _ q.browser_context_id q.target_id q.session_id q.session q.lifecycle kq e)

-- A start as the runner makes it, on a session just made.
abbrev pub start : StartReplies → Outcome Done
start r = attach_fresh_target r made then_do enable_base_domains_of r

-- The call is made whatever came of the one before.
infixl 5 ◌and_then◌
abbrev pub ◌and_then◌ : Outcome Done → (PageSession → Outcome Done) → Outcome Done
returns (p, r) and_then next = next p
aborts why and_then next = aborts why

-- One stop_attempt to stop, with the phases marked or without.
abbrev pub stop_attempt : Bool × StopReplies → PageSession → Outcome Done
stop_attempt (true, r) = stop_in_phases r
stop_attempt (false, r) = stop_session r

-- Attempts to stop, each made whatever came of the one before.
abbrev pub stop_attempts : List (Bool × StopReplies) → Outcome Done → Outcome Done
stop_attempts [] o = o
stop_attempts (r ∷ rs) o = stop_attempts rs (o and_then stop_attempt r)

and_then-Ends :
    (G H : State → Type 0) (o : Outcome Done) (next : PageSession → Outcome Done)
    → Ends G Any o
    → ((p : PageSession) → IsKept p → Ends H Any (next p))
    → Ends H Any (o and_then next)
and_then-Ends G H (aborts why) next h k = h
and_then-Ends G H (returns (p, ok u)) next h k = k p h.0
and_then-Ends G H (returns (p, err e)) next h k = k p h.0

weaken : (G : State → Type 0) (o : Outcome Done) → Ends G Any o → Ends Any Any o
weaken G (aborts why) h = h
weaken G (returns (p, ok u)) h = (h.0, tt)
weaken G (returns (p, err e)) h = h

stop_attempt-Ends :
    (r : Bool × StopReplies) (p : PageSession) → IsKept p → Ends Stopped Any (stop_attempt r p)
stop_attempt-Ends (true, r) p k = stop_in_phases-Ends r p k
stop_attempt-Ends (false, r) p k = stop_session-Ends r p k

start-Ends : (r : StartReplies) → Ends (At base_domains_enabled) Any (start r)
start-Ends r =
    then_do-Ends (At attached) (At base_domains_enabled) Any (attach_fresh_target r made) _
      (attach_fresh_target-Ends r made
        (record { context = refl; target = refl; id = refl; session = refl }) refl)
      (λ q kq e. enable_base_domains_of-Ends r q kq e)

stop_attempts-Ends :
    (rs : List (Bool × StopReplies)) (o : Outcome Done)
    → Ends Any Any o
    → Ends Any Any (stop_attempts rs o)
stop_attempts-Ends [] o h = h
stop_attempts-Ends (r ∷ rs) o h = stop_attempts-Ends rs (o and_then stop_attempt r) (
    and_then-Ends Any Any o (stop_attempt r) h
      (λ p k. weaken Stopped (stop_attempt r p) (stop_attempt-Ends r p k)))

-- Whatever Chromium answers: a start, any number of stop_attempts to stop and a last one never abort. They
-- leave a session that holds exactly the ids of its state, and if the last stop_attempt succeeds that
-- state is the stopped one.
pub stop_attempts-Stopped :
    (s : StartReplies) (rs : List (Bool × StopReplies)) (last : Bool × StopReplies)
    → Ends Stopped Any (stop_attempts rs (start s) and_then stop_attempt last)
stop_attempts-Stopped s rs last =
    and_then-Ends Any Stopped (stop_attempts rs (start s)) (stop_attempt last)
      (stop_attempts-Ends rs (start s) (weaken (At base_domains_enabled) (start s) (start-Ends s)))
      (λ p k. stop_attempt-Ends last p k)
