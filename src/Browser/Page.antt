-- ===== src/Browser/Page.antt =====
-- A page of the browser: the transition table of webshotd/src/crawler/browser_page_lifecycle.cpp, and
-- `BrowserPageSession` of webshotd/src/crawler/browser_session.cpp, which aborts where the table has
-- no transition.
pub mod Lifecycle
pub mod Kept
use webshot.Base.{Bool, true, false, List, [], ◌∷◌, ◌++◌, Option, none, some, Expected, ok, err}
use webshot.Base.Bytes.{Bytes, codes}
use webshot.Base.Outcome.{Outcome, returns, aborts}

pub data State : Type 0 where
  idle : State
  browser_context_created : State
  target_created : State
  attached : State
  base_domains_enabled : State
  detached : State
  disposed : State
  stopped : State

pub data Event : Type 0 where
  create_browser_context : Event
  create_target : Event
  attach : Event
  enable_base_domains : Event
  detach : Event
  dispose : Event
  stop : Event

-- The row of the table for a state and an event.
unfoldable pub transition : State → Event → Option State
transition idle create_browser_context = some browser_context_created
transition browser_context_created create_target = some target_created
transition target_created attach = some attached
transition attached enable_base_domains = some base_domains_enabled
transition attached detach = some detached
transition base_domains_enabled detach = some detached
transition detached detach = some detached
transition disposed detach = some disposed
transition stopped detach = some stopped
transition browser_context_created dispose = some disposed
transition target_created dispose = some disposed
transition detached dispose = some disposed
transition disposed dispose = some disposed
transition stopped dispose = some stopped
transition idle stop = some stopped
transition disposed stop = some stopped
transition stopped stop = some stopped
transition _ _ = none

-- `process_event`: an event with no row leaves the state and is refused.
abbrev pub process_row : State → Option State → State × Bool
process_row s none = (s, false)
process_row s (some t) = (t, true)

unfoldable pub process : State → Event → State × Bool
unfolding transition
process s e = process_row s (transition s e)

-- The ids that Chromium gave out; `session` is the registered session itself.
pub record PageSession : Type 0 where
  pub lifecycle : State
  pub browser_context_id : Option Bytes
  pub target_id : Option Bytes
  pub session_id : Option Bytes
  pub session : Option (Bytes × Bytes)

abbrev pub made : PageSession
made = record {
  lifecycle = idle;
  browser_context_id = none;
  target_id = none;
  session_id = none;
  session = none;
}

-- What an operation leaves, and its error.
abbrev pub Done : Type 0
Done = PageSession × Expected (Unit {0}) Bytes

-- `TRY` of an operation, and what follows.
infixl 5 ◌then_do◌
abbrev pub ◌then_do◌ : Outcome Done → (PageSession → Outcome Done) → Outcome Done
returns (p, ok u) then_do next = next p
returns (p, err e) then_do next = returns (p, err e)
aborts why then_do next = aborts why

-- `Invariant(lifecycle_.Mark…(), …)` at the end of an operation.
abbrev pub marked : PageSession → Bytes → State × Bool → Outcome Done
marked p why (s, false) = aborts why
marked p why (s, true) = returns (record p { lifecycle = s }, ok tt)

unfoldable pub mark : Event → Bytes → PageSession → Outcome Done
unfolding process
mark e why p = marked p why (process p.lifecycle e)

abbrev pub Reply : Type 0
Reply = Expected Bytes Bytes

unfoldable pub make_browser_context : Reply → PageSession → Outcome Done
unfolding mark
make_browser_context (err e) p = returns (p, err e)
make_browser_context (ok id) p =
    mark create_browser_context
      (codes "invalid browser page lifecycle transition after creating browser context")
      (record p { browser_context_id = some id })

unfoldable pub make_blank_target : Reply → PageSession → Outcome Done
unfolding mark
make_blank_target reply p = elim p.browser_context_id [
  | none ↦ aborts (codes "browser context must exist before creating a target")
  | some context ↦ elim reply [
    | err e ↦ returns (p, err e)
    | ok id ↦
        mark create_target (codes "invalid browser page lifecycle transition after creating target")
          (record p { target_id = some id })
  ]
]

-- `registered` is what `CdpClient::MakeSession` answers.
unfoldable pub attach_to_target : Reply → Expected (Unit {0}) Bytes → PageSession → Outcome Done
unfolding mark
attach_to_target reply registered p = elim p.target_id [
  | none ↦ aborts (codes "target must exist before attaching")
  | some target ↦ elim reply [
    | err e ↦ returns (p, err e)
    | ok id ↦ elim registered [
      | err e ↦ returns (p, err (codes "failed to register cdp target session" ++ e))
      | ok u ↦
          mark attach (codes "invalid browser page lifecycle transition after attaching target")
            (record p { session_id = some id; session = some (id, target) })
    ]
  ]
]

-- What Chromium and the client answer to the calls of a start.
pub record StartReplies : Type 0 where
  pub context : Reply
  pub target : Reply
  pub attached : Reply
  pub registered : Expected (Unit {0}) Bytes
  pub page : Expected (Unit {0}) Bytes
  pub runtime : Expected (Unit {0}) Bytes
  pub network : Expected (Unit {0}) Bytes
  pub lifecycle_events : Expected (Unit {0}) Bytes

unfoldable pub attach_fresh_target : StartReplies → PageSession → Outcome Done
attach_fresh_target r p =
    make_browser_context r.context p
    then_do make_blank_target r.target
    then_do attach_to_target r.attached r.registered

-- `SendCdpVoid(GetSession(), …)`.
unfoldable pub send_session : Expected (Unit {0}) Bytes → PageSession → Outcome Done
send_session reply p = elim p.session [
  | none ↦ aborts (codes "target session is not attached")
  | some s ↦ returns (p, reply)
]

unfoldable pub enable_base_domains_of : StartReplies → PageSession → Outcome Done
enable_base_domains_of r p =
    send_session r.page p
    then_do send_session r.runtime
    then_do send_session r.network
    then_do send_session r.lifecycle_events
    then_do mark enable_base_domains
        (codes "invalid browser page lifecycle transition after enabling base CDP domains")

unfoldable pub detach_session : Expected (Unit {0}) Bytes → PageSession → Outcome Done
unfolding mark
detach_session reply p = elim p.session_id [
  | none ↦ returns (p, ok tt)
  | some id ↦ elim reply [
    | err e ↦ returns (p, err e)
    | ok u ↦
        mark detach (codes "invalid browser page lifecycle transition after detaching target")
          (record p { session = none; session_id = none })
  ]
]

unfoldable pub dispose_browser_context : Expected (Unit {0}) Bytes → PageSession → Outcome Done
unfolding mark
dispose_browser_context reply p = elim p.browser_context_id [
  | none ↦ returns (p, ok tt)
  | some id ↦ elim reply [
    | err e ↦ returns (p, err e)
    | ok u ↦
        mark dispose
          (codes "invalid browser page lifecycle transition after disposing browser context")
          (record p { browser_context_id = none; target_id = none })
  ]
]

pub record StopReplies : Type 0 where
  pub detached : Expected (Unit {0}) Bytes
  pub disposed : Expected (Unit {0}) Bytes

unfoldable pub stop_session : StopReplies → PageSession → Outcome Done
stop_session r p =
    detach_session r.detached p
    then_do dispose_browser_context r.disposed
    then_do mark stop
        (codes "invalid browser page lifecycle transition after stopping page session")

abbrev pub if_some : Option Bytes → (PageSession → Outcome Done) → PageSession → Outcome Done
if_some none run p = returns (p, ok tt)
if_some (some id) run p = run p

-- `Stop(mark_phase)`.
unfoldable pub stop_in_phases : StopReplies → PageSession → Outcome Done
stop_in_phases r p =
    if_some p.session_id (detach_session r.detached) p
    then_do (λ q. if_some q.browser_context_id (dispose_browser_context r.disposed) q)
    then_do stop_session r
