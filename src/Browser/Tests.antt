-- ===== src/Browser/Tests.antt =====
-- The browser's page at concrete answers.
use webshot.Base.{ℕ, ◌≡◌, ◌≢◌, ◌↔◌, refl, true, false, [], ◌∷◌, none, some, Expected, ok, err}
use webshot.Browser.Cdp.{
  Client, CdpError, put, set, clear, register, time_out, handle_response, missing_waiter, completed,
  ignored,
}
use webshot.Browser.Cdp.Tracked.{fresh, registers, times_out, Reach, later}
use webshot.Browser.Cdp.Phases.{phase, given_up, Moves, Step-Moves, Reach-completed}
use webshot.Base.Bytes.{codes}
use webshot.Base.Outcome.{returns}
use webshot.Browser.Page.{
  StartReplies, StopReplies, browser_context_created, stop, create_target, target_created, process,
}
use webshot.Browser.Page.Kept.{Ends, Any, Stopped}
use webshot.Browser.Page.Lifecycle.{
  start, stop_attempt, stop_attempts, ◌and_then◌, stop_attempts-Stopped,
}

-- The network domain cannot be enabled.
abbrev replies : StartReplies
replies = record {
  context = ok (codes "c");
  target = ok (codes "t");
  attached = ok (codes "s");
  registered = ok tt;
  page = ok tt;
  runtime = ok tt;
  network = err (codes "timeout");
  lifecycle_events = ok tt;
}

abbrev fails : StopReplies
fails = record { detached = ok tt; disposed = err (codes "timeout") }

abbrev succeeds : StopReplies
succeeds = record { detached = ok tt; disposed = ok tt }

stop_attempts-Stopped_example :
    Ends Stopped Any
      (stop_attempts ((true, fails) ∷ []) (start replies) and_then stop_attempt (false, succeeds))
stop_attempts-Stopped_example = stop_attempts-Stopped replies ((true, fails) ∷ []) (false, succeeds)

refused_test : process browser_context_created stop ≡ (browser_context_created, false)
unfolding process
refused_test = refl

accepted_test : process browser_context_created create_target ≡ (target_created, true)
unfolding process
accepted_test = refl

-- One command is sent and given up; its answer comes late.
abbrev sent : Client
sent = record fresh {
  next_request_id = 2;
  pending_requests =
      put 1
        (some (record { method = codes "Page.enable"; session_id = none; ignore_response = false }))
        clear;
  pending_waiters = set 1 true (λ j. false);
}

sent_reach : Reach sent
unfolding register clear
sent_reach = later Reach.start (registers (codes "Page.enable") none sent (ok 1) refl)

Step-Moves_example : Moves (phase sent 1) (phase (time_out 1 sent).0 1)
Step-Moves_example = Step-Moves sent_reach (times_out 1) 1

given_up_test : phase (time_out 1 sent).0 1 ≡ given_up
unfolding phase time_out
given_up_test = refl

late_test : (handle_response 1 none (time_out 1 sent).0).1 ≡ ignored
unfolding handle_response time_out
late_test = refl

Reach-completed_example :
    ((d : Client × Expected ℕ CdpError) × (register (codes "Page.enable") none sent ≡ returns d))
    × ((handle_response 1 none sent).1 ≢ missing_waiter)
    × ((sent.pending_waiters 1 ≡ true) ↔ ((handle_response 1 none sent).1 ≡ completed))
Reach-completed_example = Reach-completed sent_reach (codes "Page.enable") none 1 none
