-- ===== src/Browser/Cdp.antt =====
-- The commands that wait for an answer of Chromium: webshotd/include/crawler/cdp_request_tracker.hpp,
-- and what `CdpClient` of webshotd/src/crawler/cdp_client.cpp does under the lock of its shared state.
pub mod Tracked
pub mod Phases
use webshot.Base.{
  ℕ, ◌+◌, ◌==◌, Bool, true, false, not, ◌&&◌, ◌||◌, if◌then◌else◌, Option, none, some, Expected, ok,
  err,
}
use webshot.Base.Bytes.{Bytes, codes}
use webshot.Base.Outcome.{Outcome, returns, aborts, ◌>>=◌}

pub record CdpPendingRequest : Type 0 where
  pub method : Bytes
  pub session_id : Option Bytes
  pub ignore_response : Bool

-- A map by id.
abbrev pub Tracker : Type 0
Tracker = ℕ → Option CdpPendingRequest

abbrev pub put : ℕ → Option CdpPendingRequest → Tracker → Tracker
put id r t = λ j. if j == id then r else t j

unfoldable pub find_request : ℕ → Tracker → Option CdpPendingRequest
find_request id t = t id

unfoldable pub erase : ℕ → Tracker → Tracker
erase id t = put id none t

unfoldable pub clear : Tracker
clear = λ j. none

abbrev pub insert_at : ℕ → CdpPendingRequest → Tracker → Option CdpPendingRequest → Outcome Tracker
insert_at id request t none = returns (put id (some request) t)
insert_at id request t (some old) = aborts (codes "duplicate cdp request id")

unfoldable pub insert_request : ℕ → CdpPendingRequest → Tracker → Outcome Tracker
insert_request id request t = insert_at id request t (t id)

unfoldable pub insert_pending : ℕ → Bytes → Option Bytes → Tracker → Outcome Tracker
unfolding insert_request
insert_pending id method session_id t =
    insert_request id (record { method = method; session_id = session_id; ignore_response = false })
      t

-- The code of an error and what it says.
pub data CdpErrorCode : Type 0 where
  protocol : CdpErrorCode
  timeout : CdpErrorCode
  socket_closed : CdpErrorCode
  transport : CdpErrorCode
  command_failed : CdpErrorCode

pub record CdpError : Type 0 where
  pub code : CdpErrorCode
  pub detail : Bytes

-- The shared state, the waiters by id, and how often the waiter of an id was answered.
pub record Client : Type 0 where
  pub next_request_id : ℕ
  pub pending_requests : Tracker
  pub pending_waiters : ℕ → Bool
  pub answered : ℕ → ℕ
  pub fatal_error : Option CdpError
  pub stopping : Bool
  pub stopped : Bool

abbrev pub set : ℕ → Bool → (ℕ → Bool) → ℕ → Bool
set id b f j = if j == id then b else f j

abbrev pub answer : ℕ → (ℕ → ℕ) → ℕ → ℕ
answer id f j = if j == id then f j + 1 else f j

abbrev pub registration : Client → Tracker → Client × Expected ℕ CdpError
registration c t = (
  record c {
    next_request_id = c.next_request_id + 1;
    pending_requests = t;
    pending_waiters = set c.next_request_id true c.pending_waiters;
  },
  ok c.next_request_id,
)

-- The first block of `SendRaw` under the lock.
unfoldable pub register : Bytes → Option Bytes → Client → Outcome (Client × Expected ℕ CdpError)
unfolding insert_pending
register method session_id c = elim c.fatal_error [
  | some e ↦ returns (c, err e)
  | none ↦
      if c.stopping || c.stopped
      then returns (c, err (record { code = socket_closed; detail = codes "cdp socket is closed" }))
      else insert_pending c.next_request_id method session_id c.pending_requests >>= λ t.
          returns (registration c t)
]

abbrev pub abandoned : ℕ → Client → Option CdpPendingRequest → Client × Bool
abandoned id c none = (c, false)
abandoned id c (some request) = (
  record c {
    pending_requests = put id (some (record request { ignore_response = true })) c.pending_requests;
    pending_waiters = set id false c.pending_waiters;
  },
  true,
)

-- The block of `SendRaw` after its deadline; `false` where the answer came in between.
unfoldable pub time_out : ℕ → Client → Client × Bool
unfolding find_request
time_out id c = abandoned id c (find_request id c.pending_requests)

-- What a message with an id comes to.
pub data Handled : Type 0 where
  dropped : Handled
  ignored : Handled
  unknown_request : Handled
  malformed_error : CdpError → Handled
  missing_waiter : Handled
  completed : Handled

abbrev pub is_closing : Client → Bool
is_closing c = c.stopping || (c.stopped || (elim c.fatal_error [ none ↦ false | some e ↦ true ]))

-- From `if (request->ignore_response)` on.
abbrev pub deliver : ℕ → Client → CdpPendingRequest → Client × Handled
deliver id c request =
    if request.ignore_response
    then (
      record c {
        pending_requests = erase id c.pending_requests;
        pending_waiters = set id false c.pending_waiters;
      },
      ignored,
    )
    else if not (c.pending_waiters id)
    then (c, if is_closing c then dropped else missing_waiter)
    else (
      record c {
        pending_requests = erase id c.pending_requests;
        pending_waiters = set id false c.pending_waiters;
        answered = answer id c.answered;
      },
      completed,
    )

-- `error` is what `GetErrorMessage` makes of the message's error, if it has one.
abbrev pub respond :
    ℕ → Option (Expected Bytes CdpError) → Client → Option CdpPendingRequest → Client × Handled
respond id error c none = (c, if is_closing c then dropped else unknown_request)
respond id none c (some request) = deliver id c request
respond id (some (ok message)) c (some request) = deliver id c request
respond id (some (err e)) c (some request) = (c, malformed_error e)

-- The branch of `HandleMessage` for a message with an id.
unfoldable pub handle_response : ℕ → Option (Expected Bytes CdpError) → Client → Client × Handled
unfolding find_request erase
handle_response id error c = respond id error c (find_request id c.pending_requests)

abbrev pub failed_with : CdpError → Client → Option CdpError → Client
failed_with error c (some first) = c
failed_with error c none = record c {
  fatal_error = some error;
  stopped = true;
  answered = λ j. if c.pending_waiters j then c.answered j + 1 else c.answered j;
  pending_waiters = λ j. false;
  pending_requests = clear;
}

-- Every waiter is answered with the first fatal error.
unfoldable pub set_fatal_error : CdpError → Client → Client
unfolding clear
set_fatal_error error c = failed_with error c c.fatal_error

-- The block of `Stop` under the lock.
unfoldable pub begin_stop : Client → Client
begin_stop c =
    if c.stopped || (elim c.fatal_error [ none ↦ false | some e ↦ true ])
    then record c { stopping = true; stopped = true }
    else record c { stopping = true }

unfoldable pub stop_quietly : Client → Client
stop_quietly c = record c { stopping = true; stopped = true }
