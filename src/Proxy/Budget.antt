-- ===== src/Proxy/Budget.antt =====
-- The limit on what the browser is sent: `SendBudgeted` of webshotd/src/crawler/egress_proxy.cpp, as
-- a function and as the steps of the tasks that call it at the same time.
pub mod Quota
pub mod Calls
use Prim.Native.Nat.{min}
use webshot.Base.{
  ℕ, zero, suc, ◌+◌, ◌-◌, ◌*◌, ◌≤◌, ◌<◌, ◌≡◌, ◌==◌, ltb, leb, Bool, true, false, if◌then◌else◌,
  List, [], ◌∷◌, ◌++◌, Option, none, some,
}
use webshot.Base.Bytes.{Bytes, codes}

-- What the tasks of one proxy share.
pub record Shared : Type 0 where
  pub down_bytes : ℕ
  pub stopped : Bool
  pub error : Option Bytes
  pub cancelled : Bool

-- The first reason is kept.
abbrev pub noted : Bytes → Option Bytes → Option Bytes
noted reason none = some reason
noted reason (some first) = some first

unfoldable pub note_error : Bytes → Shared → Shared
note_error reason s = record s { error = noted reason s.error }

unfoldable pub request_cancel_all_client_tasks_no_wait : Shared → Shared
request_cancel_all_client_tasks_no_wait s = record s { cancelled = true }

-- `StopAll`: it notes no error. The tasks of the clients end, each by a step of its own.
abbrev pub stopped_all : Shared → Shared
stopped_all s = record s { stopped = true; cancelled = true }

-- What `SendAll` of the socket does: it returns the bytes sent, or throws when some went out.
pub data Sent : Type 0 where
  sent : ℕ → Sent
  throws : ℕ → Sent

module _ (net_limit : ℕ → Bytes) (down_bytes_max : ℕ) where
  -- The first block under the lock: the claim, or the end of the proxy.
  unfoldable pub claim : ℕ → Shared → Shared × Bool
  unfolding note_error request_cancel_all_client_tasks_no_wait
  claim max_claim s =
      if ltb (down_bytes_max - max_claim) s.down_bytes
      then (
        request_cancel_all_client_tasks_no_wait
            (record (note_error (net_limit s.down_bytes) s) { stopped = true }),
        false,
      )
      else (record s { down_bytes = s.down_bytes + max_claim }, true)

  -- What is given back under the lock after the call, and the result.
  unfoldable pub settle : ℕ → Sent → Shared → Shared × ℕ
  settle max_claim (sent n) s = (record s { down_bytes = s.down_bytes - (max_claim - n) }, n)
  settle max_claim (throws n) s = (record s { down_bytes = s.down_bytes - max_claim }, 0)

  abbrev pub after_claim : ℕ → Sent → Shared × Bool → Shared × ℕ
  after_claim max_claim answer (s, false) = (s, 0)
  after_claim max_claim answer (s, true) = settle max_claim answer s

  -- `answer` is what the socket does if it is called.
  unfoldable pub send_budgeted : ℕ → Sent → Shared → Shared × ℕ
  unfolding claim settle
  send_budgeted size answer s =
      if size == 0
      then (s, 0)
      else if s.stopped
      then (s, 0)
      else let max_claim = min size down_bytes_max in
        if max_claim == 0 then (s, 0) else after_claim max_claim answer (claim max_claim s)

  -- All tasks: the claims whose call is under way, the results of the calls that returned, and the
  -- bytes that went out of calls that threw.
  pub record System : Type 0 where
    pub shared : Shared
    pub pending : List ℕ
    pub results : List ℕ
    pub lost : List ℕ

  -- A task passed its tests and takes the lock, its call of the socket ends, or the proxy is stopped
  -- from outside. The tests may be long past when the lock is taken, so a claim may follow the end of
  -- the proxy. A claim may have any size up to the limit, also one that no caller asks for.
  pub data Step (s : System) : System → Type 0 where
    claims :
        (n : ℕ) (t : Shared)
        → n ≤ down_bytes_max
        → claim n s.shared ≡ (t, true)
        → Step s (record s { shared = t; pending = n ∷ s.pending })
    refused :
        (n : ℕ) (t : Shared)
        → n ≤ down_bytes_max
        → claim n s.shared ≡ (t, false)
        → Step s (record s { shared = t })
    returned :
        (before after : List ℕ) (n k : ℕ)
        → s.pending ≡ before ++ n ∷ after
        → k ≤ n
        → Step s (record s {
          shared = (settle n (sent k) s.shared).0;
          pending = before ++ after;
          results = k ∷ s.results;
        })
    threw :
        (before after : List ℕ) (n k : ℕ)
        → s.pending ≡ before ++ n ∷ after
        → k ≤ n
        → Step s (record s {
          shared = (settle n (throws k) s.shared).0;
          pending = before ++ after;
          lost = k ∷ s.lost;
        })
    stop_all : Step s (record s { shared = stopped_all s.shared })

  abbrev pub fresh : System
  fresh = record {
    shared = record { down_bytes = 0; stopped = false; error = none; cancelled = false };
    pending = [];
    results = [];
    lost = [];
  }

  pub data Reach : System → Type 0 where
    start : Reach fresh
    later : {s t : System} → Reach s → Step s t → Reach t
