-- ===== src/Browser/Cdp/Tracked.antt =====
-- What holds of every command in every state that the tasks can bring about.
use webshot.Base.{
  ℕ, ◌≤◌, ◌≡◌, Bool, true, false, not, ◌||◌, Bool-cases, Option-cases, Option, none, some, Expected,
  err, ◌⊎◌, inl, inr, arith,
}
use webshot.Base.Bytes.{Bytes, codes}
use webshot.Base.Outcome.{returns}
use webshot.Browser.Cdp.{
  CdpPendingRequest, CdpError, socket_closed, Client, put, registration, clear, register, time_out,
  handle_response, set_fatal_error, begin_stop, stop_quietly,
}

abbrev pub fresh : Client
fresh = record {
  next_request_id = 1;
  pending_requests = clear;
  pending_waiters = λ j. false;
  answered = λ j. 0;
  fatal_error = none;
  stopping = false;
  stopped = false;
}

-- What the tasks do to the shared state, one at a time.
pub data Step (c : Client) : Client → Type 0 where
  registers :
      (method : Bytes) (session_id : Option Bytes) (d : Client) (r : Expected ℕ CdpError)
      → register method session_id c ≡ returns (d, r)
      → Step c d
  times_out : (id : ℕ) → Step c (time_out id c).0
  responds :
      (id : ℕ) (error : Option (Expected Bytes CdpError)) → Step c (handle_response id error c).0
  fails : (error : CdpError) → Step c (set_fatal_error error c)
  begins_stop : Step c (begin_stop c)
  stops_quietly : Step c (stop_quietly c)

pub data Reach : Client → Type 0 where
  start : Reach fresh
  later : {c d : Client} → Reach c → Step c d → Reach d

-- The request is known, and its answer is wanted.
abbrev pub is_awaited : Option CdpPendingRequest → Bool
is_awaited none = false
is_awaited (some r) = not r.ignore_response

-- Seen from one id.
pub record IsTracked (c : Client) (id : ℕ) : Type 0 where
  pub waits : c.pending_waiters id ≡ is_awaited (c.pending_requests id)
  pub unused : c.next_request_id ≤ id → (c.pending_requests id ≡ none) × (c.answered id ≡ 0)
  pub unanswered : c.pending_waiters id ≡ true → c.answered id ≡ 0
  pub once : c.answered id ≤ 1

abbrev pub new_request : Bytes → Option Bytes → CdpPendingRequest
new_request method session_id = record {
  method = method;
  session_id = session_id;
  ignore_response = false;
}

abbrev pub after_register : Bytes → Option Bytes → Client → Client × Expected ℕ CdpError
after_register method session_id c =
    registration c (put c.next_request_id (some (new_request method session_id)) c.pending_requests)

-- With its next id unused, it returns the client as it was, or with the new command.
pub register-cases :
    (method : Bytes) (session_id : Option Bytes) (c : Client)
    → c.pending_requests c.next_request_id ≡ none
    → ((e : CdpError) × (register method session_id c ≡ returns (c, err e)))
      ⊎ (register method session_id c ≡ returns (after_register method session_id c))
unfolding register
register-cases method session_id c free = elim (Option-cases c.fatal_error) [
  | inr (e, f) ↦ inl (e, ground arith)
  | inl f ↦ elim (Bool-cases (c.stopping || c.stopped)) [
    | inl s ↦
        inl (record { code = socket_closed; detail = codes "cdp socket is closed" }, ground arith)
    | inr s ↦ inr (ground arith)
  ]
]

IsTracked-register :
    (method : Bytes) (session_id : Option Bytes) (c : Client) (id : ℕ)
    → IsTracked c id
    → IsTracked (after_register method session_id c).0 id
IsTracked-register method session_id c id k = ground arith

IsTracked-time_out : (j : ℕ) (c : Client) (id : ℕ) → IsTracked c id → IsTracked (time_out j c).0 id
unfolding time_out
IsTracked-time_out j c id k = ground arith

IsTracked-handle_response :
    (j : ℕ) (error : Option (Expected Bytes CdpError)) (c : Client) (id : ℕ)
    → IsTracked c id
    → IsTracked (handle_response j error c).0 id
unfolding handle_response
IsTracked-handle_response j error c id k = ground arith

IsTracked-set_fatal_error :
    (error : CdpError) (c : Client) (id : ℕ)
    → IsTracked c id
    → IsTracked (set_fatal_error error c) id
unfolding set_fatal_error
IsTracked-set_fatal_error error c id k = ground arith

IsTracked-begin_stop : (c : Client) (id : ℕ) → IsTracked c id → IsTracked (begin_stop c) id
unfolding begin_stop
IsTracked-begin_stop c id k = ground arith

IsTracked-stop_quietly : (c : Client) (id : ℕ) → IsTracked c id → IsTracked (stop_quietly c) id
unfolding stop_quietly
IsTracked-stop_quietly c id k = ground arith

pub register-result :
    (method : Bytes) (session_id : Option Bytes) (c d : Client) (r : Expected ℕ CdpError)
    → ((id : ℕ) → IsTracked c id)
    → register method session_id c ≡ returns (d, r)
    → (d ≡ c) ⊎ (d ≡ (after_register method session_id c).0)
register-result method session_id c d r k h =
    elim (register-cases method session_id c ((k c.next_request_id).unused (omega arith)).0) [
      | inl (e, f) ↦ inl (ground arith)
      | inr f ↦ inr (ground arith)
    ]

Step-IsTracked : {c d : Client} → Step c d → ((id : ℕ) → IsTracked c id) → (id : ℕ) → IsTracked d id
Step-IsTracked {c} (registers method session_id d r h) k id =
    elim (register-result method session_id c d r k h) [
      | inl e ↦ rw e (k id)
      | inr e ↦ rw e (IsTracked-register method session_id c id (k id))
    ]
Step-IsTracked {c} (times_out j) k id = IsTracked-time_out j c id (k id)
Step-IsTracked {c} (responds j error) k id = IsTracked-handle_response j error c id (k id)
Step-IsTracked {c} (fails error) k id = IsTracked-set_fatal_error error c id (k id)
Step-IsTracked {c} begins_stop k id = IsTracked-begin_stop c id (k id)
Step-IsTracked {c} stops_quietly k id = IsTracked-stop_quietly c id (k id)

pub Reach-IsTracked : {c : Client} → Reach c → (id : ℕ) → IsTracked c id
unfolding clear
Reach-IsTracked start id = ground arith
Reach-IsTracked (later r st) id = Step-IsTracked st (Reach-IsTracked r) id
