-- ===== src/Browser/Cdp/Phases.antt =====
-- The life of one command, whatever the tasks do in whatever order.
use webshot.Base.{
  ℕ, ◌≡◌, ◌≢◌, ◌↔◌, refl, sym, ap, ◌==◌, leb, true, if◌then◌else◌, Option-cases, Option, none,
  Expected, err, ◌⊎◌, inl, inr, arith,
}
use webshot.Base.Bytes.{Bytes}
use webshot.Base.Outcome.{returns}
use webshot.Browser.Cdp.{
  CdpError, Client, missing_waiter, completed, register, time_out, handle_response, set_fatal_error,
  begin_stop, stop_quietly,
}
use webshot.Browser.Cdp.Tracked.{
  Step, registers, times_out, responds, fails, begins_stop, stops_quietly, Reach, IsTracked,
  after_register, register-cases, register-result, Reach-IsTracked,
}

-- A command as its caller sees it.
pub data Phase : Type 0 where
  unused : Phase
  waiting : Phase
  done : Phase
  given_up : Phase

unfoldable pub phase : Client → ℕ → Phase
phase c id =
    if leb c.next_request_id id
    then unused
    else if c.pending_waiters id
    then waiting
    else if c.answered id == 0
    then given_up
    else done

-- The abstract command: it is sent, and then answered or given up, once.
abbrev pub Moves : Phase → Phase → Type 0
Moves a b =
    (a ≡ b)
    ⊎ ((a ≡ unused) × (b ≡ waiting))
    ⊎ ((a ≡ waiting) × (b ≡ done))
    ⊎ ((a ≡ waiting) × (b ≡ given_up))

Moves-register :
    (method : Bytes) (session_id : Option Bytes) (c : Client) (id : ℕ)
    → IsTracked c id
    → Moves (phase c id) (phase (after_register method session_id c).0 id)
unfolding phase
Moves-register method session_id c id k = ground arith

Moves-time_out :
    (j : ℕ) (c : Client) (id : ℕ) → IsTracked c id → Moves (phase c id) (phase (time_out j c).0 id)
unfolding phase time_out
Moves-time_out j c id k = ground arith

Moves-handle_response :
    (j : ℕ) (error : Option (Expected Bytes CdpError)) (c : Client) (id : ℕ)
    → IsTracked c id
    → Moves (phase c id) (phase (handle_response j error c).0 id)
unfolding phase handle_response
Moves-handle_response j error c id k = ground arith

Moves-set_fatal_error :
    (error : CdpError) (c : Client) (id : ℕ)
    → IsTracked c id
    → Moves (phase c id) (phase (set_fatal_error error c) id)
unfolding phase set_fatal_error
Moves-set_fatal_error error c id k = ground arith

Moves-begin_stop : (c : Client) (id : ℕ) → Moves (phase c id) (phase (begin_stop c) id)
unfolding phase begin_stop
Moves-begin_stop c id = ground arith

-- The commands of the client refine the abstract one: in every state that the tasks can bring about,
-- a further step leaves a command as it is, sends one not used before, or ends one that waits, by an
-- answer or by giving up. So a waiter is answered once at most, and no answer comes to one that gave
-- up.
pub Step-Moves : {c d : Client} → Reach c → Step c d → (id : ℕ) → Moves (phase c id) (phase d id)
Step-Moves {c} reach (registers method session_id d r h) id =
    elim (register-result method session_id c d r (Reach-IsTracked reach) h) [
      | inl e ↦ inl (ap (λ (x : Client). phase x id) (sym e))
      | inr e ↦ rw e (Moves-register method session_id c id (Reach-IsTracked reach id))
    ]
Step-Moves {c} reach (times_out j) id = Moves-time_out j c id (Reach-IsTracked reach id)
Step-Moves {c} reach (responds j error) id =
    Moves-handle_response j error c id (Reach-IsTracked reach id)
Step-Moves {c} reach (fails error) id = Moves-set_fatal_error error c id (Reach-IsTracked reach id)
Step-Moves {c} reach begins_stop id = Moves-begin_stop c id
Step-Moves {c} reach stops_quietly id = inl (unfold phase stop_quietly in refl)

never_missing :
    (c : Client) (id : ℕ) (error : Option (Expected Bytes CdpError))
    → IsTracked c id
    → (handle_response id error c).1 ≢ missing_waiter
unfolding handle_response
never_missing c id error k e = ground arith

completes :
    (c : Client) (id : ℕ)
    → IsTracked c id
    → (c.pending_waiters id ≡ true) ↔ ((handle_response id none c).1 ≡ completed)
unfolding handle_response
completes c id k = elim (Option-cases (c.pending_requests id)) [
  | inl e ↦ ground arith
  | inr (r, e) ↦ ground arith
]

-- In every such state: registering a command does not abort for a duplicate id; a response never
-- meets a request that lost its waiter; and one without an error, to a command that waits, completes
-- it.
pub Reach-completed :
    {c : Client}
    → Reach c
    → (method : Bytes) (session_id : Option Bytes) (id : ℕ)
      (error : Option (Expected Bytes CdpError))
    → ((d : Client × Expected ℕ CdpError) × (register method session_id c ≡ returns d))
      × ((handle_response id error c).1 ≢ missing_waiter)
      × ((c.pending_waiters id ≡ true) ↔ ((handle_response id none c).1 ≡ completed))
Reach-completed {c} reach method session_id id error =
    let k = Reach-IsTracked reach id in
    (
      elim (register-cases method session_id c
          ((Reach-IsTracked reach c.next_request_id).unused (omega arith)).0) [
            | inl (e, f) ↦ ((c, err e), f)
            | inr f ↦ (after_register method session_id c, f)
          ],
      never_missing c id error k,
      completes c id k,
    )
