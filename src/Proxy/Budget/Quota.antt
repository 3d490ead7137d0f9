-- ===== src/Proxy/Budget/Quota.antt =====
-- The counter is a quota: what the tasks may deliver, whatever their order.

use webshot.Base.{
  ℕ, ◌+◌, ◌-◌, ◌≤◌, ◌<◌, ◌≡◌, refl, ap, ltb, true, false, Bool-cases, List, [], ◌∷◌, ◌++◌, inl, inr,
  arith,
}
use webshot.Base.Bytes.{Bytes}
use webshot.Proxy.Budget.{
  Shared, claim, settle, System, Step, claims, refused, returned, threw, stop_all, Reach, start,
  later, note_error, noted, request_cancel_all_client_tasks_no_wait,
}

abbrev pub sum : List ℕ → ℕ
sum [] = 0
sum (x ∷ xs) = x + sum xs

sum-middle : (a b : List ℕ) (x : ℕ) → sum (a ++ x ∷ b) ≡ x + sum (a ++ b)
sum-middle [] b x = refl
sum-middle (y ∷ a) b x = omega (arith, sum-middle a b x)

module _ (net_limit : ℕ → Bytes) (max : ℕ) where
  claim-true :
      (n : ℕ) (s t : Shared)
      → n ≤ max
      → claim net_limit max n s ≡ (t, true)
      → (t ≡ record s { down_bytes = s.down_bytes + n }) × (s.down_bytes + n ≤ max)
  unfolding claim
  claim-true n s t h e = elim (Bool-cases (ltb (max - n) s.down_bytes)) [
    | inl f ↦ absurd (ground arith)
    | inr f ↦ (ground arith, ground arith)
  ]

  claim-false :
      (n : ℕ) (s t : Shared)
      → n ≤ max
      → claim net_limit max n s ≡ (t, false)
      → (t ≡ record {
        down_bytes = s.down_bytes;
        stopped = true;
        error = noted (net_limit s.down_bytes) s.error;
        cancelled = true;
      })
        × (max < s.down_bytes + n)
  unfolding claim note_error request_cancel_all_client_tasks_no_wait
  claim-false n s t h e = elim (Bool-cases (ltb (max - n) s.down_bytes)) [
    | inl f ↦ (ground arith, ground arith)
    | inr f ↦ absurd (ground arith)
  ]

  -- The counter holds what was sent and what is claimed, within the limit.
  pub record IsQuota (s : System net_limit max) : Type 0 where
    pub counted : s.shared.down_bytes ≡ sum s.pending + sum s.results
    pub within : s.shared.down_bytes ≤ max

  Step-IsQuota : {s t : System net_limit max} → Step net_limit max s t → IsQuota s → IsQuota t
  Step-IsQuota {s} (claims n t h e) q =
      let (u, l) = claim-true n s.shared t h e in
      rw u (record { counted = omega (arith, q.counted); within = l })
  Step-IsQuota {s} (refused n t h e) q =
      let (u, l) = claim-false n s.shared t h e in
      rw u (record { counted = q.counted; within = q.within })
  Step-IsQuota {s} (returned before after n k p h) q =
      let all_ = ap sum p in
      record {
        counted = unfold settle in omega (arith, q.counted, all_, sum-middle before after n);
        within = unfold settle in omega (arith, q.within);
      }
  Step-IsQuota {s} (threw before after n k p h) q =
      let all_ = ap sum p in
      record {
        counted = unfold settle in omega (arith, q.counted, all_, sum-middle before after n);
        within = unfold settle in omega (arith, q.within);
      }
  Step-IsQuota stop_all q = record { counted = q.counted; within = q.within }

  -- In every interleaving of the tasks, and whenever the proxy is stopped: the counter is the sum of
  -- the claims under way and of the bytes of the calls that returned, and it is within the limit.
  pub Reach-IsQuota : {s : System net_limit max} → Reach net_limit max s → IsQuota s
  Reach-IsQuota start = record { counted = omega arith; within = omega arith }
  Reach-IsQuota (later r st) = Step-IsQuota st (Reach-IsQuota r)

  -- The abstract quota: deliveries that may follow one another.
  pub data Allowed : List ℕ → Type 0 where
    nothing : Allowed []
    delivery : (k : ℕ) (ks : List ℕ) → Allowed ks → sum (k ∷ ks) ≤ max → Allowed (k ∷ ks)

  Step-Allowed :
      {s t : System net_limit max}
      → Step net_limit max s t
      → IsQuota s
      → Allowed s.results
      → Allowed t.results
  Step-Allowed (claims n t h e) q a = a
  Step-Allowed (refused n t h e) q a = a
  Step-Allowed stop_all q a = a
  Step-Allowed (threw before after n k p h) q a = a
  Step-Allowed {s} (returned before after n k p h) q a =
      let all_ = ap sum p in
      delivery k s.results a (omega (arith, q.counted, q.within, all_, sum-middle before after n))

  -- The counter with its claims refines a quota: however the tasks interleave, the calls that
  -- returned could follow one another under a limit checked at each of them.
  pub Reach-Allowed : {s : System net_limit max} → Reach net_limit max s → Allowed s.results
  Reach-Allowed start = nothing
  Reach-Allowed (later r st) = Step-Allowed st (Reach-IsQuota r) (Reach-Allowed r)
