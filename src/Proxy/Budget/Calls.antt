-- ===== src/Proxy/Budget/Calls.antt =====
-- Calls of `SendBudgeted` one after another.
use Prim.Native.Nat.{min}
use mathlib.Core.Path.{subst}
use webshot.Base.{
  ℕ, ◌≤◌, ◌≡◌, refl, sym, ◌==◌, Bool, true, false, Bool-cases, List, [], ◌∷◌, ◌⊎◌, inl, inr, arith,
}
use webshot.Base.Bytes.{Bytes}
use webshot.Proxy.Budget.{
  Shared, Sent, sent, throws, claim, settle, send_budgeted, after_claim, System, claims, refused,
  returned, threw, Reach, later,
}

module _ (net_limit : ℕ → Bytes) (max : ℕ) where
  -- What the socket may answer to a claim.
  abbrev pub IsAnswer : ℕ → Sent → Type 0
  IsAnswer n (sent k) = k ≤ n
  IsAnswer n (throws k) = k ≤ n

  -- One call alone, seen from all tasks.
  abbrev pub IsCall : System net_limit max → Shared × ℕ → Type 0
  IsCall s r =
      (u : System net_limit max) × Reach net_limit max u
      × (u.shared ≡ r.0)
      × (u.pending ≡ s.pending)
      × ((u.results ≡ s.results) ⊎ (u.results ≡ r.1 ∷ s.results))

  answered :
      (s : System net_limit max) (n : ℕ) (answer : Sent)
      → Reach net_limit max s
      → (before after : List ℕ) → s.pending ≡ n ∷ after
      → IsAnswer n answer
      → (u : System net_limit max) × Reach net_limit max u
        × (u.shared ≡ (settle net_limit max n answer s.shared).0)
        × (u.pending ≡ after)
        × ((u.results ≡ s.results)
            ⊎ (u.results ≡ (settle net_limit max n answer s.shared).1 ∷ s.results))
  answered s n (sent k) r before after p h = (
    record s {
      shared = (settle net_limit max n (sent k) s.shared).0;
      pending = after;
      results = k ∷ s.results;
    },
    later r (returned [] after n k p h),
    refl,
    refl,
    inr (unfold settle in refl),
  )
  answered s n (throws k) r before after p h = (
    record s {
      shared = (settle net_limit max n (throws k) s.shared).0;
      pending = after;
      lost = k ∷ s.lost;
    },
    later r (threw [] after n k p h),
    refl,
    refl,
    inl refl,
  )

  after_claim-IsCall :
      (s : System net_limit max) (n : ℕ) (answer : Sent) (c : Shared × Bool)
      → Reach net_limit max s
      → n ≤ max
      → IsAnswer n answer
      → claim net_limit max n s.shared ≡ c
      → IsCall s (after_claim net_limit max n answer c)
  after_claim-IsCall s n answer (t, false) r h a e =
      (record s { shared = t }, later r (refused n t h e), refl, refl, inl refl)
  after_claim-IsCall s n answer (t, true) r h a e =
      answered (record s { shared = t; pending = n ∷ s.pending }) n answer
        (later r (claims n t h e)) [] s.pending refl a

  -- A call of `SendBudgeted` on its own is a sequence of those steps: after it no claim of its own is
  -- left, and the bytes that it returns are the ones counted.
  send_budgeted-IsCall :
      (s : System net_limit max) (size : ℕ) (answer : Sent)
      → Reach net_limit max s
      → IsAnswer (min size max) answer
      → IsCall s (send_budgeted net_limit max size answer s.shared)
  unfolding send_budgeted
  send_budgeted-IsCall s size answer r a = elim (Bool-cases (size == 0)) [
    | inl e ↦ idle (ground arith)
    | inr e ↦ elim (Bool-cases s.shared.stopped) [
      | inl f ↦ idle (ground arith)
      | inr f ↦ elim (Bool-cases (min size max == 0)) [
        | inl g ↦ idle (ground arith)
        | inr g ↦
            let q : send_budgeted net_limit max size answer s.shared
                ≡ after_claim net_limit max (min size max) answer
                    (claim net_limit max (min size max) s.shared) =
              ground arith in
            subst (IsCall s) (sym q) (
              after_claim-IsCall s (min size max) answer
                (claim net_limit max (min size max) s.shared) r (omega arith) a refl)
      ]
    ]
  ]
    where
      idle :
          send_budgeted net_limit max size answer s.shared ≡ (s.shared, 0)
          → IsCall s (send_budgeted net_limit max size answer s.shared)
      idle q = subst (IsCall s) (sym q) (s, r, refl, refl, inl refl)
