-- ===== src/Proxy/Upstream/Rewriting.antt =====
-- The targets of `RewriteLocalFixtureIfNeeded`.

use webshot.Base.{
  ℕ, ◌≡◌, refl, ◌==◌, true, false, ◌&&◌, ◌||◌, Bool-cases, &&-true, ◌⊎◌, inl, inr, arith,
}
use webshot.Base.Bytes.{Bytes, codes}
use webshot.Proxy.{EgressProxyConfig}
use webshot.Proxy.Upstream.{
  UpstreamTarget, is_local_host, is_testsuite_loopback_host, is_testsuite_loopback_port,
  rewrite_port, rewrite_local_fixture_if_needed, target,
}

-- The port asked for at a host of the test setup, and the port it is rewritten to.
abbrev pub FixturePort : ℕ → ℕ → Type 0
FixturePort asked port =
    ((asked ≡ 80) × (port ≡ 18080))
    ⊎ ((asked ≡ 443) × (port ≡ 18443))
    ⊎ (((asked ≡ 18080) ⊎ (asked ≡ 18443)) × (port ≡ asked))

abbrev IsRewritten : Bytes → ℕ → UpstreamTarget → Type 0
IsRewritten host port u =
    (u ≡ target host port false)
    ⊎ ((p : ℕ) × FixturePort port p × (u ≡ target (codes "127.0.0.1") p true))

rewrite_port-IsRewritten :
    (host : Bytes) (port : ℕ) → IsRewritten host port (rewrite_port host port)
unfolding rewrite_port
rewrite_port-IsRewritten host port = elim (Bool-cases (port == 80)) [
  | inl e ↦ rw e (inr (18080, inl (ground arith, refl), refl))
  | inr e ↦ elim (Bool-cases (port == 443)) [
    | inl f ↦ rw (e, f) (inr (18443, inr (inl (ground arith, refl)), refl))
    | inr f ↦ elim (Bool-cases (port == 18080 || port == 18443)) [
      | inl g ↦ rw (e, f, g) (inr (port, inr (inr (ground arith, refl)), refl))
      | inr g ↦ rw (e, f, g) (inl refl)
    ]
  ]
]

module _ (cfg : EgressProxyConfig) (host : Bytes) (port : ℕ) where
  -- The targets of `RewriteLocalFixtureIfNeeded`.
  pub rewrite-cases :
      (rewrite_local_fixture_if_needed cfg host port ≡ target host port false)
      ⊎ ((cfg.enable_local_fixture_rewrite ≡ true)
          × (is_testsuite_loopback_host host ≡ true)
          × (is_testsuite_loopback_port cfg port ≡ true)
          × (rewrite_local_fixture_if_needed cfg host port ≡ target host port true))
      ⊎ ((cfg.enable_local_fixture_rewrite ≡ true)
          × (is_local_host host ≡ true)
          × ((p : ℕ) × FixturePort port p
              × (rewrite_local_fixture_if_needed cfg host port
                  ≡ target (codes "127.0.0.1") p true)))
  unfolding rewrite_local_fixture_if_needed
  rewrite-cases = elim (Bool-cases cfg.enable_local_fixture_rewrite) [
    | inr e ↦ inl (ground arith)
    | inl e ↦
        elim (Bool-cases (is_testsuite_loopback_host host && is_testsuite_loopback_port cfg port)) [
          | inl f ↦
              let (g, h) =
                &&-true (is_testsuite_loopback_host host) (is_testsuite_loopback_port cfg port) f in
              inr (inl (e, g, h, ground arith))
          | inr f ↦ elim (Bool-cases (is_local_host host)) [
            | inr g ↦ inl (ground arith)
            | inl g ↦ elim (rewrite_port-IsRewritten host port) [
              | inl h ↦ inl (ground arith)
              | inr (p, q, h) ↦ inr (inr (e, g, (p, q, ground arith)))
            ]
          ]
        ]
  ]
