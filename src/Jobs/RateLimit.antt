-- ===== src/Jobs/RateLimit.antt =====
-- `MakeOrReuseCrawlJobLocked`: at most one job for a link in each rate-limit window.
use mathlib.Core.Path.{subst}
use mathlib.Core.Bool.{false≢true}
use webshot.Base.{
  ℕ, ◌+◌, ◌≤◌, ◌<◌, ◌≡◌, refl, ◌∙◌, sym, Bool, true, false, ltb, if◌then◌else◌, Bool-cases, [], ◌∷◌,
  Option, none, some, All, ◌⊎◌, inl, inr, arith, ltb→lt,
}
use webshot.Base.Bytes.{Bytes, ◌=?◌, =?_iff}
use webshot.Jobs.{
  Job, Jobs, new_job, insert_crawl_job, find_latest_crawl_job_for_link, later_of, is_later,
  make_or_reuse_crawl_job_locked, MakeOrReuseCrawlJobResult,
}

-- Every job of the link was created by `t`.
abbrev pub CreatedBy : Bytes → ℕ → Jobs → Type 0
CreatedBy link t = All (λ j. j.link ≡ link → j.created_at ≤ t)

abbrev CoversLatest : Bytes → Jobs → Option Job → Type 0
CoversLatest link jobs none = All (λ j. j.link ≡ link → ⊥) jobs
CoversLatest link jobs (some k) = CreatedBy link k.created_at jobs × (k.link ≡ link)

CreatedBy-mono :
    (link : Bytes) (s t : ℕ) (jobs : Jobs) → s ≤ t → CreatedBy link s jobs → CreatedBy link t jobs
CreatedBy-mono link s t [] h c = tt
CreatedBy-mono link s t (j ∷ jobs) h c =
    ((λ e. let first : j.created_at ≤ s = c.0 e in omega arith), CreatedBy-mono link s t jobs h c.1)

none-CreatedBy :
    (link : Bytes) (t : ℕ) (jobs : Jobs) → All (λ j. j.link ≡ link → ⊥) jobs → CreatedBy link t jobs
none-CreatedBy link t [] h = tt
none-CreatedBy link t (j ∷ jobs) h = ((λ e. absurd (h.0 e)), none-CreatedBy link t jobs h.1)

later_of-cases :
    (j k : Job)
    → ((k ≡ later_of j (some k)) × (j.created_at ≤ k.created_at))
      ⊎ ((j ≡ later_of j (some k)) × (k.created_at ≤ j.created_at))
later_of-cases j k = elim (Bool-cases (is_later k j)) [
  | inl later ↦ inl (rw later, ground arith)
  | inr earlier ↦ inr (rw earlier, ground arith)
]

differs : (a b : Bytes) → (a =? b) ≡ false → a ≡ b → ⊥
differs a b n e = false≢true (sym n ∙ (=?_iff a b).1 e)

find_latest-CoversLatest :
    (link : Bytes) (jobs : Jobs) → CoversLatest link jobs (find_latest_crawl_job_for_link link jobs)
unfolding find_latest_crawl_job_for_link
find_latest-CoversLatest link [] = tt
find_latest-CoversLatest link (j ∷ jobs) =
    go (find_latest_crawl_job_for_link link jobs) (j.link =? link) refl
      (find_latest-CoversLatest link jobs)
  where
    go :
        (o : Option Job) (b : Bool)
        → (j.link =? link) ≡ b
        → CoversLatest link jobs o
        → CoversLatest link (j ∷ jobs) (if b then some (later_of j o) else o)
    go none true e c =
        (((λ _. omega arith), none-CreatedBy link j.created_at jobs c), (=?_iff j.link link).0 e)
    go (some k) true e c = elim (later_of-cases j k) [
      | inl (r, le) ↦ subst (λ x. CoversLatest link (j ∷ jobs) (some x)) r (((λ _. le), c.0), c.1)
      | inr (r, le) ↦
          subst (λ x. CoversLatest link (j ∷ jobs) (some x)) r
            (
              ((λ _. omega arith), CreatedBy-mono link k.created_at j.created_at jobs le c.0),
              (=?_iff j.link link).0 e,
            )
    ]
    go none false e c = (differs j.link link e, c)
    go (some k) false e c = (((λ same. absurd (differs j.link link e same)), c.0), c.1)

-- A job is new, in front of a table whose jobs of the link are all older than the window; or it is
-- a job of the link, none is newer, it is inside its window, and the table is as it was.
abbrev pub Spacing : Bytes → ℕ → ℕ → ℕ → ℕ → Jobs → Jobs × MakeOrReuseCrawlJobResult → Type 0
Spacing link limit now at fresh jobs r =
    ((r.1.created ≡ true)
      × (r.0 ≡ r.1.job ∷ jobs)
      × (r.1.job ≡ new_job fresh link at)
      × All (λ j. j.link ≡ link → j.created_at + limit ≤ now) jobs)
    ⊎ ((r.1.created ≡ false)
        × (r.0 ≡ jobs)
        × (r.1.job.link ≡ link)
        × (now < r.1.job.created_at + limit)
        × CreatedBy link r.1.job.created_at jobs)

module _ (link : Bytes) (limit now at fresh : ℕ) (jobs : Jobs) (pos : 0 < limit) where
  creates : Jobs × MakeOrReuseCrawlJobResult
  creates = (new_job fresh link at ∷ jobs, record { job = new_job fresh link at; created = true })

  make_or_reuse-none :
      find_latest_crawl_job_for_link link jobs ≡ none
      → make_or_reuse_crawl_job_locked link limit now at fresh jobs ≡ creates
  unfolding make_or_reuse_crawl_job_locked insert_crawl_job creates
  make_or_reuse-none e = ground (arith, pos)

  make_or_reuse-old :
      (k : Job)
      → find_latest_crawl_job_for_link link jobs ≡ some k
      → ltb now (k.created_at + limit) ≡ false
      → make_or_reuse_crawl_job_locked link limit now at fresh jobs ≡ creates
  unfolding make_or_reuse_crawl_job_locked insert_crawl_job creates
  make_or_reuse-old k e old = ground (arith, pos)

  make_or_reuse-young :
      (k : Job)
      → find_latest_crawl_job_for_link link jobs ≡ some k
      → ltb now (k.created_at + limit) ≡ true
      → make_or_reuse_crawl_job_locked link limit now at fresh jobs
        ≡ (jobs, record { job = k; created = false })
  unfolding make_or_reuse_crawl_job_locked
  make_or_reuse-young k e young = ground (arith, pos)

  CreatedBy-old :
      (t : ℕ) (l : Jobs)
      → t + limit ≤ now
      → CreatedBy link t l
      → All (λ j. j.link ≡ link → j.created_at + limit ≤ now) l
  CreatedBy-old t [] h c = tt
  CreatedBy-old t (j ∷ l) h c =
      ((λ e. let first : j.created_at ≤ t = c.0 e in omega arith), CreatedBy-old t l h c.1)

  absent-old :
      (l : Jobs)
      → All (λ j. j.link ≡ link → ⊥) l
      → All (λ j. j.link ≡ link → j.created_at + limit ≤ now) l
  absent-old [] h = tt
  absent-old (j ∷ l) h = ((λ e. absurd (h.0 e)), absent-old l h.1)

  -- With a rate limit, a job is created only if every earlier job of the link is older than the window
  -- by the service's clock. Otherwise the newest job of the link is returned, which is inside its
  -- window, and nothing is written.
  pub make_or_reuse-Spacing :
      Spacing link limit now at fresh jobs
        (make_or_reuse_crawl_job_locked link limit now at fresh jobs)
  unfolding creates
  make_or_reuse-Spacing =
      go (find_latest_crawl_job_for_link link jobs) refl (find_latest-CoversLatest link jobs)
    where
      go :
          (o : Option Job)
          → find_latest_crawl_job_for_link link jobs ≡ o
          → CoversLatest link jobs o
          → Spacing link limit now at fresh jobs
              (make_or_reuse_crawl_job_locked link limit now at fresh jobs)
      go none e c =
          subst (Spacing link limit now at fresh jobs) (sym (make_or_reuse-none e))
            (inl (refl, refl, refl, absent-old jobs c))
      go (some k) e c = elim (Bool-cases (ltb now (k.created_at + limit))) [
        | inl young ↦
            subst (Spacing link limit now at fresh jobs) (sym (make_or_reuse-young k e young))
              (inr (refl, refl, c.1, ltb→lt now (k.created_at + limit) young, c.0))
        | inr old ↦
            subst (Spacing link limit now at fresh jobs) (sym (make_or_reuse-old k e old))
              (inl (refl, refl, refl, CreatedBy-old k.created_at jobs (ground arith) c.0))
      ]
