-- ===== src/Crawl/Task/Outcomes.antt =====
-- How the background task leaves the row of its job.

use webshot.Base.{
  ℕ, ◌≡◌, refl, sym, ap, ◌∙◌, true, false, ◌==◌, Bool-cases, [], ◌∷◌, ◌++◌, Option, none, some,
  Option-cases, ok, err, inl, inr, arith,
}
use webshot.Base.Bytes.{Bytes, codes}
use webshot.Jobs.{
  Job, Jobs, pending, running, succeeded, failed, set_running, set_succeeded, set_failed, coalesce,
  update, single_row, mark_crawl_job_running, mark_crawl_job_failed, mark_crawl_job_succeeded,
  load_crawl_job,
}
use webshot.Crawl.Store.{StoredCapture}
use webshot.Crawl.Task.{
  TaskRun, ran, cancelled, threw, TaskFaults, failure_of, mark_failed, mark_succeeded, end_job,
  crawl_job_task,
}

single_row-jobs : (p : Jobs × Option Job) → (single_row p).0 ≡ p.0
unfolding single_row
single_row-jobs (jobs, none) = refl
single_row-jobs (jobs, some j) = refl

load-first :
    (id : ℕ) (set : Job → Option Job) (jobs : Jobs) (i k : Job)
    → (i.uuid == id) ≡ true
    → set i ≡ some k
    → k.uuid ≡ i.uuid
    → load_crawl_job id (update id set (i ∷ jobs)).0 ≡ some k
unfolding load_crawl_job update
load-first id set jobs i k q e u = rw (q, e) (rw u (rw q refl))

from_some : Job → Option Job → Job
from_some d none = d
from_some d (some j) = j

some-eq : (i j : Job) → Path (Option Job) (some i) (some j) → i ≡ j
unfolding from_some
some-eq i j h = ap (from_some i) h

load-update :
    (id : ℕ) (set : Job → Option Job) (jobs : Jobs) (j k : Job)
    → load_crawl_job id jobs ≡ some j
    → set j ≡ some k
    → k.uuid ≡ j.uuid
    → load_crawl_job id (update id set jobs).0 ≡ some k
unfolding load_crawl_job update
load-update id set [] j k h e u = ground arith
load-update id set (i ∷ jobs) j k h e u = elim (Bool-cases (i.uuid == id)) [
  | inl q ↦
      let p : i ≡ j = some-eq i j (rw q at h) in
      load-first id set jobs i k q (ap set p ∙ e) (u ∙ sym (ap (λ x. x.uuid) p))
  | inr q ↦ rw q (rw q (load-update id set jobs j k (rw q at h) e u))
]

load-cons :
    (other : ℕ) (i k : Job) (jobs : Jobs)
    → k.uuid ≡ i.uuid
    → (i.uuid == other) ≡ false
    → load_crawl_job other (k ∷ jobs) ≡ load_crawl_job other (i ∷ jobs)
unfolding load_crawl_job
load-cons other i k jobs u n = rw u (rw n refl)

load-update_other :
    (id other : ℕ) (set : Job → Option Job) (jobs : Jobs)
    → ((j k : Job) → set j ≡ some k → k.uuid ≡ j.uuid)
    → (id == other) ≡ false
    → load_crawl_job other (update id set jobs).0 ≡ load_crawl_job other jobs
unfolding update load_crawl_job
load-update_other id other set [] u n = refl
load-update_other id other set (i ∷ jobs) u n = elim (Bool-cases (i.uuid == id)) [
  | inl q ↦ elim (Option-cases (set i)) [
    | inl e ↦ rw (q, e) refl
    | inr (k, e) ↦ rw (q, e) (load-cons other i k jobs (u i k e) (ground arith))
  ]
  | inr q ↦ rw q (elim (Bool-cases (i.uuid == other)) [
    | inl r ↦ rw r refl
    | inr r ↦ rw r (load-update_other id other set jobs u n)
  ])
]

set_running-uuid : (now : ℕ) (j k : Job) → set_running now j ≡ some k → k.uuid ≡ j.uuid
unfolding set_running
set_running-uuid now j k h = ground arith

set_succeeded-uuid : (now c t : ℕ) (j k : Job) → set_succeeded now c t j ≡ some k → k.uuid ≡ j.uuid
unfolding set_succeeded
set_succeeded-uuid now c t j k h = ground arith

set_failed-uuid :
    (now : ℕ) (c m : Bytes) (j k : Job) → set_failed now c m j ≡ some k → k.uuid ≡ j.uuid
unfolding set_failed
set_failed-uuid now c m j k h = ground arith

abbrev pub HasFailed : Bytes × Bytes → Job → Type 0
HasFailed f k = (k.status ≡ failed) × (k.error_category ≡ some f.0) × (k.error_message ≡ some f.1)

-- What the row says once the task has ended.
abbrev pub Reports : TaskRun → Job → Type 0
Reports (ran (ok s)) k =
    (k.status ≡ succeeded)
    × (k.result_capture_id ≡ some s.id)
    × (k.result_created_at ≡ some s.created_at)
    × (k.error_category ≡ none)
Reports (ran (err e)) k = HasFailed (failure_of e) k
Reports (cancelled reason) k =
    HasFailed (codes "crawler_failed", codes "crawl job cancelled: " ++ reason) k
Reports (threw what) k = HasFailed (codes "internal_server_error", codes "internal server error") k

module _ (faults : TaskFaults) (id : ℕ) (quiet : faults.mark_end ≡ none) where
  failed_row :
      (f : Bytes × Bytes) (jobs : Jobs) (j : Job)
      → load_crawl_job id jobs ≡ some j
      → j.status ≡ running
      → (k : Job) × (load_crawl_job id (mark_failed faults id f jobs) ≡ some k) × HasFailed f k
  failed_row f jobs j h r =
      let k : Job = record j {
        status = failed;
        started_at = some (coalesce j.started_at faults.ended);
        finished_at = some faults.ended;
        error_category = some f.0;
        error_message = some f.1;
      } in
      (
        k,
        (unfold mark_failed mark_crawl_job_failed in
            rw (quiet, single_row-jobs (update id (set_failed faults.ended f.0 f.1) jobs))
              (load-update id (set_failed faults.ended f.0 f.1) jobs j k h
                (unfold set_failed in rw r refl) refl)),
        (refl, refl, refl),
      )

  end_job-Reports :
      (run : TaskRun) (jobs : Jobs) (j : Job)
      → load_crawl_job id jobs ≡ some j
      → j.status ≡ running
      → (k : Job) × (load_crawl_job id (end_job faults id run jobs) ≡ some k) × Reports run k
  unfolding end_job
  end_job-Reports (ran (ok s)) jobs j h r =
      let k : Job = record j {
        status = succeeded;
        finished_at = some faults.ended;
        error_category = none;
        error_message = none;
        result_created_at = some s.created_at;
        result_capture_id = some s.id;
      } in
      (
        k,
        (unfold mark_succeeded mark_crawl_job_succeeded in
            rw
              (
                quiet,
                single_row-jobs (update id (set_succeeded faults.ended s.id s.created_at) jobs),
              )
              (load-update id (set_succeeded faults.ended s.id s.created_at) jobs j k h
                (unfold set_succeeded in rw r refl) refl)),
        (refl, refl, refl, refl),
      )
  end_job-Reports (ran (err e)) jobs j h r = failed_row (failure_of e) jobs j h r
  end_job-Reports (cancelled reason) jobs j h r =
      failed_row (codes "crawler_failed", codes "crawl job cancelled: " ++ reason) jobs j h r
  end_job-Reports (threw what) jobs j h r =
      failed_row (codes "internal_server_error", codes "internal server error") jobs j h r

  mark_failed-others :
      (f : Bytes × Bytes) (jobs : Jobs) (other : ℕ)
      → (id == other) ≡ false
      → load_crawl_job other (mark_failed faults id f jobs) ≡ load_crawl_job other jobs
  unfolding mark_failed mark_crawl_job_failed
  mark_failed-others f jobs other n =
      rw (quiet, single_row-jobs (update id (set_failed faults.ended f.0 f.1) jobs))
        (load-update_other id other (set_failed faults.ended f.0 f.1) jobs
          (set_failed-uuid faults.ended f.0 f.1) n)

  mark_succeeded-others :
      (s : StoredCapture) (jobs : Jobs) (other : ℕ)
      → (id == other) ≡ false
      → load_crawl_job other (mark_succeeded faults id s jobs) ≡ load_crawl_job other jobs
  unfolding mark_succeeded mark_crawl_job_succeeded
  mark_succeeded-others s jobs other n =
      rw (quiet, single_row-jobs (update id (set_succeeded faults.ended s.id s.created_at) jobs))
        (load-update_other id other (set_succeeded faults.ended s.id s.created_at) jobs
          (set_succeeded-uuid faults.ended s.id s.created_at) n)

  end_job-others :
      (run : TaskRun) (jobs : Jobs) (other : ℕ)
      → (id == other) ≡ false
      → load_crawl_job other (end_job faults id run jobs) ≡ load_crawl_job other jobs
  unfolding end_job
  end_job-others (ran (ok s)) = mark_succeeded-others s
  end_job-others (ran (err e)) = mark_failed-others (failure_of e)
  end_job-others (cancelled reason) =
      mark_failed-others (codes "crawler_failed", codes "crawl job cancelled: " ++ reason)
  end_job-others (threw what) =
      mark_failed-others (codes "internal_server_error", codes "internal server error")

-- The background task of a pending job carries it to its end, however the crawl went, and reports
-- how it went; no other job's row changes. Postgres carries out both updates.
pub crawl_job_task-Reports :
    (faults : TaskFaults) (id : ℕ) (run : TaskRun) (jobs : Jobs) (j : Job)
    → faults.mark_running ≡ none
    → faults.mark_end ≡ none
    → load_crawl_job id jobs ≡ some j
    → j.status ≡ pending
    → ((k : Job) × (load_crawl_job id (crawl_job_task faults id run jobs) ≡ some k) × Reports run k)
      × ((other : ℕ)
          → (id == other) ≡ false
          → load_crawl_job other (crawl_job_task faults id run jobs) ≡ load_crawl_job other jobs)
unfolding crawl_job_task
crawl_job_task-Reports faults id run jobs j q quiet h p =
    let k : Job = record j {
      status = running;
      started_at = some faults.started;
      error_category = none;
      error_message = none;
      finished_at = none;
      result_created_at = none;
    } in
    let marked : load_crawl_job id (mark_crawl_job_running id faults.started jobs) ≡ some k =
      unfold mark_crawl_job_running in
      load-update id (set_running faults.started) jobs j k h (unfold set_running in rw p refl)
        refl in
    rw q (
      end_job-Reports faults id quiet run (mark_crawl_job_running id faults.started jobs) k marked
          refl,
      (λ other n.
          end_job-others faults id quiet run (mark_crawl_job_running id faults.started jobs) other n
          ∙ (unfold mark_crawl_job_running in
              load-update_other id other (set_running faults.started) jobs
                (set_running-uuid faults.started) n)),
    )
