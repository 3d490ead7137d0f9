-- ===== src/Crawl/Task.antt =====
-- `Crud::MakeCaptureJob` of webshotd/src/crud.cpp: the row of the job, and the background task that
-- carries it to its end. Log lines and counters are left out.
pub mod Outcomes
use webshot.Base.{
  ℕ, ◌+◌, Bool, true, false, if◌then◌else◌, ltb, List, [], ◌∷◌, ◌++◌, Option, none, some, Expected,
  ok, err,
}
use webshot.Base.Bytes.{Bytes, codes}
use webshot.Base.Outcome.{Outcome, returns, aborts, ◌>>=◌}
use webshot.Captures.{PgError}
use webshot.Jobs.{
  Job, Jobs, MakeOrReuseCrawlJobResult, make_or_reuse_crawl_job_locked, insert_crawl_job,
  mark_crawl_job_running, mark_crawl_job_failed, mark_crawl_job_succeeded,
}
use webshot.Jobs.Dto.{CaptureJob, make_capture_job, make_pending_capture_job}
use webshot.Crawl.{CaptureError, CaptureErrorKind, crawler, size_limit, persist_metadata_failed}
use webshot.Crawl.Store.{StoredCapture}

-- How `RunCrawlJob` leaves the task: with its result, or with an exception, which finds the task
-- cancelled (for a reason) or not.
pub data TaskRun : Type 0 where
  ran : Expected StoredCapture CaptureError → TaskRun
  cancelled : Bytes → TaskRun
  threw : Bytes → TaskRun

-- What Postgres answers to the two updates, where it is an error, and its clock at each.
pub record TaskFaults : Type 0 where
  pub mark_running : Option PgError
  pub mark_end : Option PgError
  pub started : ℕ
  pub ended : ℕ

-- The category and the message that go into the row.
unfoldable pub failure_of : CaptureError → Bytes × Bytes
failure_of e = elim e.kind [
  | size_limit ↦ (codes "size_limit", codes "capture exceeded archive size limit")
  | persist_metadata_failed ↦ (codes "internal_server_error", codes "internal server error")
  | crawler ↦ elim e.detail [
    | some detail ↦ (codes "crawler_failed", detail)
    | none ↦ (codes "crawler_failed", codes "crawler error")
  ]
]

unfoldable pub mark_failed : TaskFaults → ℕ → Bytes × Bytes → Jobs → Jobs
mark_failed faults id (category, message) jobs = elim faults.mark_end [
  | some e ↦ jobs
  | none ↦ (mark_crawl_job_failed id category message faults.ended jobs).0
]

unfoldable pub mark_succeeded : TaskFaults → ℕ → StoredCapture → Jobs → Jobs
mark_succeeded faults id s jobs = elim faults.mark_end [
  | some e ↦ jobs
  | none ↦ (mark_crawl_job_succeeded id s.id s.created_at faults.ended jobs).0
]

unfoldable pub end_job : TaskFaults → ℕ → TaskRun → Jobs → Jobs
unfolding mark_failed mark_succeeded failure_of
end_job faults id (ran (ok s)) jobs = mark_succeeded faults id s jobs
end_job faults id (ran (err e)) jobs = mark_failed faults id (failure_of e) jobs
end_job faults id (cancelled reason) jobs =
    mark_failed faults id (codes "crawler_failed", codes "crawl job cancelled: " ++ reason) jobs
end_job faults id (threw what) jobs =
    mark_failed faults id (codes "internal_server_error", codes "internal server error") jobs

-- The body of the task `crawl_job`.
unfoldable pub crawl_job_task : TaskFaults → ℕ → TaskRun → Jobs → Jobs
unfolding end_job
crawl_job_task faults id run jobs = elim faults.mark_running [
  | some e ↦ jobs
  | none ↦ end_job faults id run (mark_crawl_job_running id faults.started jobs)
]

pub data CreateJobError : Type 0 where
  db_error : CreateJobError

-- The answer to the caller, and whether a task is started for the job.
pub record Submitted : Type 0 where
  pub jobs : Jobs
  pub job : Expected CaptureJob CreateJobError
  pub task : Option ℕ

locked : Jobs → MakeOrReuseCrawlJobResult → CaptureJob → Submitted
locked jobs r job = record {
  jobs = jobs;
  job = ok job;
  task = if r.created then some job.uuid else none;
}

submit_locked : Jobs × MakeOrReuseCrawlJobResult → Outcome Submitted
unfolding locked
submit_locked (jobs, r) = do job ← make_capture_job r.job; returns (locked jobs r job)

-- The first argument is the error of the insertion or of the transaction; `fresh` is the generated id,
-- `now` the service's clock and `at` Postgres'.
unfoldable pub make_capture_job_for_link :
    Option PgError → ℕ → ℕ → ℕ → ℕ → Bytes → Jobs → Outcome Submitted
unfolding submit_locked
make_capture_job_for_link (some e) link_ratelimit now at fresh link jobs =
    returns (record { jobs = jobs; job = err db_error; task = none })
make_capture_job_for_link none link_ratelimit now at fresh link jobs =
    if ltb 0 link_ratelimit
    then submit_locked (make_or_reuse_crawl_job_locked link link_ratelimit now at fresh jobs)
    else returns (record {
      jobs = insert_crawl_job fresh link at jobs;
      job = ok (make_pending_capture_job fresh link at);
      task = some fresh;
    })
