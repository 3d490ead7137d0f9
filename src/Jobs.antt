-- ===== src/Jobs.antt =====
-- The table `crawl_job`: the statements of webshotd/sql/query/ that webshotd/src/shared_state_repo.cpp
-- runs over it. A statement that Postgres refuses to run is the caller's fault argument, in Crawl.
-- Times count microseconds since the epoch.
pub mod States
pub mod RateLimit
pub mod Dto
pub mod Tests
use webshot.Base.{
  ℕ, ◌+◌, ◌-◌, ◌/◌, Bool, true, false, not, ◌&&◌, ◌||◌, ltb, ◌==◌, if◌then◌else◌, List, [], ◌∷◌,
  Option, none, some, keep, Expected, ok, err,
}
use webshot.Base.Bytes.{Bytes, codes, ◌=?◌}
use webshot.Captures.{PgError}

-- `status in ('pending', 'running', 'succeeded', 'failed')`.
pub data Status : Type 0 where
  pending running succeeded failed : Status

-- `SharedCrawlJobRow`.
pub record Job : Type 0 where
  pub uuid : ℕ
  pub link : Bytes
  pub status : Status
  pub error_category : Option Bytes
  pub error_message : Option Bytes
  pub created_at : ℕ
  pub started_at : Option ℕ
  pub finished_at : Option ℕ
  pub result_created_at : Option ℕ
  pub result_capture_id : Option ℕ

abbrev pub Jobs : Type 0
Jobs = List Job

-- insert_crawl_job.sql, with the defaults of the schema.
abbrev pub new_job : ℕ → Bytes → ℕ → Job
new_job id link now = record {
  uuid = id;
  link = link;
  status = pending;
  error_category = none;
  error_message = none;
  created_at = now;
  started_at = none;
  finished_at = none;
  result_created_at = none;
  result_capture_id = none;
}

unfoldable pub insert_crawl_job : ℕ → Bytes → ℕ → Jobs → Jobs
insert_crawl_job id link now jobs = new_job id link now ∷ jobs

-- update_crawl_job_running.sql, on one row: `where status = 'pending'`.
unfoldable pub set_running : ℕ → Job → Option Job
set_running now j = elim j.status [
  | pending ↦ some (record j {
    status = running;
    started_at = some now;
    error_category = none;
    error_message = none;
    finished_at = none;
    result_created_at = none;
  })
  | running ↦ none
  | succeeded ↦ none
  | failed ↦ none
]

-- update_crawl_job_succeeded.sql: `where status = 'running'`.
unfoldable pub set_succeeded : ℕ → ℕ → ℕ → Job → Option Job
set_succeeded now capture_id created_at j = elim j.status [
  | running ↦ some (record j {
    status = succeeded;
    finished_at = some now;
    error_category = none;
    error_message = none;
    result_created_at = some created_at;
    result_capture_id = some capture_id;
  })
  | pending ↦ none
  | succeeded ↦ none
  | failed ↦ none
]

abbrev pub coalesce : Option ℕ → ℕ → ℕ
coalesce none d = d
coalesce (some t) d = t

-- update_crawl_job_failed.sql: `where status in ('pending', 'running')`.
unfoldable pub set_failed : ℕ → Bytes → Bytes → Job → Option Job
set_failed now category message j =
    let marked = record j {
      status = failed;
      started_at = some (coalesce j.started_at now);
      finished_at = some now;
      error_category = some category;
      error_message = some message;
    } in
    elim j.status [
      | pending ↦ some marked
      | running ↦ some marked
      | succeeded ↦ none
      | failed ↦ none
    ]

-- `update ... where id = $1 and ...`: ids are the primary key, so at most one row is met. The rows
-- after it, and the new row if there is one.
unfoldable pub update : ℕ → (Job → Option Job) → Jobs → Jobs × Option Job
update id set [] = ([], none)
update id set (j ∷ jobs) =
    if j.uuid == id
    then elim (set j) [ none ↦ (j ∷ jobs, none) | some j' ↦ (j' ∷ jobs, some j') ]
    else (j ∷ (update id set jobs).0, (update id set jobs).1)

unfoldable pub mark_crawl_job_running : ℕ → ℕ → Jobs → Jobs
unfolding update set_running
mark_crawl_job_running id now jobs = (update id (set_running now) jobs).0

-- `AsSingleRow` throws where the statement met no row; the duration is rounded to milliseconds.
no_single_row : PgError
no_single_row = record { what = codes "A single row result set is expected" }

duration_ms : Job → ℕ
duration_ms j = (coalesce j.finished_at 0 - coalesce j.started_at 0 + 500) / 1000

unfoldable pub single_row : Jobs × Option Job → Jobs × Expected ℕ PgError
unfolding duration_ms no_single_row
single_row (jobs, none) = (jobs, err no_single_row)
single_row (jobs, some j) = (jobs, ok (duration_ms j))

unfoldable pub mark_crawl_job_succeeded : ℕ → ℕ → ℕ → ℕ → Jobs → Jobs × Expected ℕ PgError
unfolding update set_succeeded single_row
mark_crawl_job_succeeded id capture_id created_at now jobs =
    single_row (update id (set_succeeded now capture_id created_at) jobs)

unfoldable pub mark_crawl_job_failed : ℕ → Bytes → Bytes → ℕ → Jobs → Jobs × Expected ℕ PgError
unfolding update set_failed single_row
mark_crawl_job_failed id category message now jobs =
    single_row (update id (set_failed now category message) jobs)

-- select_crawl_job.sql.
unfoldable pub load_crawl_job : ℕ → Jobs → Option Job
load_crawl_job id [] = none
load_crawl_job id (j ∷ jobs) = if j.uuid == id then some j else load_crawl_job id jobs

-- `order by created_at desc, id desc limit 1`.
abbrev pub is_later : Job → Job → Bool
is_later a b = ltb b.created_at a.created_at || (a.created_at == b.created_at && ltb b.uuid a.uuid)

abbrev pub later_of : Job → Option Job → Job
later_of j none = j
later_of j (some k) = if is_later k j then k else j

unfoldable pub find_latest_crawl_job_for_link : Bytes → Jobs → Option Job
find_latest_crawl_job_for_link link [] = none
find_latest_crawl_job_for_link link (j ∷ jobs) =
    let rest = find_latest_crawl_job_for_link link jobs in
    if j.link =? link then some (later_of j rest) else rest

pub record MakeOrReuseCrawlJobResult : Type 0 where
  pub job : Job
  pub created : Bool

-- The transaction of `MakeOrReuseCrawlJobLocked`, which runs alone for a link under its advisory
-- lock; `fresh` is the generated id, `now` the service's clock and `at`
-- Postgres'. Without a rate limit it takes no lock and always inserts.
unfoldable pub make_or_reuse_crawl_job_locked :
    Bytes → ℕ → ℕ → ℕ → ℕ → Jobs → Jobs × MakeOrReuseCrawlJobResult
make_or_reuse_crawl_job_locked link link_ratelimit now at fresh jobs =
    let latest = if ltb 0 link_ratelimit then find_latest_crawl_job_for_link link jobs else none in
    let created : Jobs × MakeOrReuseCrawlJobResult = (
      insert_crawl_job fresh link at jobs,
      record { job = new_job fresh link at; created = true },
    ) in
    elim latest [
      | none ↦ created
      | some job ↦
          if ltb now (job.created_at + link_ratelimit)
          then (jobs, record { job = job; created = false })
          else created
    ]

-- delete_crawl_jobs_expired.sql.
unfoldable pub delete_crawl_jobs_expired : ℕ → Jobs → Jobs
delete_crawl_jobs_expired cutoff = keep λ j. not (ltb j.created_at cutoff)
