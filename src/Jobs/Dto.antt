-- ===== src/Jobs/Dto.antt =====
-- `MakeCaptureJob` of webshotd/src/crud.cpp: what a client of the API sees of a row.
use mathlib.Core.Path.{◌∙◌}
use webshot.Base.{
  ℕ, ◌≡◌, refl, true, false, if◌then◌else◌, Bool-cases, [], ◌∷◌, Option, none, some, ◌⊎◌, inl, inr,
  arith, any,
}
use webshot.Base.Outcome.{Outcome, returns, aborts, ◌>>=◌}
use webshot.Base.Bytes.{Bytes, codes, ◌=?◌}
use webshot.Jobs.{Job, Status, pending, running, succeeded, failed}
use webshot.Jobs.States.{IsConsistent, Fits}

pub data JobErrorKind : Type 0 where
  size_limit crawler s3_upload db_insert internal_server : JobErrorKind

-- The column `status` is text.
abbrev pub status_text : Status → Bytes
status_text pending = codes "pending"
status_text running = codes "running"
status_text succeeded = codes "succeeded"
status_text failed = codes "failed"

unfoldable pub parse_job_status : Bytes → Outcome Status
parse_job_status status =
    if status =? codes "pending"
    then returns pending
    else if status =? codes "running"
    then returns running
    else if status =? codes "succeeded"
    then returns succeeded
    else if status =? codes "failed"
    then returns failed
    else aborts (codes "unexpected crawl_job.status")

unfoldable pub parse_job_error_kind : Option Bytes → Outcome (Option JobErrorKind)
parse_job_error_kind none = returns none
parse_job_error_kind (some category) =
    if category =? codes "size_limit"
    then returns (some size_limit)
    else if category =? codes "crawler_failed"
    then returns (some crawler)
    else if category =? codes "s3_upload_failed"
    then returns (some s3_upload)
    else if category =? codes "db_insert_failed"
    then returns (some db_insert)
    else if category =? codes "internal_server_error"
    then returns (some internal_server)
    else aborts (codes "unexpected crawl_job.error_category")

unfoldable pub public_job_error_message : Option JobErrorKind → Bytes
public_job_error_message none = codes "internal server error"
public_job_error_message (some size_limit) = codes "capture exceeded archive size limit"
public_job_error_message (some crawler) = codes "capture failed"
public_job_error_message (some s3_upload) = codes "internal server error"
public_job_error_message (some db_insert) = codes "internal server error"
public_job_error_message (some internal_server) = codes "internal server error"

-- `dto::UuidWithTimeLink`.
pub record CaptureRef : Type 0 where
  pub uuid : ℕ
  pub created_at : ℕ
  pub link : Bytes

-- `dto::CaptureJob`; the DTO's status has the constructors of the row's.
pub record CaptureJob : Type 0 where
  pub uuid : ℕ
  pub link : Bytes
  pub status : Status
  pub created_at : ℕ
  pub started_at : Option ℕ
  pub finished_at : Option ℕ
  pub result_created_at : Option ℕ
  pub error : Option Bytes
  pub result : Option CaptureRef

abbrev pub base_job : Job → Status → CaptureJob
base_job row status = record {
  uuid = row.uuid;
  link = row.link;
  status = status;
  created_at = row.created_at;
  started_at = row.started_at;
  finished_at = row.finished_at;
  result_created_at = row.result_created_at;
  error = none;
  result = none;
}

-- The `if (status == kFailed)` and the `if (status == kSucceeded && job.result_created_at)`.
unfoldable pub with_error : Status → Option Bytes → CaptureJob → Outcome CaptureJob
with_error failed category job = do
  kind ← parse_job_error_kind category
  returns (record job { error = some (public_job_error_message kind) })
with_error _ category job = returns job

unfoldable pub with_result : Status → Option ℕ → Option ℕ → CaptureJob → Outcome CaptureJob
with_result succeeded (some t) (some id) job =
    returns (record job { result = some (record { uuid = id; created_at = t; link = job.link }) })
with_result succeeded (some t) none job = aborts (codes "succeeded job must have result_capture_id")
with_result _ _ _ job = returns job

unfoldable pub make_capture_job : Job → Outcome CaptureJob
make_capture_job row = do
  status ← parse_job_status (status_text row.status)
  job ← with_error status row.error_category (base_job row status)
  with_result status row.result_created_at row.result_capture_id job

-- `MakePendingCaptureJob`.
unfoldable pub make_pending_capture_job : ℕ → Bytes → ℕ → CaptureJob
make_pending_capture_job uuid link created_at = record {
  uuid = uuid;
  link = link;
  status = pending;
  created_at = created_at;
  started_at = none;
  finished_at = none;
  result_created_at = none;
  error = none;
  result = none;
}

-- The categories that the schema's check on `error_category` lets in.
abbrev pub IsCategory : Bytes → Type 0
IsCategory c =
    any (◌=?◌ c) (
      codes "size_limit"
      ∷ codes "crawler_failed"
      ∷ codes "s3_upload_failed"
      ∷ codes "db_insert_failed"
      ∷ codes "internal_server_error"
      ∷ [])
    ≡ true

abbrev pub HasCategory : Option Bytes → Type 0
HasCategory none = Unit
HasCategory (some c) = IsCategory c

-- What a client may read in an error.
abbrev pub IsPublic : Bytes → Type 0
IsPublic m =
    (m ≡ codes "internal server error")
    ⊎ (m ≡ codes "capture exceeded archive size limit")
    ⊎ (m ≡ codes "capture failed")

abbrev pub HasOutcome : Status → CaptureJob → Type 0
HasOutcome failed c = ((m : Bytes) × (c.error ≡ some m) × IsPublic m) × (c.result ≡ none)
HasOutcome succeeded c =
    (c.error ≡ none) × ((r : CaptureRef) × (c.result ≡ some r) × (r.link ≡ c.link))
HasOutcome _ c = (c.error ≡ none) × (c.result ≡ none)

parse-status_text : (s : Status) → parse_job_status (status_text s) ≡ returns s
unfolding parse_job_status
parse-status_text pending = refl
parse-status_text running = refl
parse-status_text succeeded = refl
parse-status_text failed = refl

parse-category :
    (c : Bytes)
    → IsCategory c
    → (k : JobErrorKind) × (parse_job_error_kind (some c) ≡ returns (some k))
unfolding parse_job_error_kind
parse-category c h = elim (Bool-cases (c =? codes "size_limit")) [
  | inl e ↦ (size_limit, rw e)
  | inr e ↦ elim (Bool-cases (c =? codes "crawler_failed")) [
    | inl f ↦ (crawler, rw (e, f))
    | inr f ↦ elim (Bool-cases (c =? codes "s3_upload_failed")) [
      | inl g ↦ (s3_upload, rw (e, f, g))
      | inr g ↦ elim (Bool-cases (c =? codes "db_insert_failed")) [
        | inl k ↦ (db_insert, rw (e, f, g, k))
        | inr k ↦ (internal_server, rw (e, f, g, k) (last_category c e f g k h))
      ]
    ]
  ]
]
  where
    last_category :
        (c : Bytes)
        → (c =? codes "size_limit") ≡ false
        → (c =? codes "crawler_failed") ≡ false
        → (c =? codes "s3_upload_failed") ≡ false
        → (c =? codes "db_insert_failed") ≡ false
        → IsCategory c
        → (if c =? codes "internal_server_error"
            then returns (some internal_server)
            else aborts (codes "unexpected crawl_job.error_category"))
          ≡ returns (some internal_server)
    last_category c e f g k h = ground arith

public_job_error_message-IsPublic :
    (k : JobErrorKind) → IsPublic (public_job_error_message (some k))
unfolding public_job_error_message
public_job_error_message-IsPublic size_limit = inr (inl refl)
public_job_error_message-IsPublic crawler = inr (inr refl)
public_job_error_message-IsPublic _ = inl refl

shown :
    (s : Status) (row : Job)
    → row.status ≡ s
    → make_capture_job row ≡ (
        with_error s row.error_category (base_job row s)
        >>= with_result s row.result_created_at row.result_capture_id)
unfolding make_capture_job
shown s row e = rw (e, parse-status_text s)

-- A row that is consistent, with a category that the schema lets in, is shown without an abort: with
-- its status; with a capture of the same link if it succeeded; with one of three fixed texts as its
-- error if it failed, whatever diagnostics the row holds; and with neither otherwise.
pub make_capture_job-HasOutcome :
    (now : ℕ) (row : Job)
    → IsConsistent now row
    → HasCategory row.error_category
    → (c : CaptureJob) × (make_capture_job row ≡ returns c)
      × (c.status ≡ row.status)
      × HasOutcome row.status c
make_capture_job-HasOutcome now row f h = go row.status refl f
  where
    go :
        (s : Status)
        → row.status ≡ s
        → Fits s row now
        → (c : CaptureJob) × (make_capture_job row ≡ returns c) × (c.status ≡ s) × HasOutcome s c
    go pending e f = (
      base_job row pending,
      shown pending row e ∙ unfold with_error with_result in refl,
      refl,
      (refl, refl),
    )
    go running e f = (
      base_job row running,
      shown running row e ∙ unfold with_error with_result in refl,
      refl,
      (refl, refl),
    )
    go succeeded e (_, _, _, _, _, _, (id, res), (t, at), _) =
        let r : CaptureRef = record { uuid = id; created_at = t; link = row.link } in
        (
          record (base_job row succeeded) { result = some r },
          shown succeeded row e ∙ rw (res, at) (unfold with_error with_result in refl),
          refl,
          (refl, (r, refl, refl)),
        )
    go failed e (_, _, _, _, _, _, (cat, eq)) =
        let (k, parsed) = parse-category cat (rw eq at h) in
        (
          record (base_job row failed) { error = some (public_job_error_message (some k)) },
          shown failed row e ∙ rw eq (unfold with_error with_result in rw parsed),
          refl,
          ((public_job_error_message (some k), refl, public_job_error_message-IsPublic k), refl),
        )
