-- ===== src/Crawl.antt =====
-- A capture, from the crawler's runs to the stored row: webshotd/src/crud.cpp. Log lines are left
-- out. `CrawlerRunner::Run` (webshotd/src/crawler/runner.cpp) and the text of its errors are
-- arguments here.
pub mod Fallback
pub mod Attempts
pub mod Store
pub mod Task
pub mod Deny
pub mod Logs
pub mod Tests
use webshot.Base.{
  ℕ, Bool, true, false, not, ◌==◌, if◌then◌else◌, List, [], ◌∷◌, ◌++◌, Option, none, some, length,
  Expected, ok, err,
}
use webshot.Base.Bytes.{Bytes, codes}
use webshot.Base.Outcome.{Outcome, returns, aborts, ◌>>=◌}
use Fallback.{CrawlerError, CrawlerErrorKind, archive_size_limit, should_retry_with_http}

-- `Link` as these functions use it.
pub record Link : Type 0 where
  pub https_url : Bytes
  pub http_url : Bytes
  pub key : Bytes
  pub hostname : Bytes
  pub pathname : Bytes

pub data CaptureErrorKind : Type 0 where
  crawler size_limit persist_metadata_failed : CaptureErrorKind

pub record CaptureError : Type 0 where
  pub kind : CaptureErrorKind
  pub detail : Option Bytes

-- `CrawlerRunArtifacts`.
pub record CrawlerRun : Type 0 where
  pub error : Option CrawlerError
  pub wacz : Option Bytes
  pub content_sha256 : Option Bytes
  pub replay_url : Option Bytes

pub record CrawlContext : Type 0 where
  pub link : Link
  pub id : ℕ
  pub s3_key : Bytes
  pub wacz_bytes : Option Bytes
  pub content_sha256 : Option Bytes
  pub replay_url : Option Bytes
  pub error_message : Option Bytes

-- `MakeCaptureObjectKey`, with the library's text of a uuid.
unfoldable pub make_capture_object_key : (ℕ → Bytes) → Bytes → ℕ → Bytes
make_capture_object_key to_string bucket id =
    (bucket ++ codes "/") ++ (to_string id ++ codes ".wacz")

-- The constructor of `CrawlContext`.
unfoldable pub new_context : (ℕ → Bytes) → Bytes → ℕ → Link → CrawlContext
unfolding make_capture_object_key
new_context to_string bucket id link = record {
  link = link;
  id = id;
  s3_key = make_capture_object_key to_string bucket id;
  wacz_bytes = none;
  content_sha256 = none;
  replay_url = none;
  error_message = none;
}

is_archive_size_limit : CrawlerErrorKind → Bool
is_archive_size_limit archive_size_limit = true
is_archive_size_limit _ = false

-- The seed URLs handed to the crawler, in order, and what came of them.
pub record Crawled : Type 0 where
  pub attempts : List Bytes
  pub context : CrawlContext
  pub result : Expected (Unit {0}) CaptureError

-- `describe` is `FormatCrawlerError`; `parse_url` is the URL parser, giving the URL's text.
module _ (describe : CrawlerError → Bytes) (parse_url : Bytes → Option Bytes)
    (run : Bytes → CrawlerRun) where
  unfoldable pub make_capture_error : CrawlerError → CaptureError
  unfolding is_archive_size_limit
  make_capture_error error = record {
    kind = if is_archive_size_limit error.kind then size_limit else crawler;
    detail = some (describe error);
  }

  parsed_replay : CrawlContext → Bytes → Bytes → Option Bytes → Outcome (Option CrawlContext)
  parsed_replay ctx wacz sha none = aborts (codes "replay_url is not a URL")
  parsed_replay ctx wacz sha (some href) = returns (
      some
        (record ctx { wacz_bytes = some wacz; content_sha256 = some sha; replay_url = some href }))

  stored_fields :
      CrawlContext → Option Bytes → Option Bytes → Option Bytes → Outcome (Option CrawlContext)
  unfolding parsed_replay
  stored_fields ctx none sha replay =
      aborts (codes "crawler succeeded but did not provide WACZ bytes")
  stored_fields ctx (some wacz) none replay =
      aborts (codes "crawler did not provide content hash for a successful capture")
  stored_fields ctx (some wacz) (some sha) none =
      if length sha == 32
      then aborts (codes "crawler did not provide replay_url for a successful capture")
      else aborts (codes "content hash must be 32 bytes")
  stored_fields ctx (some wacz) (some sha) (some replay) =
      if length sha == 32
      then parsed_replay ctx wacz sha (parse_url replay)
      else aborts (codes "content hash must be 32 bytes")

  -- The context filled from a run without an error, or `none`.
  unfoldable pub try_store_success : CrawlContext → CrawlerRun → Outcome (Option CrawlContext)
  unfolding stored_fields
  try_store_success ctx r = elim r.error [
    | some e ↦ returns none
    | none ↦ stored_fields ctx r.wacz r.content_sha256 r.replay_url
  ]

  -- A run that stored nothing has to have an error.
  unfoldable pub crawl_failed : List Bytes → CrawlContext → CrawlerRun → Outcome Crawled
  unfolding make_capture_error
  crawl_failed attempts ctx r = elim r.error [
    | none ↦ aborts (codes "unsuccessful crawler run must include error")
    | some e ↦ returns (record {
      attempts = attempts;
      context = record ctx { error_message = some (codes "Crawler error for " ++ ctx.link.key) };
      result = err (make_capture_error e);
    })
  ]

  abbrev pub crawl_succeeded : List Bytes → CrawlContext → Outcome Crawled
  crawl_succeeded attempts ctx =
      returns (record { attempts = attempts; context = ctx; result = ok tt })

  retries : Option CrawlerError → Bool
  retries none = false
  retries (some e) = should_retry_with_http e

  unfoldable pub run_crawler_for_context : Bool → CrawlContext → Outcome Crawled
  unfolding try_store_success crawl_failed retries
  run_crawler_for_context https_only ctx = do
    let https_run = run ctx.link.https_url
    let once = ctx.link.https_url ∷ []
    let twice = ctx.link.https_url ∷ ctx.link.http_url ∷ []
    stored ← try_store_success ctx https_run
    elim stored [
      | some filled ↦ crawl_succeeded once filled
      | none ↦
          if https_only
          then crawl_failed once ctx https_run
          else if not (retries https_run.error)
          then crawl_failed once ctx https_run
          else do
            let http_run = run ctx.link.http_url
            again ← try_store_success ctx http_run
            elim again [
              | some filled ↦ crawl_succeeded twice filled
              | none ↦ crawl_failed twice ctx http_run
            ]
    ]
