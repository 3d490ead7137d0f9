-- ===== src/Crawl/Store.antt =====
-- The capture table and the object store, and how a crawl's archive gets into both:
-- `PersistMetadataForContext` and `RunCrawlJob` of webshotd/src/crud.cpp, `FindCaptureByLinkHash` and
-- `InsertCapture` of webshotd/src/capture_meta_repo.cpp.
pub mod Persist
pub mod Kept
pub mod Purge
use webshot.Base.{
  ℕ, Bool, true, false, not, ◌&&◌, ◌==◌, if◌then◌else◌, List, [], ◌∷◌, map, Option, none, some, any,
  keep, head, length, Expected, ok, err,
}
use webshot.Base.Bytes.{Bytes, codes, ◌=?◌}
use webshot.Base.Outcome.{Outcome, returns, aborts, ◌>>=◌}
use webshot.Base.Sorting.{sort}
use webshot.Captures.{Capture, PgError, to_row}
use webshot.Captures.Rows.{Row, newest_first}
use webshot.Prefix.{make_prefix_key, make_prefix_tree}
use webshot.Policy.{AccessPolicyError, Table, text2ltree, is_allowed_prefix}
use webshot.Crawl.{
  CaptureError, CrawlContext, CrawlerError, CrawlerRun, Crawled, Link, persist_metadata_failed,
  new_context, run_crawler_for_context,
}

-- The rows of `capture`, and the objects of the bucket by key.
pub record World : Type 0 where
  pub captures : List Capture
  pub objects : List (Bytes × Bytes)

-- What the services answer to the calls of one run, where it is an error; `now` is Postgres' clock.
pub record Faults : Type 0 where
  pub find : Option PgError
  pub put : Option Bytes
  pub insert : Option PgError
  pub delete : Option Bytes
  pub now : ℕ

pub record StoredCapture : Type 0 where
  pub id : ℕ
  pub created_at : ℕ

-- select_capture_by_link_hash.sql.
unfoldable pub find_capture_by_link_hash :
    Option PgError → Bytes → Bytes → List Capture → Expected (Option Row) PgError
find_capture_by_link_hash (some e) link sha t = err e
find_capture_by_link_hash none link sha t = ok (
    head (sort newest_first (map to_row (keep (λ c. c.link =? link && c.content_sha256 =? sha) t))))

-- insert_capture.sql: the id is the primary key, and a content hash has 32 bytes.
unfoldable pub insert_capture :
    Option PgError → Capture → List Capture → Expected (List Capture) PgError
insert_capture (some e) c t = err e
insert_capture none c t =
    if any (λ d. d.uuid == c.uuid) t
    then err (record { what = codes "duplicate key value violates unique constraint" })
    else if length c.content_sha256 == 32
    then ok (c ∷ t)
    else err (record { what = codes "new row violates check constraint" })

unfoldable pub put_object : Bytes → Bytes → List (Bytes × Bytes) → List (Bytes × Bytes)
put_object key body objects = (key, body) ∷ keep (λ o. not (o.0 =? key)) objects

unfoldable pub delete_object : Bytes → List (Bytes × Bytes) → List (Bytes × Bytes)
delete_object key objects = keep (λ o. not (o.0 =? key)) objects

abbrev pub Stored : Type 0
Stored = World × Option StoredCapture

-- From `if (!row)` on; the object that a failed insertion leaves behind is deleted.
unfoldable pub after_insert :
    Option Bytes → Bytes → Capture → World → Expected (List Capture) PgError → Stored
after_insert delete s3_key c w (ok t) =
    (record w { captures = t }, some (record { id = c.uuid; created_at = c.created_at }))
after_insert none s3_key c w (err e) = (record w { objects = delete_object s3_key w.objects }, none)
after_insert (some fault) s3_key c w (err e) = (w, none)

-- From `PutCaptureObject` on.
unfoldable pub upload : Faults → Bytes → Bytes → Capture → World → Stored
unfolding after_insert put_object
upload faults s3_key wacz c w = elim faults.put [
  | some e ↦ (w, none)
  | none ↦
      let uploaded = record w { objects = put_object s3_key wacz w.objects } in
      after_insert faults.delete s3_key c uploaded (insert_capture faults.insert c w.captures)
]

-- A capture of the same link with the same content is returned instead of a second one.
unfoldable pub dedupe :
    Faults → Bytes → Bytes → Capture → World → Expected (Option Row) PgError → Stored
dedupe faults s3_key wacz c w (err e) = (w, none)
dedupe faults s3_key wacz c w (ok (some row)) =
    (w, some (record { id = row.uuid; created_at = row.created_at }))
dedupe faults s3_key wacz c w (ok none) = upload faults s3_key wacz c w

abbrev pub Allowed : Type 0
Allowed = Expected Bool AccessPolicyError

module _ (to_hex : Bytes → Bytes) where
  -- The row of a context.
  abbrev pub capture_of : ℕ → CrawlContext → Bytes → Bytes → Capture
  capture_of now ctx sha replay = record {
    uuid = ctx.id;
    created_at = now;
    link = ctx.link.key;
    replay_url = replay;
    prefix_key = make_prefix_key ctx.link.hostname ctx.link.pathname;
    prefix_tree =
        text2ltree (make_prefix_tree to_hex (make_prefix_key ctx.link.hostname ctx.link.pathname));
    content_sha256 = sha;
  }

  store_archive :
      Faults → CrawlContext → Bytes → World → Option Bytes → Option Bytes → Outcome Stored
  store_archive faults ctx replay w none sha =
      aborts (codes "persistMetadataForContext called without WACZ bytes")
  store_archive faults ctx replay w (some wacz) none =
      aborts (codes "persistMetadataForContext called without content hash")
  store_archive faults ctx replay w (some wacz) (some sha) =
      if length sha == 32
      then returns (
          dedupe faults ctx.s3_key wacz (capture_of faults.now ctx sha replay) w
            (find_capture_by_link_hash faults.find ctx.link.key sha w.captures))
      else aborts (codes "content hash must be 32 bytes")

  checked : Faults → CrawlContext → Bytes → World → Allowed → Outcome Stored
  unfolding store_archive
  checked faults ctx replay w (err e) = returns (w, none)
  checked faults ctx replay w (ok false) = returns (w, none)
  checked faults ctx replay w (ok true) =
      store_archive faults ctx replay w ctx.wacz_bytes ctx.content_sha256

  unfoldable pub persist_metadata_for_context :
      Table → Faults → CrawlContext → World → Outcome Stored
  unfolding checked
  persist_metadata_for_context denylist faults ctx w = elim ctx.replay_url [
    | none ↦ aborts (codes "replayUrl must be set for a successful capture")
    | some replay ↦
        checked faults ctx replay w
          (is_allowed_prefix to_hex denylist (make_prefix_key ctx.link.hostname ctx.link.pathname))
  ]

  job_result : Stored → Outcome (World × Expected StoredCapture CaptureError)
  job_result (w, none) = returns (w, err (record { kind = persist_metadata_failed; detail = none }))
  job_result (w, some s) = returns (w, ok s)

  module _ (describe : CrawlerError → Bytes) (parse_url : Bytes → Option Bytes)
      (run : Bytes → CrawlerRun) (to_string : ℕ → Bytes) (bucket : Bytes) where
    after_crawl :
        Table → Faults → World → Crawled → Outcome (World × Expected StoredCapture CaptureError)
    unfolding job_result
    after_crawl denylist faults w c = elim c.result [
      | err e ↦ returns (w, err e)
      | ok u ↦ persist_metadata_for_context denylist faults c.context w >>= job_result
    ]

    -- The deadline and the slot that the job waits for are left out.
    unfoldable pub run_crawl_job :
        Bool
        → Table
        → Faults
        → ℕ
        → Link
        → World
        → Outcome (World × Expected StoredCapture CaptureError)
    unfolding after_crawl
    run_crawl_job https_only denylist faults id link w = do
      c ←
          run_crawler_for_context describe parse_url run https_only
            (new_context to_string bucket id link)
      after_crawl denylist faults w c
