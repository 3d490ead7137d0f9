-- ===== src/Crawl/Tests.antt =====
-- Crawls, their storage, purges and tasks on concrete states.
use webshot.Base.{
  ℕ, zero, suc, ◌+◌, ◌++◌, ◌==◌, ◌≡◌, refl, true, false, if◌then◌else◌, [], ◌∷◌, none, some, ok,
  inl, inr, arith,
}
use webshot.Base.Bytes.{Bytes, codes, ◌=?◌}
use webshot.Base.Outcome.{returns}
use webshot.Captures.{Capture}
use webshot.Jobs.{Job, new_job, load_crawl_job}
use webshot.Prefix.{make_prefix_key, make_prefix_tree}
use webshot.Policy.{Entry, is_allowed_prefix, insert_prefix, insert_row, changed, text2ltree}
use webshot.Base.Splitting.{split, cut}
use webshot.Prefix.Ancestors.{IsShortKey, covers, is_ancestor}
use webshot.Policy.Laws.{HasTrees}
use webshot.Crawl.Deny.{DenyAndPurge, deny_prefix_and_purge}
use webshot.Crawl.Deny.Denied.{EndsPurged, deny_prefix_and_purge-Denied}
use webshot.Prefix.Tests.{to_hex, hex_lib, host_short, page_short}
use webshot.Crawl.{Link, CrawlerRun, CrawlContext, Crawled, run_crawler_for_context}
use webshot.Crawl.Fallback.{CrawlerError, navigation, pos}
use webshot.Crawl.Attempts.{Decided, run_crawler_for_context-Decided}
use webshot.Crawl.Store.{World, Faults, Stored, persist_metadata_for_context, capture_of}
use webshot.Crawl.Store.Persist.{Ready}
use webshot.Crawl.Store.Kept.{
  HasObjects, IsDeduped, Tells, persist_metadata_for_context-HasObjects,
  persist_metadata_for_context-IsDeduped, persist_metadata_for_context-Tells,
}
use webshot.Crawl.Store.Purge.{PurgeFaults, Purge, purge_prefix}
use webshot.Crawl.Store.Purge.Purged.{Purged, purge_prefix-Purged}
use webshot.Crawl.Logs.{Retains, retain_log_head_and_tail, retain_log_head_and_tail-Retains}
use webshot.Crawl.Task.{threw, TaskFaults, crawl_job_task}
use webshot.Crawl.Task.Outcomes.{Reports, crawl_job_task-Reports}

abbrev link : Link
link = record {
  https_url = codes "https://ex.com/a";
  http_url = codes "http://ex.com/a";
  key = codes "ex.com/a";
  hostname = codes "ex.com";
  pathname = codes "/a";
}

abbrev repeated : ℕ → Bytes
repeated zero = []
repeated (suc n) = 7 ∷ repeated n

abbrev refused : CrawlerError
refused = record {
  kind = navigation;
  detail = none;
  seed_probe = some (record { status = some (pos 502); load_state = none });
}

-- HTTPS is refused, and HTTP gives an archive.
abbrev run : Bytes → CrawlerRun
run seed_url =
    if seed_url =? codes "https://ex.com/a"
    then record { error = some refused; wacz = none; content_sha256 = none; replay_url = none }
    else record {
      error = none;
      wacz = some (codes "wacz");
      content_sha256 = some (repeated 32);
      replay_url = some (codes "u");
    }

abbrev describe : CrawlerError → Bytes
describe e = []

abbrev context : CrawlContext
context = record {
  link = link;
  id = 5;
  s3_key = codes "b/5.wacz";
  wacz_bytes = none;
  content_sha256 = none;
  replay_url = none;
  error_message = none;
}

run_crawler_for_context-Decided_example :
    (c : Crawled) × (run_crawler_for_context describe some run false context ≡ returns c)
    × Decided some describe run context false c
run_crawler_for_context-Decided_example =
    run_crawler_for_context-Decided some describe run context false (inl (refused, refl))
      (inr (codes "wacz", repeated 32, codes "u", codes "u", refl, refl, refl, refl, refl, refl))

abbrev filled : CrawlContext
filled = record context {
  wacz_bytes = some (codes "wacz");
  content_sha256 = some (repeated 32);
  replay_url = some (codes "u");
}

ready : Ready to_hex (ok []) filled
ready = record {
  wacz = codes "wacz";
  sha = repeated 32;
  replay = codes "u";
  has_wacz = refl;
  has_sha = refl;
  has_length = refl;
  has_replay = refl;
}

abbrev digits : ℕ → Bytes
digits n = (48 + n) ∷ []

abbrev key_of : ℕ → Bytes
key_of id = codes "b/" ++ (digits id ++ codes ".wacz")

abbrev old : Capture
old = record {
  uuid = 3;
  created_at = 10;
  link = codes "ex.com/b";
  replay_url = codes "u";
  prefix_key = codes "com.ex/b";
  prefix_tree = codes "h" ∷ codes "x636f6d" ∷ codes "x6578" ∷ codes "p" ∷ codes "x62" ∷ [];
  content_sha256 = repeated 32;
}

abbrev world : World
world = record { captures = old ∷ []; objects = (key_of 3, codes "old") ∷ [] }

abbrev failing_insert : Faults
failing_insert = record {
  find = none;
  put = none;
  insert = some (record { what = codes "connection lost" });
  delete = none;
  now = 20;
}

persist_metadata_for_context-HasObjects_example :
    (s : Stored) × (persist_metadata_for_context to_hex (ok []) failing_insert filled world
      ≡ returns s)
    × HasObjects key_of s.0
persist_metadata_for_context-HasObjects_example =
    persist_metadata_for_context-HasObjects to_hex (ok []) failing_insert key_of filled world ready
      refl (refl, tt) ((refl, tt), (refl, tt))

persist_metadata_for_context-IsDeduped_example :
    (s : Stored) × (persist_metadata_for_context to_hex (ok []) failing_insert filled world
      ≡ returns s)
    × IsDeduped s.0.captures
persist_metadata_for_context-IsDeduped_example =
    persist_metadata_for_context-IsDeduped to_hex (ok []) failing_insert key_of filled world ready
      (tt, tt)

persist_metadata_for_context-Tells_example :
    (s : Stored) × (persist_metadata_for_context to_hex (ok []) failing_insert filled world
      ≡ returns s)
    × Tells
        (is_allowed_prefix to_hex (ok []) (make_prefix_key (codes "ex.com") (codes "/a")))
        failing_insert
        (capture_of to_hex 20 filled (repeated 32) (codes "u"))
        world
        s
unfolding ready
persist_metadata_for_context-Tells_example =
    persist_metadata_for_context-Tells to_hex (ok []) failing_insert key_of filled world ready
      ((refl, tt), (refl, tt))

abbrev quiet : PurgeFaults
quiet = record { select = λ w. none; s3 = λ w key. none; delete = λ w. none }

purge_prefix-Purged_example :
    (p : Purge) × (purge_prefix quiet key_of to_hex 2 (codes "com.ex") 100 world ≡ some p)
    × Purged quiet key_of (text2ltree (make_prefix_tree to_hex (codes "com.ex"))) world p
purge_prefix-Purged_example =
    purge_prefix-Purged to_hex quiet key_of 2 (codes "com.ex") 100 world (omega arith) (omega arith)
      (tt, tt)

abbrev host_row : Entry
host_row = record {
  prefix_key = codes "com.ex";
  prefix_tree = codes "h" ∷ codes "x636f6d" ∷ codes "x6578" ∷ [];
  reason = codes "deny_and_purge";
}

inserted :
    insert_prefix to_hex (ok []) (codes "com.ex") (codes "deny_and_purge") ≡ changed (host_row ∷ [])
unfolding insert_prefix insert_row split make_prefix_tree
inserted = refl

denied_page : make_prefix_key (codes "ex.com") (codes "/a") ≡ codes "com.ex/a"
unfolding make_prefix_key
denied_page = refl

denied_short : IsShortKey (make_prefix_key (codes "ex.com") (codes "/a"))
denied_short = rw denied_page page_short

denied_covered : covers (codes "com.ex") (make_prefix_key (codes "ex.com") (codes "/a")) ≡ true
unfolding covers is_ancestor split cut make_prefix_key
denied_covered = refl

ready_denied : Ready to_hex (ok (host_row ∷ [])) filled
ready_denied = record {
  wacz = codes "wacz";
  sha = repeated 32;
  replay = codes "u";
  has_wacz = refl;
  has_sha = refl;
  has_length = refl;
  has_replay = refl;
}

deny_prefix_and_purge-Denied_example :
    ((r : DenyAndPurge) × (deny_prefix_and_purge to_hex quiet key_of
          (ok [])
          2
          (codes "com.ex")
          100
          world
        ≡ some r)
      × EndsPurged quiet
          (text2ltree (make_prefix_tree to_hex (codes "com.ex")))
          (host_row ∷ [])
          world
          r)
    × (persist_metadata_for_context to_hex (ok (host_row ∷ [])) failing_insert filled world
        ≡ returns (world, none))
    × HasTrees to_hex (host_row ∷ [])
deny_prefix_and_purge-Denied_example =
    deny_prefix_and_purge-Denied hex_lib quiet key_of 2 (codes "com.ex") 100 world []
      (host_row ∷ []) tt inserted host_short (omega arith) (omega arith) (tt, tt) filled
      failing_insert world ready_denied denied_short denied_covered

abbrev waiting : Job
waiting = new_job 5 (codes "ex.com/a") 100

abbrev task_faults : TaskFaults
task_faults = record { mark_running = none; mark_end = none; started = 110; ended = 120 }

found : load_crawl_job 5 (waiting ∷ []) ≡ some waiting
unfolding load_crawl_job
found = refl

crawl_job_task-Reports_example :
    ((k : Job) × (load_crawl_job 5
          (crawl_job_task task_faults 5 (threw (codes "bad")) (waiting ∷ []))
        ≡ some k)
      × Reports (threw (codes "bad")) k)
    × ((other : ℕ)
        → (5 == other) ≡ false
        → load_crawl_job other (crawl_job_task task_faults 5 (threw (codes "bad")) (waiting ∷ []))
          ≡ load_crawl_job other (waiting ∷ []))
crawl_job_task-Reports_example =
    crawl_job_task-Reports task_faults 5 (threw (codes "bad")) (waiting ∷ []) waiting refl refl
      found refl

retain_log_head_and_tail_test :
    retain_log_head_and_tail (codes "0123456789") (pos 5) ≡ codes "01\n...skipped...\n789"
unfolding retain_log_head_and_tail
retain_log_head_and_tail_test = refl

retain_log_head_and_tail-Retains_example :
    Retains (codes "0123456789") 5 (retain_log_head_and_tail (codes "0123456789") (pos 5))
retain_log_head_and_tail-Retains_example =
    retain_log_head_and_tail-Retains (codes "0123456789") 5 (omega arith)
