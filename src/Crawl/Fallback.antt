-- ===== src/Crawl/Fallback.antt =====
-- webshotd/include/crawler/fallback.hpp: when an HTTPS crawl that failed is tried again over HTTP.
use webshot.Base.{ℕ, ◌≡◌, Bool, true, false, ◌==◌, leb, if◌then◌else◌, Option, none, some, ◌⊎◌}
use webshot.Base.Bytes.{Bytes, codes}

-- An `int64_t`: `negsuc n` is -(n + 1).
pub data ℤ : Type 0 where
  pos : ℕ → ℤ
  negsuc : ℕ → ℤ

pub record SeedProbe : Type 0 where
  pub status : Option ℤ
  pub load_state : Option ℤ

pub data CrawlerErrorKind : Type 0 where
  browser_start devtools_startup cdp navigation proxy archive_size_limit : CrawlerErrorKind
  archive_build browser_resource no_archive_produced cancelled internal : CrawlerErrorKind

-- The cgroup numbers and the exit status that the C++ type also carries only go into log text.
pub record CrawlerError : Type 0 where
  pub kind : CrawlerErrorKind
  pub detail : Option Bytes
  pub seed_probe : Option SeedProbe

is_ℤ : ℕ → ℤ → Bool
is_ℤ k (pos n) = n == k
is_ℤ k (negsuc n) = false

at_least : ℕ → ℤ → Bool
at_least k (pos n) = leb k n
at_least k (negsuc n) = false

or_zero : Option ℤ → ℤ
or_zero none = pos 0
or_zero (some z) = z

-- From `if (!probe->load_state)` on.
no_load : ℤ → Option ℤ → Bool
unfolding is_ℤ at_least
no_load status none = false
no_load status (some load_state) =
    if is_ℤ 0 load_state then (if at_least 400 status then false else is_ℤ 0 status) else false

unfoldable pub is_no_response_seed_error : Option SeedProbe → Bool
unfolding is_ℤ or_zero no_load
is_no_response_seed_error none = false
is_no_response_seed_error (some probe) =
    if is_ℤ 502 (or_zero probe.status)
    then true
    else no_load (or_zero probe.status) probe.load_state

unfoldable pub should_retry_with_http : CrawlerError → Bool
unfolding is_no_response_seed_error
should_retry_with_http https_error = elim https_error.kind [
  | navigation ↦ is_no_response_seed_error https_error.seed_probe
  | _ ↦ false
]

unfoldable pub crawler_error_kind_text : CrawlerErrorKind → Bytes
crawler_error_kind_text browser_start = codes "browser start error"
crawler_error_kind_text devtools_startup = codes "devtools startup error"
crawler_error_kind_text cdp = codes "cdp error"
crawler_error_kind_text navigation = codes "navigation error"
crawler_error_kind_text proxy = codes "proxy error"
crawler_error_kind_text archive_size_limit = codes "archive size limit error"
crawler_error_kind_text archive_build = codes "archive build error"
crawler_error_kind_text browser_resource = codes "browser resource error"
crawler_error_kind_text no_archive_produced = codes "archive output error"
crawler_error_kind_text cancelled = codes "crawler cancelled"
crawler_error_kind_text internal = codes "internal crawler error"

-- The server did not answer: a gateway error, or a page that never began to load and has no status.
abbrev pub NoResponse : SeedProbe → Type 0
NoResponse p =
    (p.status ≡ some (pos 502))
    ⊎ ((p.load_state ≡ some (pos 0)) × ((p.status ≡ none) ⊎ (p.status ≡ some (pos 0))))
