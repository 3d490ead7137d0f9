-- ===== src/Paging/Prefix.antt =====
-- `Crud::FindCapturesByPrefixPage` of webshotd/src/crud.cpp, with the queries for distinct links and
-- `HasRowsBeforeInLink` of webshotd/src/capture_meta_repo.cpp. Log lines are left out; both limits are
-- at least 1, as the configuration schema demands.
pub mod Rows
pub mod Bounds
use webshot.Base.{
  ℕ, zero, suc, ◌+◌, ◌-◌, Bool, true, false, not, ◌&&◌, ◌||◌, List, [], ◌∷◌, ◌++◌, map, reverse,
  Option, none, some, ltb, ◌==◌, if◌then◌else◌, length, take, any, keep, null, init, head, last,
  Expected, ok, err, ok_or, err_as, ensure, ◌>>=◌, ◌>>◌,
}
use webshot.Base.Bytes.{Bytes, ◌=?◌, lex, byte_order}
use webshot.Base.Sorting.{sort, flip}
use webshot.Captures.Rows.{Row}
use webshot.Captures.{
  Capture, Db, PgError, run_readonly, get_captures_by_link_first, get_captures_by_link_next,
  get_captures_by_link_prev,
}
use webshot.Prefix.Bound.{upper_exclusive_bound}
use webshot.Paging.Cursor.{
  PageDirection, next, previous, TokenLib, PrefixDto, PrefixCursor, decode_prefix_cursor,
  encode_prefix_cursor, encode_prefix_cursor_at,
}
use webshot.Paging.Link.{CapturePageError, invalid_page_token, mismatched_page_token, db_error}

-- `group by link`.
abbrev pub distinct : List Bytes → List Bytes
distinct [] = []
distinct (l ∷ ls) = if any (◌=?◌ l) ls then distinct ls else l ∷ distinct ls

-- `where link >= $1 and link < $2`.
abbrev pub links_within : Bytes → Bytes → List Capture → List Bytes
links_within prefix upper t =
    distinct (keep (λ l. not (lex l prefix) && lex l upper) (map (λ c. c.link) t))

unfoldable pub get_distinct_links_by_prefix_first :
    Db → Bytes → Bytes → ℕ → Expected (List Bytes) PgError
get_distinct_links_by_prefix_first db prefix upper limit =
    run_readonly db λ t. take limit (sort byte_order (links_within prefix upper t))

unfoldable pub get_distinct_links_by_prefix_next :
    Db → Bytes → Bytes → Bytes → ℕ → Expected (List Bytes) PgError
get_distinct_links_by_prefix_next db prefix upper from_link limit =
    run_readonly db
      λ t. take limit (sort byte_order (keep (λ l. lex from_link l) (links_within prefix upper t)))

unfoldable pub get_distinct_links_by_prefix_prev :
    Db → Bytes → Bytes → Bytes → ℕ → Expected (List Bytes) PgError
get_distinct_links_by_prefix_prev db prefix upper from_link limit = run_readonly db λ t.
    take limit (sort (flip byte_order) (keep (λ l. lex l from_link) (links_within prefix upper t)))

unfoldable pub has_rows_before_in_link : Db → Bytes → ℕ → ℕ → Expected Bool PgError
has_rows_before_in_link db link created_at id = do
  rows ← get_captures_by_link_prev db link 1 created_at id
  ok (not (null rows))

pub record Item : Type 0 where
  pub id : ℕ
  pub created_at : ℕ
  pub link : Bytes

pub record PrefixPage : Type 0 where
  pub items : List Item
  pub next_page_token : Option Bytes
  pub previous_page_token : Option Bytes

-- The links of a page.
pub record PageLinks : Type 0 where
  pub links : List Bytes
  pub has_more_previous_links : Bool
  pub has_more_next_links : Bool

-- One link more than a page holds is asked for; it is dropped, and noted.
abbrev pub trim_next : ℕ → List Bytes → PageLinks
trim_next links_per_page links =
    let over = ltb links_per_page (length links) in
    record {
      links = if over then init links else links;
      has_more_previous_links = false;
      has_more_next_links = over;
    }

-- A cursor has a position where it has both parts.
abbrev pub position : PrefixCursor → Option (ℕ × ℕ)
position cur = elim cur.created_at [
  | none ↦ none
  | some at ↦ elim cur.id [ none ↦ none | some id ↦ some (at, id) ]
]

module _ (db : Db) (links_per_page per_link_max : ℕ) (prefix : Bytes) where
  unfoldable pub include_cursor_link : Bytes → Option (ℕ × ℕ) → Expected Bool PgError
  include_cursor_link link none = ok false
  include_cursor_link link (some (at, id)) = has_rows_before_in_link db link at id

  -- Links before the cursor's, and the cursor's own where it has rows left on that side.
  unfoldable pub previous_links : PrefixCursor → Expected PageLinks CapturePageError
  unfolding include_cursor_link
  previous_links cur = do
    own ← err_as (include_cursor_link cur.link (position cur)) db_error
    let limit = links_per_page + (if own then 0 else 1)
    let visible = if own then links_per_page - 1 else links_per_page
    links ←
        err_as
          (get_distinct_links_by_prefix_prev db prefix (upper_exclusive_bound prefix) cur.link
            limit)
          db_error
    ok (record {
      links = reverse (take visible links) ++ (if own then cur.link ∷ [] else []);
      has_more_previous_links = ltb visible (length links);
      has_more_next_links = false;
    })

  -- Links after the cursor's, and the cursor's own where it has a time.
  unfoldable pub next_links : PrefixCursor → Expected PageLinks CapturePageError
  next_links cur = elim cur.created_at [
    | some at ↦ do
      more ←
          err_as
            (get_distinct_links_by_prefix_next db prefix (upper_exclusive_bound prefix) cur.link
              links_per_page)
            db_error
      ok (trim_next links_per_page (cur.link ∷ more))
    | none ↦ do
      more ←
          err_as
            (get_distinct_links_by_prefix_next db prefix (upper_exclusive_bound prefix) cur.link
              (links_per_page + 1))
            db_error
      ok (trim_next links_per_page more)
  ]

  unfoldable pub select_links : Option PrefixCursor → Expected PageLinks CapturePageError
  unfolding previous_links next_links
  select_links none = do
    first ←
        err_as
          (get_distinct_links_by_prefix_first db prefix (upper_exclusive_bound prefix)
            (links_per_page + 1))
          db_error
    ok (trim_next links_per_page first)
  select_links (some cur) = elim cur.direction [
    | previous ↦ previous_links cur
    | next ↦ next_links cur
  ]
