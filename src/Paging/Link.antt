-- ===== src/Paging/Link.antt =====
-- `Crud::FindCapturesByLinkPage` of webshotd/src/crud.cpp. Log lines and error counters are left
-- out; `page_max` is at least 1, as the configuration schema demands.
pub mod Pages
pub mod Walk
use webshot.Base.{
  ℕ, suc, ◌+◌, ◌≡◌, ◌≢◌, refl, Bool, true, false, ◌&&◌, List, [], ◌∷◌, map, reverse, Option, none,
  some, arith, ltb, if◌then◌else◌, length, init, head, last, Expected, ok, err, ok_or, err_as,
  ◌>>=◌,
}
use webshot.Base.Bytes.{Bytes}
use webshot.Captures.Rows.{Row}
use webshot.Captures.{
  Db, get_captures_by_link_first, get_captures_by_link_next, get_captures_by_link_prev, PgError,
}
use webshot.Paging.Cursor.{
  PageDirection, next, previous, TokenLib, LinkDto, Cursor, encode_cursor, decode_cursor,
}

pub data CapturePageError : Type 0 where
  invalid_page_token mismatched_page_token db_error : CapturePageError

-- `dto::PagedFindCapturesByLinkResponse`.
pub record LinkPage : Type 0 where
  pub items : List Row
  pub next_page_token : Option Bytes
  pub previous_page_token : Option Bytes

-- An empty token asks for the first page.
unfoldable pub read_token : TokenLib LinkDto → Bytes → Expected (Option Cursor) CapturePageError
read_token lib [] = ok none
read_token lib (c ∷ cs) =
    ok_or (elim (decode_cursor lib (c ∷ cs)) [ none ↦ none | some cur ↦ some (some cur) ])
      invalid_page_token

abbrev pub is_next : Option Cursor → Bool
is_next none = false
is_next (some cur) = elim cur.direction [ next ↦ true | previous ↦ false ]

abbrev pub is_previous : Option Cursor → Bool
is_previous none = false
is_previous (some cur) = elim cur.direction [ next ↦ false | previous ↦ true ]

select_direction : Db → Bytes → ℕ → Cursor → PageDirection → Expected (List Row) PgError
select_direction db link limit cur previous =
    get_captures_by_link_prev db link limit cur.created_at cur.id
select_direction db link limit cur next =
    get_captures_by_link_next db link limit cur.created_at cur.id

unfoldable pub select_rows : Db → Bytes → ℕ → Option Cursor → Expected (List Row) PgError
unfolding select_direction
select_rows db link limit none = get_captures_by_link_first db link limit
select_rows db link limit (some cur) = select_direction db link limit cur cur.direction

-- The token that resumes at an item of the page.
abbrev pub token_of : TokenLib LinkDto → PageDirection → Option Row → Option Bytes
token_of lib d none = none
token_of lib d (some r) = some (encode_cursor lib r.created_at r.uuid d)

module _ (lib : TokenLib LinkDto) (page_max : ℕ) where
  -- What follows the query, from `bool has_previous` on.
  unfoldable pub make_page : Option Cursor → List Row → LinkPage
  make_page cur db_rows =
      let over = ltb page_max (length db_rows) in
      let backward = is_previous cur in
      let has_previous = if over && backward then true else is_next cur in
      let has_next =
        if over then (if backward then is_previous cur else true) else is_previous cur in
      let visible = if over then init db_rows else db_rows in
      let items = if backward then reverse visible else visible in
      record {
        items = items;
        next_page_token = if has_next then token_of lib next (last items) else none;
        previous_page_token = if has_previous then token_of lib previous (head items) else none;
      }

  unfoldable pub find_captures_by_link_page :
      Db → Bytes → Bytes → Expected LinkPage CapturePageError
  unfolding read_token select_rows make_page
  find_captures_by_link_page db link page_token = do
    cur ← read_token lib page_token
    rows ← err_as (select_rows db link (page_max + 1) cur) db_error
    ok (make_page cur rows)
