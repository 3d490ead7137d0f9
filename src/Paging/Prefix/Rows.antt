-- ===== src/Paging/Prefix/Rows.antt =====
-- The rest of `Crud::FindCapturesByPrefixPage` of webshotd/src/crud.cpp: the rows of each link, and the
-- tokens of the page.
use webshot.Base.{
  ℕ, ◌+◌, Bool, true, false, not, ◌&&◌, ◌||◌, List, [], ◌∷◌, ◌++◌, map, reverse, Option, none, some,
  ltb, if◌then◌else◌, length, null, init, head, last, Expected, ok, ok_or, err_as, ensure, ◌>>=◌,
  ◌>>◌,
}
use webshot.Base.Bytes.{Bytes, ◌=?◌}
use webshot.Captures.Rows.{Row}
use webshot.Captures.{
  Db, PgError, get_captures_by_link_first, get_captures_by_link_next, get_captures_by_link_prev,
}
use webshot.Paging.Cursor.{
  next, previous, TokenLib, PrefixDto, PrefixCursor, decode_prefix_cursor, encode_prefix_cursor,
  encode_prefix_cursor_at,
}
use webshot.Paging.Link.{CapturePageError, invalid_page_token, mismatched_page_token, db_error}
use webshot.Paging.Prefix.{Item, PrefixPage, PageLinks, position, select_links}

abbrev pub goes_back : Option PrefixCursor → Bool
goes_back none = false
goes_back (some cur) = elim cur.direction [ next ↦ false | previous ↦ true ]

abbrev pub goes_on : Option PrefixCursor → Bool
goes_on none = false
goes_on (some cur) = elim cur.direction [ next ↦ true | previous ↦ false ]

abbrev pub has_time : Option ℕ → Bool
has_time none = false
has_time (some t) = true

-- What the loop over the links has gathered.
pub record Gathered : Type 0 where
  pub items : List Item
  pub has_previous_within_link : Bool
  pub has_next_within_link : Bool

abbrev pub to_item : Bytes → Row → Item
to_item link r = record { id = r.uuid; created_at = r.created_at; link = link }

module _ (db : Db) (per_link_max : ℕ) (cur : Option PrefixCursor) where
  unfoldable pub rows_at :
      PrefixCursor → Bytes → Bool → Option (ℕ × ℕ) → Expected (List Row) PgError
  rows_at c link is_first none = get_captures_by_link_first db link (per_link_max + 1)
  rows_at c link is_first (some (at, id)) =
      if goes_back (some c) && link =? c.link
      then get_captures_by_link_prev db link (per_link_max + 1) at id
      else if is_first && goes_on (some c)
      then get_captures_by_link_next db link (per_link_max + 1) at id
      else get_captures_by_link_first db link (per_link_max + 1)

  unfoldable pub select_rows_for_link : Bytes → Bool → Expected (List Row) PgError
  unfolding rows_at
  select_rows_for_link link is_first = elim cur [
    | none ↦ get_captures_by_link_first db link (per_link_max + 1)
    | some c ↦ rows_at c link is_first (position c)
  ]

  unfoldable pub is_previous_cursor_link : Bytes → Bool
  is_previous_cursor_link link = elim cur [
    | none ↦ false
    | some c ↦ goes_back (some c) && has_time c.created_at && link =? c.link
  ]

  -- One round: one row more than a link shows is asked for.
  unfoldable pub add_rows : Gathered → Bytes → Bool → List Row → Gathered
  unfolding is_previous_cursor_link
  add_rows g link is_last db_rows =
      let over = ltb per_link_max (length db_rows) in
      let own = is_previous_cursor_link link in
      let visible = if over then init db_rows else db_rows in
      record {
        items = g.items ++ map (to_item link) (if own then reverse visible else visible);
        has_previous_within_link = if over && own then true else g.has_previous_within_link;
        has_next_within_link =
            if own
            then (if not (null visible) then true else g.has_next_within_link)
            else if over && is_last
            then true
            else g.has_next_within_link;
      }

  unfoldable pub gather : Gathered → Bool → List Bytes → Expected Gathered CapturePageError
  unfolding select_rows_for_link add_rows
  gather g is_first [] = ok g
  gather g is_first (link ∷ links) =
      err_as (select_rows_for_link link is_first) db_error >>= λ db_rows.
      gather (add_rows g link (null links) db_rows) false links

module _ (lib : TokenLib PrefixDto) (prefix : Bytes) where
  previous_token : Option Item → Option Bytes
  previous_token none = none
  previous_token (some first) =
      some (encode_prefix_cursor_at lib prefix first.link first.created_at first.id previous)

  next_token : Bool → Option Item → Option Bytes
  next_token within none = none
  next_token within (some last) = some (
      if within
      then encode_prefix_cursor_at lib prefix last.link last.created_at last.id next
      else encode_prefix_cursor lib prefix last.link next)

  -- From `std::optional<std::string> next, previous` on.
  unfoldable pub make_prefix_page : Option PrefixCursor → PageLinks → Gathered → PrefixPage
  unfolding previous_token next_token
  make_prefix_page cur links g = record {
    items = g.items;
    next_page_token =
        if goes_back cur || g.has_next_within_link || links.has_more_next_links
        then next_token g.has_next_within_link (last g.items)
        else none;
    previous_page_token =
        if goes_on cur || links.has_more_previous_links || g.has_previous_within_link
        then previous_token (head g.items)
        else none;
  }

  -- An empty token asks for the first page; a token is only good for the prefix it was made for.
  unfoldable pub read_prefix_token : Bytes → Expected (Option PrefixCursor) CapturePageError
  read_prefix_token [] = ok none
  read_prefix_token (c ∷ cs) = do
    cur ← ok_or (decode_prefix_cursor lib (c ∷ cs)) invalid_page_token
    ensure (cur.prefix =? prefix) mismatched_page_token
    ok (some cur)

  unfoldable pub find_captures_by_prefix_page :
      Db → ℕ → ℕ → Bytes → Expected PrefixPage CapturePageError
  unfolding read_prefix_token gather make_prefix_page
  find_captures_by_prefix_page db links_per_page per_link_max page_token = do
    cur ← read_prefix_token page_token
    links ← select_links db links_per_page per_link_max prefix cur
    g ←
        gather db per_link_max cur
          (record { items = []; has_previous_within_link = false; has_next_within_link = false })
          true links.links
    ok (make_prefix_page cur links g)
