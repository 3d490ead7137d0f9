-- ===== src/Paging/Link/Pages.antt =====
-- What one page of `FindCapturesByLinkPage` holds, for each kind of token.
use mathlib.Core.Path.{fun_ext}
use native.Mathlib.Numerals.{add-one}
use webshot.Base.{
  ℕ, ◌+◌, ◌≡◌, refl, sym, ap, ◌∙◌, true, false, inl, inr, List, [], ◌∷◌, ◌++◌, reverse, Option,
  none, some, arith, ltb, if◌then◌else◌, length, take, init, head, last, keep, ok, init-take,
  take-all, length-take, length-reverse, Bool-cases, ltb→lt,
}
use webshot.Base.Bytes.{Bytes}
use webshot.Base.Sorting.{
  sort, flip, IsDistinct, sort-keep, sort-flip, sort-IsSorted, IsDistinct-keep, keep-split_after,
  keep-split_before,
}
use webshot.Captures.Rows.{Row, newest_first, newer}
use webshot.Captures.{
  Capture, rows_of_link, is_before, is_after, get_captures_by_link_first, get_captures_by_link_next,
  get_captures_by_link_prev,
}
use webshot.Paging.Cursor.{
  PageDirection, next, previous, TokenLib, LinkDto, Cursor, encode_cursor, IsMicros, decoded_cursor,
  encode_cursor-nonempty,
}
use webshot.Paging.Link.{
  read_token, find_captures_by_link_page, make_page, token_of, is_next, is_previous,
}

module _ (lib : TokenLib LinkDto) (n : ℕ) where
  abbrev pub cursor_of : PageDirection → Row → Cursor
  cursor_of d r = record { created_at = r.created_at; id = r.uuid; direction = d }

  abbrev pub token_at : PageDirection → Row → Bytes
  token_at d r = encode_cursor lib r.created_at r.uuid d

  read_token-token_at :
      (d : PageDirection) (r : Row)
      → IsMicros r.created_at
      → read_token lib (token_at d r) ≡ ok (some (cursor_of d r))
  read_token-token_at d r m = go (token_at d r) refl
    where
      go : (tok : Bytes) → token_at d r ≡ tok → read_token lib tok ≡ ok (some (cursor_of d r))
      go [] e = absurd (encode_cursor-nonempty lib r.created_at r.uuid d e)
      go (x ∷ xs) e =
          unfold read_token in rw (← e) (rw (decoded_cursor lib r.created_at r.uuid d) (rw m))

  over-take : (b : List Row) → ltb n (length (take (n + 1) b)) ≡ ltb n (length b)
  over-take b = ground (arith, length-take (n + 1) b)

  visible-take :
      (b : List Row)
      → (if ltb n (length b) then init (take (n + 1) b) else take (n + 1) b) ≡ take n b
  visible-take b = elim (Bool-cases (ltb n (length b))) [
    | inl e ↦ rw (e, add-one) (init-take n b (ltb→lt n (length b) e))
    | inr e ↦ rw e (take-all (n + 1) b (ground arith) ∙ sym (take-all n b (ground arith)))
  ]

  -- A page read forwards, from a cursor or from the start, over the rows `b` that are left.
  forward_page :
      (cur : Option Cursor) (b : List Row)
      → is_previous cur ≡ false
      → make_page lib n cur (take (n + 1) b) ≡ record {
        items = take n b;
        next_page_token = if ltb n (length b) then token_of lib next (last (take n b)) else none;
        previous_page_token = if is_next cur then token_of lib previous (head (take n b)) else none;
      }
  forward_page cur b f = unfold make_page in rw (over-take b, visible-take b, f) (ground arith)

  -- A page read backwards, over the rows `a` before the cursor.
  backward_page :
      (cur : Option Cursor) (a : List Row)
      → is_previous cur ≡ true
      → is_next cur ≡ false
      → make_page lib n cur (take (n + 1) (reverse a)) ≡ record {
        items = reverse (take n (reverse a));
        next_page_token = token_of lib next (last (reverse (take n (reverse a))));
        previous_page_token =
            if ltb n (length a)
            then token_of lib previous (head (reverse (take n (reverse a))))
            else none;
      }
  backward_page cur a f g =
      unfold make_page in
      rw (over-take (reverse a), visible-take (reverse a), f, g, length-reverse a) (ground arith)

-- All captures of the link, newest first.
abbrev pub history : List Capture → Bytes → List Row
history t link = sort newest_first (rows_of_link link t)

-- The captures of one link, in a table that can be read and whose ids are distinct.
module _ (lib : TokenLib LinkDto) (n : ℕ) (t : List Capture) (link : Bytes)
    (distinct : IsDistinct newest_first (rows_of_link link t)) where
  rows_after :
      (a : List Row) (c : Row) (b : List Row)
      → history t link ≡ a ++ c ∷ b
      → sort newest_first (keep (is_after c.created_at c.uuid) (rows_of_link link t)) ≡ b
  rows_after a c b e =
      sort-keep newest_first (newer c) (rows_of_link link t) distinct
      ∙ ap (keep (newer c)) e
      ∙ keep-split_after newest_first a c b
          (rw e at (sort-IsSorted newest_first (rows_of_link link t) distinct))

  is_before-newer : (c : Row) → is_before c.created_at c.uuid ≡ (λ r. newer r c)
  is_before-newer c = fun_ext λ r. ground arith

  rows_before :
      (a : List Row) (c : Row) (b : List Row)
      → history t link ≡ a ++ c ∷ b
      → sort (flip newest_first) (keep (is_before c.created_at c.uuid) (rows_of_link link t))
        ≡ reverse a
  rows_before a c b e =
      ap (λ p. sort (flip newest_first) (keep p (rows_of_link link t))) (is_before-newer c)
      ∙ sort-flip newest_first (keep (λ r. newer r c) (rows_of_link link t))
          (IsDistinct-keep newest_first (λ r. newer r c) (rows_of_link link t) distinct)
      ∙ ap reverse (
          sort-keep newest_first (λ r. newer r c) (rows_of_link link t) distinct
          ∙ ap (keep (λ r. newer r c)) e
          ∙ keep-split_before newest_first a c b
              (rw e at (sort-IsSorted newest_first (rows_of_link link t) distinct)))

  -- The page at a `next` token holds the rows behind its capture.
  pub find_next :
      (a : List Row) (c : Row) (b : List Row)
      → history t link ≡ a ++ c ∷ b
      → IsMicros c.created_at
      → find_captures_by_link_page lib n (ok t) link (token_at lib n next c)
        ≡ ok (record {
          items = take n b;
          next_page_token = if ltb n (length b) then token_of lib next (last (take n b)) else none;
          previous_page_token = token_of lib previous (head (take n b));
        })
  find_next a c b e m =
      unfold find_captures_by_link_page get_captures_by_link_next in
      rw (read_token-token_at lib n next c m, rows_after a c b e)
        (ap ok (forward_page lib n (some (cursor_of lib n next c)) b refl))

  -- The page at a `previous` token holds the rows in front of its capture.
  pub find_previous :
      (a : List Row) (c : Row) (b : List Row)
      → history t link ≡ a ++ c ∷ b
      → IsMicros c.created_at
      → find_captures_by_link_page lib n (ok t) link (token_at lib n previous c)
        ≡ ok (record {
          items = reverse (take n (reverse a));
          next_page_token = token_of lib next (last (reverse (take n (reverse a))));
          previous_page_token =
              if ltb n (length a)
              then token_of lib previous (head (reverse (take n (reverse a))))
              else none;
        })
  find_previous a c b e m =
      unfold find_captures_by_link_page get_captures_by_link_prev in
      rw (read_token-token_at lib n previous c m, rows_before a c b e)
        (ap ok (backward_page lib n (some (cursor_of lib n previous c)) a refl refl))

  pub find_first :
      find_captures_by_link_page lib n (ok t) link []
      ≡ ok (record {
        items = take n (history t link);
        next_page_token =
            if ltb n (length (history t link))
            then token_of lib next (last (take n (history t link)))
            else none;
        previous_page_token = none;
      })
  find_first =
      unfold find_captures_by_link_page get_captures_by_link_first in
      ap ok (forward_page lib n none (history t link) refl)
