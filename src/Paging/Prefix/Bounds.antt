-- ===== src/Paging/Prefix/Bounds.antt =====
-- A page of captures below a prefix: that it is made, and how large it is.

use native.Mathlib.Nat.{suc-mul, mul-le-mul_right}
use webshot.Base.{
  ℕ, suc, ◌+◌, ◌-◌, ◌*◌, ◌≤◌, ◌<◌, ◌≡◌, refl, ap, Bool, true, false, not, ◌&&◌, List, [], ◌∷◌, ◌++◌,
  map, null, reverse, Option, none, some, Option-cases, ltb, if◌then◌else◌, length, length-append,
  length-reverse, length-take, take, init, Expected, ok, inl, inr, arith,
}
use webshot.Base.Bytes.{Bytes, ◌=?◌}
use webshot.Captures.Rows.{Row}
use webshot.Captures.{
  Capture, get_captures_by_link_first, get_captures_by_link_next, get_captures_by_link_prev,
}
use webshot.Prefix.Bound.{upper_exclusive_bound}
use webshot.Paging.Cursor.{PageDirection, next, previous, TokenLib, PrefixDto, PrefixCursor}
use webshot.Paging.Link.{CapturePageError}
use webshot.Paging.Prefix.{
  PageLinks, position, include_cursor_link, trim_next, previous_links, next_links, select_links,
  get_distinct_links_by_prefix_first, get_distinct_links_by_prefix_next,
  get_distinct_links_by_prefix_prev, has_rows_before_in_link, PrefixPage,
}
use webshot.Paging.Prefix.Rows.{
  Gathered, select_rows_for_link, add_rows, gather, make_prefix_page, read_prefix_token,
  find_captures_by_prefix_page, to_item, goes_back, goes_on, rows_at, is_previous_cursor_link,
}

length-init {ℓ} : {A : Type ℓ} (xs : List A) → length (init xs) ≡ length xs - 1
length-init [] = refl
length-init (x ∷ []) = refl
length-init (x ∷ y ∷ xs) = omega (arith, length-init (y ∷ xs))

length-map {ℓ κ} :
    {A : Type ℓ} {B : Type κ} (f : A → B) (xs : List A) → length (map f xs) ≡ length xs
length-map f [] = refl
length-map f (x ∷ xs) = ap suc (length-map f xs)

length-trim :
    {A : Type 0} (n : ℕ) (xs : List A)
    → length xs ≤ n + 1
    → length (if ltb n (length xs) then init xs else xs) ≤ n
length-trim n xs h = let e = length-init xs in ground arith

-- A query that answers, with at most so many rows.
abbrev Answers {κ} : {A : Type 0} {E : Type κ} → ℕ → Expected (List A) E → Type κ
Answers {A = A} n x = (xs : List A) × (x ≡ ok xs) × (length xs ≤ n)

Answers-if :
    {A E : Type 0} (n : ℕ) (b : Bool) (x y : Expected (List A) E)
    → Answers n x
    → Answers n y
    → Answers n (if b then x else y)
Answers-if n true x y h k = h
Answers-if n false x y h k = k

Answers-take : {A E : Type 0} (n : ℕ) (xs : List A) → Answers {E = E} n (ok (take n xs))
Answers-take n xs = (take n xs, refl, omega (arith, length-take n xs))

length-if_reverse :
    {A : Type 0} (b : Bool) (xs : List A) → length (if b then reverse xs else xs) ≡ length xs
length-if_reverse true xs = length-reverse xs
length-if_reverse false xs = refl

module _ (t : List Capture) (per_link_max : ℕ) where
  first_rows : (link : Bytes) (n : ℕ) → Answers n (get_captures_by_link_first (ok t) link n)
  unfolding get_captures_by_link_first
  first_rows link n = Answers-take n _

  next_rows :
      (link : Bytes) (n at id : ℕ) → Answers n (get_captures_by_link_next (ok t) link n at id)
  unfolding get_captures_by_link_next
  next_rows link n at id = Answers-take n _

  prev_rows :
      (link : Bytes) (n at id : ℕ) → Answers n (get_captures_by_link_prev (ok t) link n at id)
  unfolding get_captures_by_link_prev
  prev_rows link n at id = Answers-take n _

  rows_at-Answers :
      (cur : Option PrefixCursor) (c : PrefixCursor) (link : Bytes) (is_first : Bool)
      (p : Option (ℕ × ℕ))
      → Answers (per_link_max + 1) (rows_at (ok t) per_link_max cur c link is_first p)
  unfolding rows_at
  rows_at-Answers cur c link is_first none = first_rows link (per_link_max + 1)
  rows_at-Answers cur c link is_first (some (at, id)) =
      Answers-if (per_link_max + 1) (goes_back (some c) && link =? c.link) _ _
        (prev_rows link (per_link_max + 1) at id)
        (Answers-if (per_link_max + 1) (is_first && goes_on (some c)) _ _
          (next_rows link (per_link_max + 1) at id) (first_rows link (per_link_max + 1)))

  select_rows-Answers :
      (cur : Option PrefixCursor) (link : Bytes) (is_first : Bool)
      → Answers (per_link_max + 1) (select_rows_for_link (ok t) per_link_max cur link is_first)
  unfolding select_rows_for_link
  select_rows-Answers none link is_first = first_rows link (per_link_max + 1)
  select_rows-Answers (some c) link is_first = rows_at-Answers (some c) c link is_first (position c)

  module _ (cur : Option PrefixCursor) where
    add_rows-length :
        (g : Gathered) (link : Bytes) (is_last : Bool) (rows : List Row)
        → length rows ≤ per_link_max + 1
        → length (add_rows (ok t) per_link_max cur g link is_last rows).items
          ≤ length g.items + per_link_max
    unfolding add_rows is_previous_cursor_link
    add_rows-length g link is_last rows h =
        let visible = if ltb per_link_max (length rows) then init rows else rows in
        let own = is_previous_cursor_link (ok t) per_link_max cur link in
        omega (
          arith,
          length-append g.items (map (to_item link) (if own then reverse visible else visible)),
          length-map (to_item link) (if own then reverse visible else visible),
          length-if_reverse own visible,
          length-trim per_link_max rows h,
        )

    gather-length :
        (g : Gathered) (is_first : Bool) (links : List Bytes)
        → (g' : Gathered) × (gather (ok t) per_link_max cur g is_first links ≡ ok g')
          × (length g'.items ≤ length g.items + length links * per_link_max)
    unfolding gather
    gather-length g is_first [] = (g, refl, omega arith)
    gather-length g is_first (link ∷ links) =
        let r = select_rows-Answers cur link is_first in
        let added = add_rows (ok t) per_link_max cur g link (null links) r.0 in
        let h = gather-length added false links in
        let k = add_rows-length g link (null links) r.0 r.2 in
        (h.0, rw (r.1) (h.1), omega (arith, suc-mul (length links) per_link_max, h.2, k))

-- The links of a page are found, and fit.
abbrev Fits : ℕ → Expected PageLinks CapturePageError → Type 0
Fits n x = (l : PageLinks) × (x ≡ ok l) × (length l.links ≤ n)

module _ (t : List Capture) (lpp per_link_max : ℕ) (prefix : Bytes) where
  first_links :
      (u : Bytes) (n : ℕ) → Answers n (get_distinct_links_by_prefix_first (ok t) prefix u n)
  unfolding get_distinct_links_by_prefix_first
  first_links u n = Answers-take n _

  links_after :
      (u l : Bytes) (n : ℕ) → Answers n (get_distinct_links_by_prefix_next (ok t) prefix u l n)
  unfolding get_distinct_links_by_prefix_next
  links_after u l n = Answers-take n _

  links_before :
      (u l : Bytes) (n : ℕ) → Answers n (get_distinct_links_by_prefix_prev (ok t) prefix u l n)
  unfolding get_distinct_links_by_prefix_prev
  links_before u l n = Answers-take n _

  include-ok :
      (link : Bytes) (p : Option (ℕ × ℕ))
      → (b : Bool) × (include_cursor_link (ok t) lpp per_link_max prefix link p ≡ ok b)
  unfolding include_cursor_link has_rows_before_in_link
  include-ok link none = (false, refl)
  include-ok link (some (at, id)) =
      let (rows, e, _) = prev_rows t per_link_max link 1 at id in (not (null rows), rw e refl)

  trim_next-Fits : (ls : List Bytes) → length ls ≤ lpp + 1 → Fits lpp (ok (trim_next lpp ls))
  trim_next-Fits ls h = (trim_next lpp ls, refl, length-trim lpp ls h)

  next_links-Fits : (cur : PrefixCursor) → Fits lpp (next_links (ok t) lpp per_link_max prefix cur)
  unfolding next_links
  next_links-Fits cur = elim (Option-cases cur.created_at) [
    | inl h ↦
        let r = links_after (upper_exclusive_bound prefix) cur.link (lpp + 1) in
        rw (h, r.1) (trim_next-Fits r.0 r.2)
    | inr (at, h) ↦
        let r = links_after (upper_exclusive_bound prefix) cur.link lpp in
        rw (h, r.1) (trim_next-Fits (cur.link ∷ r.0) (let n = r.2 in omega arith))
  ]

  previous_links-Fits :
      (cur : PrefixCursor) → 0 < lpp → Fits lpp (previous_links (ok t) lpp per_link_max prefix cur)
  unfolding previous_links
  previous_links-Fits cur pos =
      go (include-ok cur.link (position cur)).0 (include-ok cur.link (position cur)).1
    where
      go :
          (own : Bool)
          → include_cursor_link (ok t) lpp per_link_max prefix cur.link (position cur) ≡ ok own
          → Fits lpp (previous_links (ok t) lpp per_link_max prefix cur)
      go true e =
          let r = links_before (upper_exclusive_bound prefix) cur.link (lpp + 0) in
          (
            record {
              links = reverse (take (lpp - 1) r.0) ++ cur.link ∷ [];
              has_more_previous_links = ltb (lpp - 1) (length r.0);
              has_more_next_links = false;
            },
            rw (e, r.1) refl,
            omega (
              arith,
              length-append (reverse (take (lpp - 1) r.0)) (cur.link ∷ []),
              length-reverse (take (lpp - 1) r.0),
              length-take (lpp - 1) r.0,
            ),
          )
      go false e =
          let r = links_before (upper_exclusive_bound prefix) cur.link (lpp + 1) in
          (
            record {
              links = reverse (take lpp r.0) ++ [];
              has_more_previous_links = ltb lpp (length r.0);
              has_more_next_links = false;
            },
            rw (e, r.1) refl,
            omega (
              arith,
              length-append (reverse (take lpp r.0)) [],
              length-reverse (take lpp r.0),
              length-take lpp r.0,
            ),
          )

  select_links-Fits :
      (cur : Option PrefixCursor)
      → 0 < lpp
      → Fits lpp (select_links (ok t) lpp per_link_max prefix cur)
  unfolding select_links
  select_links-Fits none pos =
      let r = first_links (upper_exclusive_bound prefix) (lpp + 1) in
      rw r.1 (trim_next-Fits r.0 r.2)
  select_links-Fits (some cur) pos = go cur.direction refl
    where
      go :
          (d : PageDirection)
          → cur.direction ≡ d
          → Fits lpp (select_links (ok t) lpp per_link_max prefix (some cur))
      go next e = rw e (next_links-Fits cur)
      go previous e = rw e (previous_links-Fits cur pos)

  -- A page is made, with at most the links that a page holds and at most the captures that a link
  -- shows of each, wherever the table can be read and the token is one for this prefix. A page
  -- holds at least one link.
  pub find_captures_by_prefix_page-length :
      (lib : TokenLib PrefixDto) (page_token : Bytes) (cur : Option PrefixCursor)
      → 0 < lpp
      → read_prefix_token lib prefix page_token ≡ ok cur
      → (page : PrefixPage) × (find_captures_by_prefix_page lib prefix
            (ok t)
            lpp
            per_link_max
            page_token
          ≡ ok page)
        × (length page.items ≤ lpp * per_link_max)
  unfolding find_captures_by_prefix_page make_prefix_page
  find_captures_by_prefix_page-length lib page_token cur pos h =
      let l = select_links-Fits cur pos in
      let none_yet : Gathered = record {
        items = [];
        has_previous_within_link = false;
        has_next_within_link = false;
      } in
      let g = gather-length t per_link_max cur none_yet true l.0.links in
      (
        make_prefix_page lib prefix cur l.0 g.0,
        rw (h, l.1, g.1) refl,
        omega (arith, g.2, mul-le-mul_right per_link_max l.2),
      )
