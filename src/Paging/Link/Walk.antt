-- ===== src/Paging/Link/Walk.antt =====
-- A client that follows the tokens of `FindCapturesByLinkPage` through all pages of a link.
use mathlib.Core.List.{append_assoc, reverse-append, reverse-reverse}
use webshot.Base.{
  ℕ, zero, suc, ◌<◌, ◌≡◌, refl, sym, ap, ◌∙◌, inl, inr, List, [], ◌∷◌, ◌++◌, reverse, Option, none,
  some, arith, ltb, if◌then◌else◌, length, null, take, drop, not, last, All, All-middle, ok, err,
  take-all, length-take, length-reverse, length-append, length-drop, take-append-drop, Bool-cases,
  take-append, last-split, ltb→lt,
}
use webshot.Base.Bytes.{Bytes}
use webshot.Base.Sorting.{IsDistinct}
use webshot.Captures.Rows.{Row, newest_first}
use webshot.Captures.{Capture, Db, rows_of_link}
use webshot.Paging.Cursor.{next, previous, TokenLib, LinkDto, IsMicros}
use webshot.Paging.Link.{find_captures_by_link_page, token_of}
use webshot.Paging.Link.Pages.{token_at, history, find_first, find_next, find_previous}

-- Reads pages from a token on and joins their items: `none` if a page fails, or if there are more
-- pages than `fuel`.
pub walk : TokenLib LinkDto → ℕ → Db → Bytes → ℕ → Bytes → Option (List Row)
walk lib n db link zero token = none
walk lib n db link (suc fuel) token = elim (find_captures_by_link_page lib n db link token) [
  | err e ↦ none
  | ok page ↦ elim page.next_page_token [
    | none ↦ some page.items
    | some t ↦ elim (walk lib n db link fuel t) [
      | none ↦ none
      | some rest ↦ some (page.items ++ rest)
    ]
  ]
]

module _ (lib : TokenLib LinkDto) (n : ℕ) (pos : 0 < n) (db : Db) (link : Bytes) where
  take-split :
      (b : List Row)
      → n < length b
      → (i : List Row) × (d : Row) × (take n b ≡ i ++ d ∷ []) × (last (take n b) ≡ some d)
  take-split b h = go (take n b) refl
    where
      go :
          (l : List Row)
          → take n b ≡ l
          → (i : List Row) × (d : Row) × (l ≡ i ++ d ∷ []) × (last l ≡ some d)
      go [] e = absurd (omega (arith, length-take n b, ap length e))
      go (x ∷ xs) e = last-split x xs

  -- A page over the rows `b`, when the walk from its last item gives the rest.
  walk_step :
      (fuel : ℕ) (token : Bytes) (b : List Row) (back : Option Bytes)
      → find_captures_by_link_page lib n db link token
        ≡ ok (record {
          items = take n b;
          next_page_token = if ltb n (length b) then token_of lib next (last (take n b)) else none;
          previous_page_token = back;
        })
      → ((i : List Row) (d : Row)
          → n < length b
          → take n b ≡ i ++ d ∷ []
          → walk lib n db link fuel (token_at lib n next d) ≡ some (drop n b))
      → walk lib n db link (suc fuel) token ≡ some b
  walk_step fuel token b back e rest = elim (Bool-cases (ltb n (length b))) [
    | inl over ↦
        let long = ltb→lt n (length b) over in
        let (i, d, whole, final) = take-split b long in
        unfold walk in
        rw (e, walk, over, final, rest i d long whole) (ap some (take-append-drop n b))
    | inr fits ↦ unfold walk in rw (e, walk, fits) (ap some (take-all n b (ground arith)))
  ]

regroup :
    (n : ℕ) (a : List Row) (c : Row) (i : List Row) (d : Row) (b : List Row)
    → take n b ≡ i ++ d ∷ []
    → a ++ c ∷ b ≡ (a ++ c ∷ i) ++ d ∷ drop n b
regroup n a c i d b whole =
    ap (λ l. a ++ c ∷ l) (sym (take-append-drop n b) ∙ ap (λ l. l ++ drop n b) whole)
    ∙ simp append_assoc

module _ (n : ℕ) (a : List Row) (q : Row) (p : List Row) (full : length (q ∷ p) ≡ n) where
  last_page : reverse (take n (reverse (a ++ q ∷ p))) ≡ q ∷ p
  last_page = rw (reverse-append a (q ∷ p)) (
      ap reverse
        (take-append n (reverse (q ∷ p)) (reverse a) (omega (arith, length-reverse (q ∷ p))))
      ∙ reverse-reverse (q ∷ p))

  more_before : ltb n (length (a ++ q ∷ p)) ≡ not (null a)
  more_before = go a refl
    where
      go : (a' : List Row) → a ≡ a' → ltb n (length (a ++ q ∷ p)) ≡ not (null a')
      go [] e = rw e (ground arith)
      go (x ∷ xs) e = rw e (ground (arith, length-append xs (q ∷ p)))

module _ (lib : TokenLib LinkDto) (n : ℕ) (pos : 0 < n) (t : List Capture) (link : Bytes)
    (distinct : IsDistinct newest_first (rows_of_link link t))
    (micros : All (λ r. IsMicros r.created_at) (history t link)) where
  walk_next :
      (fuel : ℕ) (a : List Row) (c : Row) (b : List Row)
      → history t link ≡ a ++ c ∷ b
      → length b < fuel
      → walk lib n (ok t) link fuel (token_at lib n next c) ≡ some b
  walk_next zero a c b e h = absurd (omega arith)
  walk_next (suc fuel) a c b e h =
      walk_step lib n pos (ok t) link fuel (token_at lib n next c) b _
        (find_next lib n t link distinct a c b e
          (All-middle (λ r. IsMicros r.created_at) a c b (rw e at micros)))
        λ i d long whole.
          walk_next fuel (a ++ c ∷ i) d (drop n b) (e ∙ regroup n a c i d b whole)
            (omega (arith, length-drop n b))

  -- Following the `next` tokens from the first page lists every capture of the link once, newest
  -- first, and ends after at most as many pages as there are captures, and one. A page holds at least
  -- one row, no two rows are equal, and times are whole microseconds.
  pub walk-history :
      walk lib n (ok t) link (suc (length (history t link))) [] ≡ some (history t link)
  walk-history =
      walk_step lib n pos (ok t) link _ [] (history t link) none (find_first lib n t link distinct)
        λ i d long whole.
          walk_next (length (history t link)) i d (drop n (history t link))
            (sym (take-append-drop n (history t link))
              ∙ ap (λ l. l ++ drop n (history t link)) whole
              ∙ append_assoc i (d ∷ []) (drop n (history t link)))
            (omega (arith, length-drop n (history t link)))

  -- The `previous` token of a page that was reached by a full page gives that page back, with a
  -- `next` token that leads to the page again. A page holds at least one row, no two rows are equal,
  -- and times are whole microseconds.
  pub find_previous-page :
      (a : List Row) (q : Row) (p : List Row) (c : Row) (b : List Row)
      → history t link ≡ a ++ (q ∷ p) ++ c ∷ b
      → length (q ∷ p) ≡ n
      → find_captures_by_link_page lib n (ok t) link (token_at lib n previous c)
        ≡ ok (record {
          items = q ∷ p;
          next_page_token = token_of lib next (last (q ∷ p));
          previous_page_token = if null a then none else some (token_at lib n previous q);
        })
  find_previous-page a q p c b e full =
      find_previous lib n t link distinct (a ++ q ∷ p) c b e
        (All-middle (λ r. IsMicros r.created_at) (a ++ q ∷ p) c b (rw e at micros))
      ∙ rw (last_page n a q p full, more_before n a q p full)
          (elim (Bool-cases (null a)) [ inl first ↦ rw first | inr later ↦ rw later ])
