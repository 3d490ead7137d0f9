-- ===== src/Crawl/Store/Persist.antt =====
-- How storing an archive ends, and what it keeps true of the table and of the bucket.
use mathlib.Core.Path.{subst}
use webshot.Base.{
  ◌≡◌, refl, sym, ap, ◌∙◌, Bool, true, false, not, ◌&&◌, ◌==◌, Bool-cases, List, [], ◌∷◌, map,
  Option, none, some, Option-cases, any, keep, head, length, All, Expected, ok, err, ◌⊎◌, inl, inr,
  arith,
}
use webshot.Base.Bytes.{Bytes, codes, ◌=?◌, =?_refl}
use webshot.Base.Outcome.{returns}
use webshot.Base.Sorting.{sort, insert, All-sort}
use webshot.Captures.{Capture, PgError, to_row}
use webshot.Captures.Rows.{Row, newest_first}
use webshot.Prefix.{make_prefix_key}
use webshot.Policy.{AccessPolicyError, Table, is_allowed_prefix}
use webshot.Crawl.{CrawlContext}
use webshot.Crawl.Store.{
  World, Faults, Stored, find_capture_by_link_hash, insert_capture, put_object, delete_object,
  after_insert, upload, dedupe, persist_metadata_for_context, capture_of,
}

-- The link and the content are the same.
abbrev pub is_same_archive : Capture → Capture → Bool
is_same_archive c d = d.link =? c.link && d.content_sha256 =? c.content_sha256

abbrev pub has_key : Bytes → Bytes × Bytes → Bool
has_key key o = o.0 =? key

insert-nonempty : (r : Row) (rs : List Row) → head (insert newest_first r rs) ≡ none → ⊥
insert-nonempty r [] h = ground arith
insert-nonempty r (s ∷ rs) h = ground arith

pub head-sort : (rs : List Row) → head (sort newest_first rs) ≡ none → rs ≡ []
head-sort [] h = refl
head-sort (r ∷ rs) h = absurd (insert-nonempty r (sort newest_first rs) h)

keep-none :
    (p : Capture → Bool) (t : List Capture) → map to_row (keep p t) ≡ [] → All (λ c. p c ≡ false) t
keep-none p [] h = tt
keep-none p (c ∷ t) h = elim (Bool-cases (p c)) [
  | inl e ↦ ground (arith, rw e at h)
  | inr e ↦ (e, keep-none p t (rw e at h))
]

-- The id of a row found is that of a capture that passes the test.
abbrev IsFound : (Capture → Bool) → List Capture → Row → Type 0
IsFound p t r = any (λ d. p d && d.uuid == r.uuid) t ≡ true

IsFound-cons :
    (p : Capture → Bool) (c : Capture) (t : List Capture) (rs : List Row)
    → All (IsFound p t) rs
    → All (IsFound p (c ∷ t)) rs
IsFound-cons p c t [] h = tt
IsFound-cons p c t (r ∷ rs) h = (ground (arith, h.0), IsFound-cons p c t rs h.1)

All-IsFound : (p : Capture → Bool) (t : List Capture) → All (IsFound p t) (map to_row (keep p t))
All-IsFound p [] = tt
All-IsFound p (c ∷ t) = elim (Bool-cases (p c)) [
  | inl e ↦ rw e (ground arith, IsFound-cons p c t (map to_row (keep p t)) (All-IsFound p t))
  | inr e ↦ rw e (IsFound-cons p c t (map to_row (keep p t)) (All-IsFound p t))
]

head-All : (P : Row → Type 0) (rs : List Row) (r : Row) → All P rs → head rs ≡ some r → P r
head-All P [] r h e = ground arith
head-All P (s ∷ rs) r h e = subst P (ground arith) h.0

pub found_row :
    (p : Capture → Bool) (t : List Capture) (r : Row)
    → head (sort newest_first (map to_row (keep p t))) ≡ some r
    → any (λ d. p d && d.uuid == r.uuid) t ≡ true
found_row p t r e =
    head-All (IsFound p t) (sort newest_first (map to_row (keep p t))) r
      (All-sort newest_first (IsFound p t) (map to_row (keep p t)) (All-IsFound p t)) e

pub keep-absent :
    (key : Bytes) (objects : List (Bytes × Bytes))
    → All (λ o. has_key key o ≡ false) objects
    → keep (λ o. not (o.0 =? key)) objects ≡ objects
keep-absent key [] h = refl
keep-absent key (o ∷ os) h = rw h.0 (ap (◌∷◌ o) (keep-absent key os h.1))

pub delete_object-put_object :
    (key body : Bytes) (objects : List (Bytes × Bytes))
    → All (λ o. has_key key o ≡ false) objects
    → delete_object key (put_object key body objects) ≡ objects
unfolding put_object delete_object
delete_object-put_object key body objects h =
    rw (=?_refl key, keep-absent key objects h, keep-absent key objects h) refl

-- The ways in which storing the row `c` under `s3_key` may end.
abbrev pub Ends : Faults → Bytes → Bytes → Capture → World → Stored → Type 0
Ends faults s3_key wacz c w s =
    (s ≡ (w, none))
    ⊎ ((r : Row) × (s ≡ (w, some (record { id = r.uuid; created_at = r.created_at })))
        × (head (sort newest_first (map to_row (keep (is_same_archive c) w.captures))) ≡ some r))
    ⊎ (All (λ d. is_same_archive c d ≡ false) w.captures
        × (any (λ d. d.uuid == c.uuid) w.captures ≡ false)
        × (s ≡ (
          record { captures = c ∷ w.captures; objects = put_object s3_key wacz w.objects },
          some (record { id = c.uuid; created_at = c.created_at }),
        )))
    ⊎ (s ≡ (record w { objects = delete_object s3_key (put_object s3_key wacz w.objects) }, none))
    ⊎ ((e : Bytes) × (faults.delete ≡ some e)
        × (s ≡ (record w { objects = put_object s3_key wacz w.objects }, none)))

insert_capture-cases :
    (fault : Option PgError) (c : Capture) (t : List Capture)
    → ((e : PgError) × (insert_capture fault c t ≡ err e))
      ⊎ ((insert_capture fault c t ≡ ok (c ∷ t)) × (any (λ d. d.uuid == c.uuid) t ≡ false))
unfolding insert_capture
insert_capture-cases (some e) c t = inl (e, refl)
insert_capture-cases none c t = elim (Bool-cases (any (λ d. d.uuid == c.uuid) t)) [
  | inl e ↦ inl (record { what = codes "duplicate key value violates unique constraint" }, rw e)
  | inr e ↦ elim (Bool-cases (length c.content_sha256 == 32)) [
    | inl l ↦ inr (rw (e, l), e)
    | inr l ↦ inl (record { what = codes "new row violates check constraint" }, rw (e, l))
  ]
]

after_insert-cases :
    (delete : Option Bytes) (s3_key : Bytes) (c : Capture) (w : World) (x : PgError)
    → (after_insert delete s3_key c w (err x)
        ≡ (record w { objects = delete_object s3_key w.objects }, none))
      ⊎ ((e : Bytes) × (delete ≡ some e) × (after_insert delete s3_key c w (err x) ≡ (w, none)))
unfolding after_insert
after_insert-cases none s3_key c w x = inl refl
after_insert-cases (some e) s3_key c w x = inr (e, refl, refl)

module _ (faults : Faults) (s3_key wacz : Bytes) (c : Capture) (w : World) where
  upload-Ends :
      All (λ d. is_same_archive c d ≡ false) w.captures
      → Ends faults s3_key wacz c w (upload faults s3_key wacz c w)
  unfolding upload
  upload-Ends new = elim (Option-cases faults.put) [
    | inr (e, h) ↦ rw h (inl refl)
    | inl h ↦ rw h (elim (insert_capture-cases faults.insert c w.captures) [
      | inr (h', u) ↦ rw h' (unfold after_insert in inr (inr (inl (new, u, refl))))
      | inl (x, h') ↦
          rw h'
            (elim (after_insert-cases faults.delete s3_key c
              (record w { objects = put_object s3_key wacz w.objects }) x) [
                | inl q ↦ inr (inr (inr (inl q)))
                | inr q ↦ inr (inr (inr (inr q)))
              ])
    ])
  ]

  find-cases :
      (fault : Option PgError)
      → ((e : PgError) × (find_capture_by_link_hash fault c.link c.content_sha256 w.captures
            ≡ err e))
        ⊎ (find_capture_by_link_hash fault c.link c.content_sha256 w.captures
            ≡ ok (head (sort newest_first (map to_row (keep (is_same_archive c) w.captures)))))
  unfolding find_capture_by_link_hash
  find-cases (some e) = inl (e, refl)
  find-cases none = inr refl

  dedupe-Ends : Ends faults s3_key wacz c w (
      dedupe faults s3_key wacz c w
        (find_capture_by_link_hash faults.find c.link c.content_sha256 w.captures))
  unfolding dedupe
  dedupe-Ends = elim (find-cases faults.find) [
    | inl (e, h) ↦ rw h (inl refl)
    | inr h ↦
        elim (Option-cases
          (head (sort newest_first (map to_row (keep (is_same_archive c) w.captures))))) [
            | inr (r, f) ↦ rw (h, f) (inr (inl (r, refl, refl)))
            | inl f ↦
                subst (Ends faults s3_key wacz c w)
                  (sym (ap (dedupe faults s3_key wacz c w) (h ∙ ap ok f)))
                  (upload-Ends (
                    keep-none (is_same_archive c) w.captures
                      (head-sort (map to_row (keep (is_same_archive c) w.captures)) f)))
          ]
  ]

-- The archive in the context is complete, and the prefix may be captured.
pub record Ready (to_hex : Bytes → Bytes) (denylist : Table) (ctx : CrawlContext) : Type 0 where
  pub wacz : Bytes
  pub sha : Bytes
  pub replay : Bytes
  pub has_wacz : ctx.wacz_bytes ≡ some wacz
  pub has_sha : ctx.content_sha256 ≡ some sha
  pub has_length : length sha ≡ 32
  pub has_replay : ctx.replay_url ≡ some replay

module _ (to_hex : Bytes → Bytes) (denylist : Table) (faults : Faults) (ctx : CrawlContext)
    (w : World) where
  persist-dedupe :
      (r : Ready to_hex denylist ctx)
      → is_allowed_prefix to_hex denylist (make_prefix_key ctx.link.hostname ctx.link.pathname)
        ≡ ok true
      → persist_metadata_for_context to_hex denylist faults ctx w
        ≡ returns (
            dedupe faults ctx.s3_key r.wacz
              (capture_of to_hex faults.now ctx r.sha r.replay)
              w
              (find_capture_by_link_hash faults.find ctx.link.key r.sha w.captures))
  unfolding persist_metadata_for_context
  persist-dedupe r a = rw (r.has_replay, a) (rw (r.has_wacz, r.has_sha) (rw r.has_length refl))

  -- It returns, in one of the ways above, and does nothing unless the prefix is allowed.
  pub persist-Ends :
      (r : Ready to_hex denylist ctx) (x : Expected Bool AccessPolicyError)
      → is_allowed_prefix to_hex denylist (make_prefix_key ctx.link.hostname ctx.link.pathname) ≡ x
      → (s : Stored) × (persist_metadata_for_context to_hex denylist faults ctx w ≡ returns s)
        × Ends faults ctx.s3_key r.wacz (capture_of to_hex faults.now ctx r.sha r.replay) w s
        × ((x ≡ ok true) ⊎ (s ≡ (w, none)))
  persist-Ends r (err e) h =
      ((w, none), (unfold persist_metadata_for_context in rw (r.has_replay, h)), inl refl, inr refl)
  persist-Ends r (ok false) h =
      ((w, none), (unfold persist_metadata_for_context in rw (r.has_replay, h)), inl refl, inr refl)
  persist-Ends r (ok true) h = (
    dedupe faults ctx.s3_key r.wacz (capture_of to_hex faults.now ctx r.sha r.replay) w
        (find_capture_by_link_hash faults.find ctx.link.key r.sha w.captures),
    persist-dedupe r h,
    dedupe-Ends faults ctx.s3_key r.wacz (capture_of to_hex faults.now ctx r.sha r.replay) w,
    inl refl,
  )
