-- ===== src/Crawl/Store/Kept.antt =====
-- What storing an archive keeps true of the table and of the bucket, and what it tells.

use webshot.Base.{
  ℕ, ◌≡◌, refl, Bool, true, false, ◌&&◌, ◌==◌, List, [], ◌∷◌, none, some, any, All, Expected, ok,
  ◌⊎◌, inl, inr, arith,
}
use webshot.Base.Bytes.{Bytes, ◌=?◌, =?_refl}
use webshot.Base.Outcome.{returns}
use webshot.Captures.{Capture}
use webshot.Prefix.{make_prefix_key}
use webshot.Policy.{AccessPolicyError, Table, is_allowed_prefix}
use webshot.Crawl.{CrawlContext}
use webshot.Crawl.Store.{
  World, Faults, Stored, put_object, persist_metadata_for_context, capture_of,
}
use webshot.Crawl.Store.Persist.{
  is_same_archive, has_key, keep-absent, delete_object-put_object, found_row, Ends, Ready,
  persist-Ends,
}

-- Every row has its object in the bucket.
abbrev pub HasObjects : (ℕ → Bytes) → World → Type 0
HasObjects key_of w = All (λ c. any (has_key (key_of c.uuid)) w.objects ≡ true) w.captures

-- No two rows hold the same content of the same link.
abbrev pub IsDeduped : List Capture → Type 0
IsDeduped [] = Unit
IsDeduped (c ∷ t) = All (λ d. is_same_archive c d ≡ false) t × IsDeduped t

-- The key is nobody's yet: neither a row's nor an object's.
abbrev pub IsFresh : (ℕ → Bytes) → Bytes → World → Type 0
IsFresh key_of s3_key w =
    All (λ c. (key_of c.uuid =? s3_key) ≡ false) w.captures
    × All (λ o. has_key s3_key o ≡ false) w.objects

any-put_object :
    (key s3_key body : Bytes) (objects : List (Bytes × Bytes))
    → (key =? s3_key) ≡ false
    → any (has_key key) objects ≡ true
    → All (λ o. has_key s3_key o ≡ false) objects
    → any (has_key key) (put_object s3_key body objects) ≡ true
unfolding put_object
any-put_object key s3_key body objects n h f = rw (keep-absent s3_key objects f) (ground (arith, h))

put_object-HasObjects :
    (key_of : ℕ → Bytes) (s3_key body : Bytes) (objects : List (Bytes × Bytes)) (t : List Capture)
    → HasObjects key_of (record { captures = t; objects = objects })
    → IsFresh key_of s3_key (record { captures = t; objects = objects })
    → HasObjects key_of (record { captures = t; objects = put_object s3_key body objects })
put_object-HasObjects key_of s3_key body objects [] h f = tt
put_object-HasObjects key_of s3_key body objects (c ∷ t) h f = (
  any-put_object (key_of c.uuid) s3_key body objects f.0.0 h.0 f.1,
  put_object-HasObjects key_of s3_key body objects t h.1 (f.0.1, f.1),
)

any-put_object_same :
    (key body : Bytes) (objects : List (Bytes × Bytes))
    → any (has_key key) (put_object key body objects) ≡ true
unfolding put_object
any-put_object_same key body objects = rw (=?_refl key) refl

-- What the caller is told is so: a capture that is named is in the table, for this link and this
-- content, and was allowed; and where none is named the table is as it was, and so is the bucket,
-- unless the clean-up itself failed.
abbrev pub Tells : Expected Bool AccessPolicyError → Faults → Capture → World → Stored → Type 0
Tells is_allowed faults c w (w', some s) =
    (is_allowed ≡ ok true) × (any (λ d. is_same_archive c d && d.uuid == s.id) w'.captures ≡ true)
Tells is_allowed faults c w (w', none) =
    (w'.captures ≡ w.captures)
    × ((w'.objects ≡ w.objects) ⊎ ((e : Bytes) × (faults.delete ≡ some e)))

Ends-HasObjects :
    (key_of : ℕ → Bytes) (faults : Faults) (s3_key wacz : Bytes) (c : Capture) (w : World)
    (s : Stored)
    → Ends faults s3_key wacz c w s
    → key_of c.uuid ≡ s3_key
    → HasObjects key_of w
    → IsFresh key_of s3_key w
    → HasObjects key_of s.0
Ends-HasObjects key_of faults s3_key wacz c w s (inl e) k h f = rw e h
Ends-HasObjects key_of faults s3_key wacz c w s (inr (inl (r, e, _))) k h f = rw e h
Ends-HasObjects key_of faults s3_key wacz c w s (inr (inr (inl (_, _, e)))) k h f = rw e (
  rw k (any-put_object_same s3_key wacz w.objects),
  put_object-HasObjects key_of s3_key wacz w.objects w.captures h f,
)
Ends-HasObjects key_of faults s3_key wacz c w s (inr (inr (inr (inl e)))) k h f =
    rw e (rw (delete_object-put_object s3_key wacz w.objects f.1) h)
Ends-HasObjects key_of faults s3_key wacz c w s (inr (inr (inr (inr (x, _, e))))) k h f =
    rw e (put_object-HasObjects key_of s3_key wacz w.objects w.captures h f)

Ends-IsDeduped :
    (faults : Faults) (s3_key wacz : Bytes) (c : Capture) (w : World) (s : Stored)
    → Ends faults s3_key wacz c w s
    → IsDeduped w.captures
    → IsDeduped s.0.captures
Ends-IsDeduped faults s3_key wacz c w s (inl e) h = rw e h
Ends-IsDeduped faults s3_key wacz c w s (inr (inl (r, e, _))) h = rw e h
Ends-IsDeduped faults s3_key wacz c w s (inr (inr (inl (n, _, e)))) h = rw e (n, h)
Ends-IsDeduped faults s3_key wacz c w s (inr (inr (inr (inl e)))) h = rw e h
Ends-IsDeduped faults s3_key wacz c w s (inr (inr (inr (inr (x, _, e))))) h = rw e h

Ends-Tells :
    (a : Expected Bool AccessPolicyError) (key_of : ℕ → Bytes) (faults : Faults)
    (s3_key wacz : Bytes) (c : Capture) (w : World) (s : Stored)
    → Ends faults s3_key wacz c w s
    → (a ≡ ok true) ⊎ (s ≡ (w, none))
    → IsFresh key_of s3_key w
    → Tells a faults c w s
Ends-Tells a key_of faults s3_key wacz c w s _ (inr e) f = rw e (refl, inl refl)
Ends-Tells a key_of faults s3_key wacz c w s (inl e) (inl h) f = rw e (refl, inl refl)
Ends-Tells a key_of faults s3_key wacz c w s (inr (inl (r, e, found))) (inl h) f =
    rw e (h, found_row (is_same_archive c) w.captures r found)
Ends-Tells a key_of faults s3_key wacz c w s (inr (inr (inl (_, _, e)))) (inl h) f =
    rw e (h, rw (=?_refl c.link, =?_refl c.content_sha256) (ground arith))
Ends-Tells a key_of faults s3_key wacz c w s (inr (inr (inr (inl e)))) (inl h) f =
    rw e (refl, inl (delete_object-put_object s3_key wacz w.objects f.1))
Ends-Tells a key_of faults s3_key wacz c w s (inr (inr (inr (inr (x, d, e))))) (inl h) f =
    rw e (refl, inr (x, d))

module _ (to_hex : Bytes → Bytes) (denylist : Table) (faults : Faults) (key_of : ℕ → Bytes)
    (ctx : CrawlContext) (w : World) (ready : Ready to_hex denylist ctx) where
  ended :
      (s : Stored) × (persist_metadata_for_context to_hex denylist faults ctx w ≡ returns s)
      × Ends faults ctx.s3_key ready.wacz
          (capture_of to_hex faults.now ctx ready.sha ready.replay)
          w
          s
      × ((is_allowed_prefix to_hex denylist (make_prefix_key ctx.link.hostname ctx.link.pathname)
            ≡ ok true)
          ⊎ (s ≡ (w, none)))
  ended =
      persist-Ends to_hex denylist faults ctx w ready
        (is_allowed_prefix to_hex denylist (make_prefix_key ctx.link.hostname ctx.link.pathname))
        refl

  -- Storing a complete archive under a fresh key returns, whatever the services answer, and leaves
  -- every row of the table with its object, if every row had its object before. The key is the one
  -- that belongs to the id.
  pub persist_metadata_for_context-HasObjects :
      key_of ctx.id ≡ ctx.s3_key
      → HasObjects key_of w
      → IsFresh key_of ctx.s3_key w
      → (s : Stored) × (persist_metadata_for_context to_hex denylist faults ctx w ≡ returns s)
        × HasObjects key_of s.0
  persist_metadata_for_context-HasObjects k h f =
      let (s, eq, ends, _) = ended in
      (
        s,
        eq,
        Ends-HasObjects key_of faults ctx.s3_key ready.wacz
            (capture_of to_hex faults.now ctx ready.sha ready.replay) w s ends k h f,
      )

  -- Storing a complete archive returns, and in a table without two rows of the same link with the same
  -- content it makes none.
  pub persist_metadata_for_context-IsDeduped :
      IsDeduped w.captures
      → (s : Stored) × (persist_metadata_for_context to_hex denylist faults ctx w ≡ returns s)
        × IsDeduped s.0.captures
  persist_metadata_for_context-IsDeduped h =
      let (s, eq, ends, _) = ended in
      (
        s,
        eq,
        Ends-IsDeduped faults ctx.s3_key ready.wacz
            (capture_of to_hex faults.now ctx ready.sha ready.replay) w s ends h,
      )

  -- Storing a complete archive under a fresh key tells what it did: a capture that it names is in
  -- the table, for this link and this content, and the prefix was allowed; where it names none, the
  -- table is as it was, and so is the bucket, unless the deletion of the new object failed.
  pub persist_metadata_for_context-Tells :
      IsFresh key_of ctx.s3_key w
      → (s : Stored) × (persist_metadata_for_context to_hex denylist faults ctx w ≡ returns s)
        × Tells
            (is_allowed_prefix to_hex denylist
              (make_prefix_key ctx.link.hostname ctx.link.pathname))
            faults
            (capture_of to_hex faults.now ctx ready.sha ready.replay)
            w
            s
  persist_metadata_for_context-Tells f =
      let (s, eq, ends, a) = ended in
      (
        s,
        eq,
        Ends-Tells
            (is_allowed_prefix to_hex denylist
              (make_prefix_key ctx.link.hostname ctx.link.pathname))
            key_of faults ctx.s3_key ready.wacz
            (capture_of to_hex faults.now ctx ready.sha ready.replay) w s ends a f,
      )
