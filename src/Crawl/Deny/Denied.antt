-- ===== src/Crawl/Deny/Denied.antt =====
-- A prefix that was denied and purged holds no captures, and gets none.
use webshot.Base.{
  ℕ, ◌≡◌, refl, ap, ◌∙◌, ◌<◌, true, false, Expected, List, none, some, length, Bool, ok, err, ◌⊎◌,
  inl, inr, arith,
}
use webshot.Base.Bytes.{Bytes, codes}
use webshot.Base.Outcome.{returns}
use webshot.Prefix.{make_prefix_tree, make_prefix_key}
use webshot.Prefix.Labels.{HexLib}
use webshot.Prefix.Ancestors.{covers, IsShortKey}
use webshot.Policy.{
  AccessPolicyError, Entry, text2ltree, changed, insert_prefix, is_denied_prefix, is_allowed_prefix,
}
use webshot.Policy.Laws.{HasTrees, insert_prefix-is_denied_prefix, insert_prefix-HasTrees}
use webshot.Crawl.{CrawlContext}
use webshot.Crawl.Store.{World, Faults, persist_metadata_for_context}
use webshot.Crawl.Store.Persist.{Ready, persist-Ends}
use webshot.Crawl.Store.Purge.{PurgeFaults, Purge, CrudError}
use webshot.Crawl.Store.Purge.Rows.{HasUniqueIds, spared}
use webshot.Crawl.Store.Purge.Purged.{IsFaulty, Purged, purge_prefix-Purged}
use webshot.Crawl.Deny.{DenyAndPurge, purged, aborted_by_purge, after_purge, deny_prefix_and_purge}

-- How the call and its task end once the prefix is on the denylist `t'`.
abbrev pub EndsPurged : PurgeFaults → List Bytes → List Entry → World → DenyAndPurge → Type 0
EndsPurged faults tree t' w r =
    (w' : World) × (((r ≡ purged t' w') × (w'.captures ≡ spared tree w.captures))
      ⊎ ((r ≡ aborted_by_purge t' w') × IsFaulty faults))

no_okay : {r : Expected (Unit {0}) CrudError} {e : CrudError} → r ≡ ok tt → r ≡ err e → ⊥
no_okay h e = ground (arith, h, e)

not_true : {r : Expected Bool AccessPolicyError} → r ≡ ok false → r ≡ ok true → ⊥
not_true h e = ground (arith, h, e)

ends_purged :
    (faults : PurgeFaults) (key_of : ℕ → Bytes) (tree : List Bytes) (t' : List Entry) (w : World)
    (p : Purge)
    → Purged faults key_of tree w p
    → (r : DenyAndPurge) × (after_purge t' (some p) ≡ some r) × EndsPurged faults tree t' w r
ends_purged faults key_of tree t' w (w', ok u) (inl h) = (purged t' w', refl, (w', inl (refl, h.1)))
ends_purged faults key_of tree t' w (w', ok u) (inr h) = absurd (no_okay refl h.0)
ends_purged faults key_of tree t' w (w', err e) (inl h) = absurd (no_okay h.0 refl)
ends_purged faults key_of tree t' w (w', err e) (inr h) =
    (aborted_by_purge t' w', refl, (w', inr (refl, h.1)))

denied-persist :
    (to_hex : Bytes → Bytes) (t' : List Entry) (ctx : CrawlContext) (faults : Faults) (w : World)
    → Ready to_hex (ok t') ctx
    → is_denied_prefix to_hex (ok t') (make_prefix_key ctx.link.hostname ctx.link.pathname)
      ≡ ok true
    → persist_metadata_for_context to_hex (ok t') faults ctx w ≡ returns (w, none)
denied-persist to_hex t' ctx faults w r h =
    let (s, q, _, d) =
      persist-Ends to_hex (ok t') faults ctx w r (ok false)
        (unfold is_allowed_prefix in rw h refl) in
    elim d [ inl e ↦ absurd (not_true refl e) | inr e ↦ q ∙ ap returns e ]

-- A prefix is put on the denylist and its purge runs: the call and its task end, with no capture left
-- below the prefix, or with the process aborted where a service failed; and against the denylist it
-- leaves, no archive of a page that the prefix covers is stored, whatever the services answer. The
-- denylist held in each of its rows the tree of the key, and still does. The insertion succeeds, ids
-- are unique, a batch holds at least one, parts of the keys have at most 127 bytes, and the archive
-- is complete.
pub deny_prefix_and_purge-Denied :
    {to_hex : Bytes → Bytes} (lib : HexLib to_hex) (services : PurgeFaults) (key_of : ℕ → Bytes)
    (fuel : ℕ) (prefix_key : Bytes) (limit : ℕ) (w : World) (t t' : List Entry)
    → HasTrees to_hex t
    → insert_prefix to_hex (ok t) prefix_key (codes "deny_and_purge") ≡ changed t'
    → IsShortKey prefix_key
    → 0 < limit
    → length w.captures < fuel
    → HasUniqueIds w.captures
    → (ctx : CrawlContext) (faults : Faults) (w' : World) → Ready to_hex (ok t') ctx
    → IsShortKey (make_prefix_key ctx.link.hostname ctx.link.pathname)
    → covers prefix_key (make_prefix_key ctx.link.hostname ctx.link.pathname) ≡ true
    → ((r : DenyAndPurge) × (deny_prefix_and_purge to_hex services key_of
            (ok t)
            fuel
            prefix_key
            limit
            w
          ≡ some r)
        × EndsPurged services (text2ltree (make_prefix_tree to_hex prefix_key)) t' w r)
      × (persist_metadata_for_context to_hex (ok t') faults ctx w' ≡ returns (w', none))
      × HasTrees to_hex t'
unfolding deny_prefix_and_purge
deny_prefix_and_purge-Denied lib services key_of fuel prefix_key limit w t t' trees inserted short
      pos more u ctx faults w' r short' below =
    let (p, q, d) = purge_prefix-Purged _ services key_of fuel prefix_key limit w pos more u in
    let (o, e, ends) = ends_purged services key_of _ t' w p d in
    (
      (o, rw (inserted, q) e, ends),
      denied-persist _ t' ctx faults w' r (
          insert_prefix-is_denied_prefix lib t prefix_key _ t' trees _ inserted short short' below),
      insert_prefix-HasTrees lib t prefix_key _ t' trees inserted,
    )
