-- ===== src/Crawl/Store/Purge/Purged.antt =====
-- The purge ends, and what it has done by then.
use mathlib.Core.Path.{subst}
use webshot.Base.{
  ℕ, zero, suc, ◌≤◌, ◌<◌, Bool, true, not, ◌==◌, any, ◌≡◌, refl, sym, ap, ◌∙◌, List, [], ◌∷◌, map,
  Option, none, some, Option-cases, take, keep, head, length, All, All-keep, Expected, ok, err, ◌⊎◌,
  inl, inr, arith,
}
use webshot.Base.Bytes.{Bytes}
use webshot.Base.Sorting.{sort}
use webshot.Captures.{Capture, PgError, to_row}
use webshot.Captures.Rows.{Row, newest_first}
use webshot.Policy.{text2ltree}
use webshot.Prefix.{make_prefix_tree}
use webshot.Crawl.Store.{World, delete_object}
use webshot.Crawl.Store.Persist.{head-sort}
use webshot.Crawl.Store.Purge.{
  PurgeFaults, CrudError, db_error, Purge, is_below, get_capture_ids_by_prefix_tree,
  delete_captures_by_ids, delete_row, delete_capture, delete_batch, and_then, and_again, purge_tree,
  purge_prefix,
}
use webshot.Crawl.Store.Purge.Rows.{
  HasUniqueIds, IsPurgeable, spared, others, spared-others, HasUniqueIds-keep, ids_below,
  ids_below-IsPurgeable, is_present, ids_below-is_present, length-others, keep-none_below,
  length-keep,
}

All-IsPurgeable_others :
    (tree : List Bytes) (p : Capture → Bool) (t : List Capture) (ids : List ℕ)
    → All (IsPurgeable tree t) ids
    → All (IsPurgeable tree (keep p t)) ids
All-IsPurgeable_others tree p t [] h = tt
All-IsPurgeable_others tree p t (id ∷ ids) h = (
  All-keep (λ c. (c.uuid == id) ≡ true → is_below tree c ≡ true) p t h.0,
  All-IsPurgeable_others tree p t ids h.1,
)

no_error : (r : Expected (Unit {0}) CrudError) → r ≡ err db_error → r ≡ ok tt → ⊥
no_error r e h = ground arith

-- Some call of a service fails.
abbrev pub IsFaulty : PurgeFaults → Type 0
IsFaulty faults =
    ((w : World) × (e : PgError) × (faults.select w ≡ some e))
    ⊎ ((w : World) × (key : Bytes) × (e : Bytes) × (faults.s3 w key ≡ some e))
    ⊎ ((w : World) × (e : PgError) × (faults.delete w ≡ some e))

module _ (faults : PurgeFaults) (key_of : ℕ → Bytes) (tree : List Bytes) where
  -- A round, or a part of it: rows that are not below the prefix stay, and an error is a service's.
  abbrev Kept : World → Purge → Type 0
  Kept w p =
      (spared tree p.0.captures ≡ spared tree w.captures)
      × HasUniqueIds p.0.captures
      × (length p.0.captures ≤ length w.captures)
      × ((p.1 ≡ ok tt) ⊎ ((p.1 ≡ err db_error) × IsFaulty faults))

  delete_capture-cases :
      (id : ℕ) (w : World)
      → (((w' : World) × (delete_capture faults key_of id w ≡ (w', err db_error))
            × (w'.captures ≡ w.captures))
          × IsFaulty faults)
        ⊎ ((w' : World) × (delete_capture faults key_of id w ≡ (w', ok tt))
            × (w'.captures ≡ others id w.captures))
  unfolding delete_capture delete_row delete_captures_by_ids
  delete_capture-cases id w =
      let w1 : World = record w { objects = delete_object (key_of id) w.objects } in
      elim (Option-cases (faults.s3 w (key_of id))) [
        | inr (e, h) ↦ inl ((w, rw (delete_capture, h) refl, refl), inr (inl (w, key_of id, e, h)))
        | inl h ↦ elim (Option-cases (faults.delete w1)) [
          | inr (e, h') ↦ inl (
            (w1, rw (delete_capture, h, delete_row, delete_captures_by_ids, h') refl, refl),
            inr (inr (w1, e, h')),
          )
          | inl h' ↦ inr (
            record w1 { captures = others id w.captures },
            rw (delete_capture, h, delete_row, delete_captures_by_ids, h') refl,
            refl,
          )
        ]
      ]

  Kept-others :
      (id : ℕ) (w w' : World) (p : Purge)
      → IsPurgeable tree w.captures id
      → w'.captures ≡ others id w.captures
      → Kept w' p
      → Kept w p
  Kept-others id w w' p h s (k, u, l, r) = (
    k ∙ ap (spared tree) s ∙ spared-others tree id w.captures h,
    u,
    (let n = length-keep (λ c. not (any (λ i. c.uuid == i) (id ∷ []))) w.captures in
        let m = ap length s in omega arith),
    r,
  )

  delete_batch-Kept :
      (ids : List ℕ) (w : World)
      → HasUniqueIds w.captures
      → All (IsPurgeable tree w.captures) ids
      → Kept w (delete_batch faults key_of ids w)
  unfolding delete_batch
  delete_batch-Kept [] w u h = (refl, u, omega arith, inl refl)
  delete_batch-Kept (id ∷ ids) w u h = elim (delete_capture-cases id w) [
    | inl ((w', e, s), f) ↦ rw (e, s) (refl, u, omega arith, inr (refl, f))
    | inr (w', e, s) ↦
        subst (Kept w) (sym (ap (and_then faults key_of (delete_batch faults key_of ids)) e)) (
          Kept-others id w w' (delete_batch faults key_of ids w') h.0 s (
            delete_batch-Kept ids w'
              (subst HasUniqueIds (sym s)
                (HasUniqueIds-keep (λ c. not (any (λ i. c.uuid == i) (id ∷ []))) w.captures u))
              (subst (λ t. All (IsPurgeable tree t) ids) (sym s)
                (All-IsPurgeable_others tree (λ c. not (any (λ i. c.uuid == i) (id ∷ [])))
                  w.captures ids h.1))))
  ]

  -- A round that deletes at all makes the table shorter.
  delete_batch-shorter :
      (id : ℕ) (ids : List ℕ) (w : World)
      → HasUniqueIds w.captures
      → All (IsPurgeable tree w.captures) (id ∷ ids)
      → is_present w.captures id ≡ true
      → (delete_batch faults key_of (id ∷ ids) w).1 ≡ ok tt
      → length (delete_batch faults key_of (id ∷ ids) w).0.captures < length w.captures
  unfolding delete_batch
  delete_batch-shorter id ids w u h here r = elim (delete_capture-cases id w) [
    | inl ((w', e, s), f) ↦ absurd (
        no_error
          (and_then faults key_of (delete_batch faults key_of ids)
            (delete_capture faults key_of id w)).1
          (rw e refl) r)
    | inr (w', e, s) ↦
        let u' : HasUniqueIds w'.captures =
          subst HasUniqueIds (sym s)
            (HasUniqueIds-keep (λ c. not (any (λ i. c.uuid == i) (id ∷ []))) w.captures u) in
        let h' : All (IsPurgeable tree w'.captures) ids =
          subst (λ t. All (IsPurgeable tree t) ids) (sym s)
            (All-IsPurgeable_others tree (λ c. not (any (λ i. c.uuid == i) (id ∷ []))) w.captures
              ids h.1) in
        let (k, u2, l, _) = delete_batch-Kept ids w' u' h' in
        let n = length-others id w.captures here in
        let m = ap length s in
        subst (λ p. length p.0.captures < length w.captures)
          (sym (ap (and_then faults key_of (delete_batch faults key_of ids)) e)) (omega arith)
  ]

  -- How a purge ends: with nothing left below the prefix, or with the error of a service; the other
  -- rows stay, in order, either way.
  abbrev pub Purged : World → Purge → Type 0
  Purged w p =
      ((p.1 ≡ ok tt) × (p.0.captures ≡ spared tree w.captures))
      ⊎ ((p.1 ≡ err db_error)
          × IsFaulty faults
          × (spared tree p.0.captures ≡ spared tree w.captures))

  no_rows :
      (limit : ℕ) (rs : List Row) → map (λ r. r.uuid) (take (suc limit) rs) ≡ [] → head rs ≡ none
  no_rows limit [] q = refl
  no_rows limit (r ∷ rs) q = ground arith

  none_below :
      (limit : ℕ) (t : List Capture) → 0 < limit → ids_below tree limit t ≡ [] → spared tree t ≡ t
  none_below zero t h e = absurd (omega arith)
  none_below (suc limit) t h e = keep-none_below tree t (
      head-sort (map to_row (keep (is_below tree) t))
        (no_rows limit (sort newest_first (map to_row (keep (is_below tree) t))) e))

  Purged-Kept :
      (w : World) (w' : World) (p : Purge)
      → spared tree w'.captures ≡ spared tree w.captures
      → Purged w' p
      → Purged w p
  Purged-Kept w w' p k (inl (r, e)) = inl (r, e ∙ k)
  Purged-Kept w w' p k (inr (r, f, e)) = inr (r, f, e ∙ k)

  select-cases :
      (fault : Option PgError) (limit : ℕ) (t : List Capture)
      → ((e : PgError) × (fault ≡ some e)
          × (get_capture_ids_by_prefix_tree fault tree limit t ≡ err e))
        ⊎ (get_capture_ids_by_prefix_tree fault tree limit t ≡ ok (ids_below tree limit t))
  unfolding get_capture_ids_by_prefix_tree
  select-cases (some e) limit t = inl (e, refl, refl)
  select-cases none limit t = inr refl

  again :
      (rest : World → Option Purge) (w : World) (b : Purge)
      → Kept w b
      → (b.1 ≡ ok tt → (p : Purge) × (rest b.0 ≡ some p) × Purged b.0 p)
      → (p : Purge) × (and_again faults key_of rest b ≡ some p) × Purged w p
  again rest w (w', err e) (k, u, l, inl r) next = absurd (no_error (err e) (ground arith) r)
  again rest w (w', err e) (k, u, l, inr (r, f)) next = ((w', err e), refl, inr (r, f, k))
  again rest w (w', ok tt) (k, u, l, r) next =
      let (p, e, d) = next refl in (p, e, Purged-Kept w w' p k d)

  abbrev Ended : ℕ → ℕ → World → Type 0
  Ended fuel limit w =
      (p : Purge) × (purge_tree faults key_of fuel tree limit w ≡ some p) × Purged w p

  round :
      (fuel limit : ℕ) (w : World) (ids : List ℕ)
      → 0 < limit
      → HasUniqueIds w.captures
      → get_capture_ids_by_prefix_tree (faults.select w) tree limit w.captures ≡ ok ids
      → All (IsPurgeable tree w.captures) ids
      → All (λ id. is_present w.captures id ≡ true) ids
      → (ids ≡ [] → spared tree w.captures ≡ w.captures)
      → ((w' : World)
          → HasUniqueIds w'.captures
          → length w'.captures < length w.captures
          → Ended fuel limit w')
      → Ended (suc fuel) limit w
  round fuel limit w [] pos u q h here e next =
      ((w, ok tt), (unfold purge_tree in rw q refl), inl (refl, sym (e refl)))
  round fuel limit w (id ∷ ids) pos u q h here e next =
      let k = delete_batch-Kept (id ∷ ids) w u h in
      let (p, eq, d) =
        again (purge_tree faults key_of fuel tree limit) w (delete_batch faults key_of (id ∷ ids) w)
          k
          (λ r.
            next (delete_batch faults key_of (id ∷ ids) w).0 k.1
              (delete_batch-shorter id ids w u h here.0 r)) in
      (p, (unfold purge_tree in rw q eq), d)

  purge_tree-Purged :
      (fuel limit : ℕ) (w : World)
      → 0 < limit
      → length w.captures < fuel
      → HasUniqueIds w.captures
      → Ended fuel limit w
  purge_tree-Purged zero limit w pos more u = absurd (omega arith)
  purge_tree-Purged (suc fuel) limit w pos more u =
      elim (select-cases (faults.select w) limit w.captures) [
        | inl (e, h, q) ↦
            ((w, err db_error), (unfold purge_tree in rw q refl), inr (refl, inl (w, e, h), refl))
        | inr q ↦
            round fuel limit w (ids_below tree limit w.captures) pos u q
              (ids_below-IsPurgeable tree limit w.captures u)
              (ids_below-is_present tree limit w.captures) (none_below limit w.captures pos)
              (λ w' u' l. purge_tree-Purged fuel limit w' pos (omega arith) u')
      ]

-- A purge ends, with more fuel than there are captures: with no capture left below the prefix, or
-- with the error of a service that failed; captures that are not below the prefix all stay, in order,
-- either way. Ids are unique, and a batch holds at least one.
pub purge_prefix-Purged :
    (to_hex : Bytes → Bytes) (faults : PurgeFaults) (key_of : ℕ → Bytes) (fuel : ℕ)
    (prefix_key : Bytes) (limit : ℕ) (w : World)
    → 0 < limit
    → length w.captures < fuel
    → HasUniqueIds w.captures
    → (p : Purge) × (purge_prefix faults key_of to_hex fuel prefix_key limit w ≡ some p)
      × Purged faults key_of (text2ltree (make_prefix_tree to_hex prefix_key)) w p
unfolding purge_prefix
purge_prefix-Purged to_hex faults key_of fuel prefix_key limit w =
    purge_tree-Purged faults key_of (text2ltree (make_prefix_tree to_hex prefix_key)) fuel limit w
