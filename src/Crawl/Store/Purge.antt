-- ===== src/Crawl/Store/Purge.antt =====
-- `Crud::Impl::PurgePrefix` of webshotd/src/crud.cpp, `GetCaptureIdsByPrefixTree` and
-- `DeleteCapturesByIds` of webshotd/src/capture_meta_repo.cpp.
pub mod Rows
pub mod Purged
use webshot.Base.{
  ℕ, zero, suc, Bool, true, false, not, ◌==◌, if◌then◌else◌, List, [], ◌∷◌, map, Option, none, some,
  any, keep, take, Expected, ok, err,
}
use webshot.Base.Bytes.{Bytes}
use webshot.Base.Sorting.{sort}
use webshot.Captures.{Capture, PgError, to_row}
use webshot.Captures.Rows.{Row, newest_first}
use webshot.Prefix.{make_prefix_tree}
use webshot.Prefix.Ancestors.{is_ancestor}
use webshot.Policy.{text2ltree}
use webshot.Crawl.Store.{World, delete_object}

-- What the services answer, by the state that a call meets, where it is an error.
pub record PurgeFaults : Type 0 where
  pub select : World → Option PgError
  pub s3 : World → Bytes → Option Bytes
  pub delete : World → Option PgError

pub data CrudError : Type 0 where
  db_error : CrudError

-- `prefix_tree <@ $1`.
abbrev pub is_below : List Bytes → Capture → Bool
is_below tree c = is_ancestor tree c.prefix_tree

-- select_ids_by_deny_prefix_paged.sql.
unfoldable pub get_capture_ids_by_prefix_tree :
    Option PgError → List Bytes → ℕ → List Capture → Expected (List ℕ) PgError
get_capture_ids_by_prefix_tree (some e) tree limit t = err e
get_capture_ids_by_prefix_tree none tree limit t =
    ok (map (λ r. r.uuid) (take limit (sort newest_first (map to_row (keep (is_below tree) t)))))

-- delete_captures_by_ids.sql.
unfoldable pub delete_captures_by_ids :
    Option PgError → List ℕ → List Capture → Expected (List Capture) PgError
delete_captures_by_ids (some e) ids t = err e
delete_captures_by_ids none ids t = ok (keep (λ c. not (any (λ id. c.uuid == id) ids)) t)

abbrev pub Purge : Type 0
Purge = World × Expected (Unit {0}) CrudError

module _ (faults : PurgeFaults) (key_of : ℕ → Bytes) where
  -- The row goes after its object.
  unfoldable pub delete_row : ℕ → World → Purge
  unfolding delete_captures_by_ids
  delete_row id w = elim (delete_captures_by_ids (faults.delete w) (id ∷ []) w.captures) [
    | err e ↦ (w, err db_error)
    | ok t ↦ (record w { captures = t }, ok tt)
  ]

  unfoldable pub delete_capture : ℕ → World → Purge
  unfolding delete_row delete_object
  delete_capture id w = elim (faults.s3 w (key_of id)) [
    | some e ↦ (w, err db_error)
    | none ↦ delete_row id (record w { objects = delete_object (key_of id) w.objects })
  ]

  -- `for (auto &&id : *ids)`; an error leaves the loop.
  abbrev pub and_then : (World → Purge) → Purge → Purge
  and_then rest (w, err e) = (w, err e)
  and_then rest (w, ok u) = rest w

  unfoldable pub delete_batch : List ℕ → World → Purge
  unfolding delete_capture
  delete_batch [] w = (w, ok tt)
  delete_batch (id ∷ ids) w = and_then (delete_batch ids) (delete_capture id w)

  abbrev pub and_again : (World → Option Purge) → Purge → Option Purge
  and_again rest (w, err e) = some (w, err e)
  and_again rest (w, ok u) = rest w

  unfoldable pub purge_batch :
      (World → Option Purge) → World → Expected (List ℕ) PgError → Option Purge
  purge_batch rest w (err e) = some (w, err db_error)
  purge_batch rest w (ok []) = some (w, ok tt)
  purge_batch rest w (ok (id ∷ ids)) = and_again rest (delete_batch (id ∷ ids) w)

  -- `while (true)`, with fuel.
  unfoldable pub purge_tree : ℕ → List Bytes → ℕ → World → Option Purge
  unfolding purge_batch
  purge_tree zero tree limit w = none
  purge_tree (suc fuel) tree limit w =
      purge_batch (purge_tree fuel tree limit) w
        (get_capture_ids_by_prefix_tree (faults.select w) tree limit w.captures)

  unfoldable pub purge_prefix : (Bytes → Bytes) → ℕ → Bytes → ℕ → World → Option Purge
  purge_prefix to_hex fuel prefix_key limit w =
      purge_tree fuel (text2ltree (make_prefix_tree to_hex prefix_key)) limit w
