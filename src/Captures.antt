-- ===== src/Captures.antt =====
-- The capture table and the queries that webshotd/src/capture_meta_repo.cpp runs over it. The
-- queries are those of webshotd/sql/query/, read as `where`, `order by` and `limit` over a list of
-- rows; a read that fails (`PgError`) is a table that is not there.
pub mod Rows
use webshot.Base.{
  ℕ, suc, Bool, true, false, not, ◌&&◌, ◌||◌, List, [], ◌∷◌, map, Option, none, some, ltb, ◌==◌,
  if◌then◌else◌, keep, take, null, head, Expected, ok, err,
}
use webshot.Base.Bytes.{Bytes, ◌=?◌}
use webshot.Base.Sorting.{sort, flip}
use Rows.{Row, newest_first}

-- A row of the table `capture`. Ids are 128-bit numbers, which compare as uuids do.
pub record Capture : Type 0 where
  pub uuid : ℕ
  pub created_at : ℕ
  pub link : Bytes
  pub replay_url : Bytes
  pub prefix_key : Bytes
  pub prefix_tree : List Bytes
  pub content_sha256 : Bytes

pub record PgError : Type 0 where
  pub what : Bytes

-- What a query finds: the table, or the error of the database.
abbrev pub Db : Type 0
Db = Expected (List Capture) PgError

-- `RunReadonly`.
abbrev pub run_readonly {ℓ} : {A : Type ℓ} → Db → (List Capture → A) → Expected A PgError
run_readonly (ok t) query = ok (query t)
run_readonly (err e) query = err e

abbrev pub to_row : Capture → Row
to_row c = record { created_at = c.created_at; uuid = c.uuid }

-- `where link = $1`.
abbrev pub rows_of_link : Bytes → List Capture → List Row
rows_of_link link t = map to_row (keep (λ c. c.link =? link) t)

-- `created_at < $3 or (created_at = $3 and id > $4)`.
abbrev pub is_after : ℕ → ℕ → Row → Bool
is_after at id r = ltb r.created_at at || (r.created_at == at && ltb id r.uuid)

-- `created_at > $3 or (created_at = $3 and id < $4)`.
abbrev pub is_before : ℕ → ℕ → Row → Bool
is_before at id r = ltb at r.created_at || (r.created_at == at && ltb r.uuid id)

unfoldable pub get_captures_by_link_first : Db → Bytes → ℕ → Expected (List Row) PgError
get_captures_by_link_first db link limit =
    run_readonly db λ t. take limit (sort newest_first (rows_of_link link t))

unfoldable pub get_captures_by_link_next : Db → Bytes → ℕ → ℕ → ℕ → Expected (List Row) PgError
get_captures_by_link_next db link limit at id =
    run_readonly db
      λ t. take limit (sort newest_first (keep (is_after at id) (rows_of_link link t)))

unfoldable pub get_captures_by_link_prev : Db → Bytes → ℕ → ℕ → ℕ → Expected (List Row) PgError
get_captures_by_link_prev db link limit at id =
    run_readonly db
      λ t. take limit (sort (flip newest_first) (keep (is_before at id) (rows_of_link link t)))
