-- ===== src/Policy.antt =====
-- webshotd/src/access_policy.cpp over the tables `host_denylist` and `host_allowlist` of
-- webshotd/src/shared_state_repo.cpp and webshotd/sql/. Log lines are left out, and so are the
-- columns `created_at` and `id`, which no query here reads.
pub mod Laws
pub mod Tests
use webshot.Base.{
  ℕ, Bool, true, false, not, if◌then◌else◌, List, [], ◌∷◌, ◌++◌, any, keep, Expected, ok, err,
  err_as, ◌>>=◌,
}
use webshot.Base.Bytes.{Bytes, codes, ◌=?◌}
use webshot.Base.Splitting.{split}
use webshot.Captures.{PgError}
use webshot.Prefix.{make_prefix_tree}
use webshot.Prefix.Ancestors.{is_ancestor, same}

-- `prefix_tree` is the text read by `text2ltree`.
pub record Entry : Type 0 where
  pub prefix_key : Bytes
  pub prefix_tree : List Bytes
  pub reason : Bytes

-- A table as one query meets it, or the error that the query ends with.
abbrev pub Table : Type 0
Table = Expected (List Entry) PgError

abbrev pub text2ltree : Bytes → List Bytes
text2ltree = split b'.'

pub data AccessPolicyMode : Type 0 where
  regular allowlist_only : AccessPolicyMode

pub data AccessPolicyError : Type 0 where
  db_error : AccessPolicyError

pub data AccessDecisionReason : Type 0 where
  allowed denylisted not_allowlisted non_https : AccessDecisionReason

pub record AccessDecision : Type 0 where
  pub allowed : Bool
  pub reason : AccessDecisionReason

unfoldable pub access_decision_message : AccessDecisionReason → Bytes
access_decision_message allowed = codes "allowed"
access_decision_message denylisted = codes "link prefix in denylist"
access_decision_message not_allowlisted = codes "link not in allowlist"
access_decision_message non_https = codes "non-HTTPS fetch blocked"

-- `CheckDenylistTree` and `CheckAllowlistTree`: `exists(... where prefix_tree @> text2ltree($1))`.
unfoldable pub check_tree : Table → Bytes → Expected Bool PgError
check_tree (ok t) tree = ok (any (λ e. is_ancestor e.prefix_tree (text2ltree tree)) t)
check_tree (err e) tree = err e

-- `insert ... on conflict (prefix_key) do nothing`: another key with the same tree violates the
-- unique constraint on `prefix_tree`.
unfoldable pub insert_row : Table → Bytes → Bytes → Bytes → Expected (List Entry) PgError
unfolding same
insert_row (err e) key tree reason = err e
insert_row (ok t) key tree reason =
    if any (λ e. e.prefix_key =? key) t
    then ok t
    else if any (λ e. same e.prefix_tree (text2ltree tree)) t
    then err (record { what = codes "duplicate key value violates unique constraint" })
    else ok (record { prefix_key = key; prefix_tree = text2ltree tree; reason = reason } ∷ t)

-- `delete from host_allowlist where prefix_key = $1`.
unfoldable pub delete_row : Table → Bytes → Expected (List Entry) PgError
delete_row (err e) key = err e
delete_row (ok t) key = ok (keep (λ e. not (e.prefix_key =? key)) t)

-- A call ends with the new table, with an error, or by aborting the process.
pub data Change : Type 0 where
  changed : List Entry → Change
  failed : AccessPolicyError → Change
  aborted : Change

module _ (to_hex : Bytes → Bytes) where
  unfoldable pub is_denied_prefix : Table → Bytes → Expected Bool AccessPolicyError
  unfolding check_tree
  is_denied_prefix denylist key =
      err_as (check_tree denylist (make_prefix_tree to_hex key)) db_error

  unfoldable pub is_allowlisted_prefix : Table → Bytes → Expected Bool AccessPolicyError
  unfolding check_tree
  is_allowlisted_prefix allowlist key =
      err_as (check_tree allowlist (make_prefix_tree to_hex key)) db_error

  unfoldable pub is_allowed_prefix : Table → Bytes → Expected Bool AccessPolicyError
  is_allowed_prefix denylist key = do denied ← is_denied_prefix denylist key; ok (not denied)

  unfoldable pub evaluate_prefix :
      Table → Table → Bytes → AccessPolicyMode → Expected AccessDecision AccessPolicyError
  evaluate_prefix allowlist denylist key regular = do
    allowlisted ← is_allowlisted_prefix allowlist key
    if allowlisted then ok (record { allowed = true; reason = allowed }) else do
      denied ← is_denied_prefix denylist key
      ok (
          if denied
          then record { allowed = false; reason = denylisted }
          else record { allowed = true; reason = allowed })
  evaluate_prefix allowlist denylist key allowlist_only = do
    denied ← is_denied_prefix denylist key
    if denied then ok (record { allowed = false; reason = denylisted }) else do
      allowlisted ← is_allowlisted_prefix allowlist key
      ok (
          if not allowlisted
          then record { allowed = false; reason = not_allowlisted }
          else record { allowed = true; reason = allowed })

  -- `InsertPrefix` aborts the process when the insert fails.
  unfoldable pub insert_prefix : Table → Bytes → Bytes → Change
  insert_prefix denylist key reason =
      elim (insert_row denylist key (make_prefix_tree to_hex key) reason) [
        | ok t ↦ changed t
        | err e ↦ aborted
      ]

  unfoldable pub insert_allowlist_prefix : Table → Bytes → Bytes → Change
  insert_allowlist_prefix allowlist key reason =
      elim (insert_row allowlist key (make_prefix_tree to_hex key) reason) [
        | ok t ↦ changed t
        | err e ↦ failed db_error
      ]

unfoldable pub remove_allowlist_prefix : Table → Bytes → Change
unfolding delete_row
remove_allowlist_prefix allowlist key = elim (delete_row allowlist key) [
  | ok t ↦ changed t
  | err e ↦ failed db_error
]
