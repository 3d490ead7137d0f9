-- ===== src/Crawl/Deny.antt =====
-- `DenyPrefixAndPurge` of webshotd/src/crud.cpp: a prefix is put on the denylist, and a task deletes
-- the captures below it.
pub mod Denied
use webshot.Base.{ℕ, List, Option, none, some, ok, err}
use webshot.Base.Bytes.{Bytes, codes}
use webshot.Policy.{
  Entry, Table, AccessPolicyError, Change, changed, failed, aborted, insert_prefix,
}
use webshot.Crawl.Store.{World}
use webshot.Crawl.Store.Purge.{PurgeFaults, Purge, purge_prefix}

-- The call and its task: the denylist refuses; the process aborts while the prefix is put on it; or
-- the prefix is on it, and the task ends, by the abort of the process where the purge failed.
pub data DenyAndPurge : Type 0 where
  rejected : AccessPolicyError → DenyAndPurge
  aborted_by_insert : DenyAndPurge
  purged : List Entry → World → DenyAndPurge
  aborted_by_purge : List Entry → World → DenyAndPurge

-- The body of the task, where the loop of the purge ends.
abbrev pub after_purge : List Entry → Option Purge → Option DenyAndPurge
after_purge t none = none
after_purge t (some (w, ok u)) = some (purged t w)
after_purge t (some (w, err e)) = some (aborted_by_purge t w)

abbrev pub after_insertion : (List Entry → Option Purge) → Change → Option DenyAndPurge
after_insertion purge (changed t) = after_purge t (purge t)
after_insertion purge (failed e) = some (rejected e)
after_insertion purge aborted = some aborted_by_insert

module _ (to_hex : Bytes → Bytes) (faults : PurgeFaults) (key_of : ℕ → Bytes) where
  -- The deadline of the task is left out.
  unfoldable pub deny_prefix_and_purge : Table → ℕ → Bytes → ℕ → World → Option DenyAndPurge
  deny_prefix_and_purge denylist fuel prefix_key limit w =
      after_insertion (λ t. purge_prefix faults key_of to_hex fuel prefix_key limit w)
        (insert_prefix to_hex denylist prefix_key (codes "deny_and_purge"))
