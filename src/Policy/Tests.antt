-- ===== src/Policy/Tests.antt =====
-- webshotd/src/access_policy.cpp on a denylist and an allowlist of one row each.
use webshot.Base.{◌≡◌, refl, true, false, [], ◌∷◌, ok, err}
use webshot.Base.Bytes.{Bytes, codes}
use webshot.Base.Splitting.{split, cut}
use webshot.Prefix.{make_prefix_tree}
use webshot.Prefix.Ancestors.{covers, is_ancestor}
use webshot.Prefix.Tests.{to_hex, hex_lib, host_short, page_short}
use webshot.Policy.{
  Entry, Table, db_error, regular, changed, evaluate_prefix, is_allowlisted_prefix,
  is_denied_prefix, insert_prefix, insert_allowlist_prefix, insert_row,
}
use webshot.Policy.Laws.{insert_prefix-is_denied_prefix}

abbrev host_row : Entry
host_row = record {
  prefix_key = codes "com.ex";
  prefix_tree = codes "h" ∷ codes "x636f6d" ∷ codes "x6578" ∷ [];
  reason = codes "test";
}

abbrev listed_host : Table
listed_host = ok (host_row ∷ [])

abbrev page : Bytes
page = codes "com.ex/a"

allowlisted : is_allowlisted_prefix to_hex listed_host page ≡ ok true
unfolding is_allowlisted_prefix is_ancestor split make_prefix_tree
allowlisted = refl

denied : is_denied_prefix to_hex listed_host page ≡ ok true
unfolding is_denied_prefix is_ancestor split make_prefix_tree
denied = refl

not_denied : is_denied_prefix to_hex (ok []) page ≡ ok false
unfolding is_denied_prefix is_ancestor split make_prefix_tree
not_denied = refl

open_decision :
    evaluate_prefix to_hex (err (record { what = [] })) (ok []) page regular ≡ err db_error
unfolding evaluate_prefix is_allowlisted_prefix is_denied_prefix
open_decision = refl

inserted : insert_prefix to_hex (ok []) (codes "com.ex") (codes "test") ≡ changed (host_row ∷ [])
unfolding insert_prefix insert_row split make_prefix_tree
inserted = refl

covered : covers (codes "com.ex") page ≡ true
unfolding covers is_ancestor split cut
covered = refl

insert_prefix-is_denied_prefix_example : is_denied_prefix to_hex (ok (host_row ∷ [])) page ≡ ok true
insert_prefix-is_denied_prefix_example =
    insert_prefix-is_denied_prefix hex_lib [] (codes "com.ex") (codes "test") (host_row ∷ []) tt
      page inserted host_short page_short covered

allowlist_inserted :
    insert_allowlist_prefix to_hex (ok []) (codes "com.ex") (codes "test") ≡ changed (host_row ∷ [])
unfolding insert_allowlist_prefix insert_row split make_prefix_tree
allowlist_inserted = refl
