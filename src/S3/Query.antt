-- ===== src/S3/Query.antt =====
-- The canonical query string of a signed request.
use webshot.Base.{◌≡◌, ap, List, [], ◌∷◌, ◌++◌}
use webshot.Base.Sorting.{sort, insert, insert-insert}
use webshot.S3.{Pair, encode_pairs, pair_order, join_pairs, canonicalize_query}

sort-swap :
    (p q : Pair) (before after : List Pair)
    → sort pair_order (encode_pairs (before ++ p ∷ q ∷ after))
      ≡ sort pair_order (encode_pairs (before ++ q ∷ p ∷ after))
sort-swap p q [] after = insert-insert pair_order _ _ (sort pair_order (encode_pairs after))
sort-swap p q (r ∷ before) after = ap (insert pair_order _) (sort-swap p q before after)

-- The canonical query does not depend on the order of the parameters: any two neighbours may change
-- places.
canonicalize_query-swap :
    (p q : Pair) (before after : List Pair)
    → canonicalize_query (before ++ p ∷ q ∷ after) ≡ canonicalize_query (before ++ q ∷ p ∷ after)
unfolding canonicalize_query
canonicalize_query-swap p q before after = ap (join_pairs _) (sort-swap p q before after)
