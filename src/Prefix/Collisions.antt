-- ===== src/Prefix/Collisions.antt =====
-- Two keys with one tree: a part of more than 127 bytes is cut into labels like parts of its own.

use webshot.Base.{
  ℕ, suc, ◌≤◌, ◌≡◌, ◌≢◌, refl, ap, [], ◌∷◌, ◌++◌, map, All-append, length, drop, take-append,
  drop_all, take-all, arith, zero,
}
use webshot.Base.Bytes.{Bytes}
use webshot.Base.Splitting.{Lacks, split-append, cut-append, split_plain}
use webshot.Prefix.{make_prefix_tree, chunks}
use webshot.Prefix.Labels.{label, segment_labels, make_prefix_tree-led}

drop-append : (n : ℕ) (u v : Bytes) → n ≡ length u → drop n (u ++ v) ≡ v
drop-append zero [] v h = refl
drop-append zero (x ∷ u) v h = absurd (omega arith)
drop-append (suc n) [] v h = absurd (omega arith)
drop-append (suc n) (x ∷ u) v h = drop-append n u v (omega arith)

module _ (to_hex : Bytes → Bytes) where
  chunks-short : (fuel : ℕ) (s : Bytes) → length s ≤ 127 → s ≢ [] → chunks (suc fuel) s ≡ s ∷ []
  unfolding chunks
  chunks-short fuel [] h ne = absurd (ne refl)
  chunks-short fuel (x ∷ s) h ne =
      rw (take-all 127 (x ∷ s) h, drop_all 126 s (omega arith)) (ap (◌∷◌ (x ∷ s)) (stop fuel))
    where
      stop : (f : ℕ) → chunks f [] ≡ []
      stop zero = refl
      stop (suc f) = refl

  -- Every chunk but the last is full.
  chunks_two :
      (fuel : ℕ) (u v : Bytes)
      → length u ≡ 127
      → length v ≤ 127
      → v ≢ []
      → chunks (suc (suc fuel)) (u ++ v) ≡ u ∷ v ∷ []
  unfolding chunks
  chunks_two fuel [] v h k ne = absurd (omega arith)
  chunks_two fuel (x ∷ u) v h k ne =
      rw (take-append 127 (x ∷ u) v (omega arith), drop-append 126 u v (omega arith))
        (ap (◌∷◌ (x ∷ u)) (chunks-short fuel v k ne))

  labels_long :
      (u v : Bytes)
      → length u ≡ 127
      → length v ≤ 127
      → v ≢ []
      → segment_labels to_hex (u ++ v) ≡ label to_hex u ∷ label to_hex v ∷ []
  labels_long [] v h k ne = absurd (omega arith)
  labels_long (x ∷ []) v h k ne = absurd (omega arith)
  labels_long (x ∷ y ∷ u) v h k ne =
      ap (map (label to_hex)) (chunks_two (length (u ++ v)) (x ∷ y ∷ u) v h k ne)

  labels_short :
      (u : Bytes) → length u ≤ 127 → u ≢ [] → segment_labels to_hex u ≡ label to_hex u ∷ []
  labels_short [] k ne = absurd (ne refl)
  labels_short (x ∷ u) k ne = ap (map (label to_hex)) (chunks-short (length u) (x ∷ u) k ne)

  not_nil : (u : Bytes) → length u ≡ 127 → u ≢ []
  not_nil u h e = absurd (omega (arith, ap length e))

  -- The key with one long path part `u v` and the key with the two parts `u` and `v` have one tree,
  -- whatever the host, if `u` has 127 bytes and `v` at most 127, and is not empty.
  pub make_prefix_tree_collision :
      (host u v : Bytes)
      → Lacks b'/' host
      → Lacks b'/' u
      → Lacks b'/' v
      → length u ≡ 127
      → length v ≤ 127
      → v ≢ []
      → make_prefix_tree to_hex (host ++ b'/' ∷ (u ++ v))
        ≡ make_prefix_tree to_hex (host ++ b'/' ∷ (u ++ b'/' ∷ v))
  make_prefix_tree_collision host u v lh lu lv h k ne = rw (
    make_prefix_tree-led to_hex (host ++ b'/' ∷ (u ++ v)),
    make_prefix_tree-led to_hex (host ++ b'/' ∷ (u ++ b'/' ∷ v)),
    cut-append b'/' host (u ++ v) lh,
    cut-append b'/' host (u ++ b'/' ∷ v) lh,
    split_plain b'/' (u ++ v) (All-append (λ c. c ≢ b'/') u v lu lv),
    split-append b'/' u v lu,
    split_plain b'/' v lv,
    labels_long u v h k ne,
    labels_short u (omega arith) (not_nil u h),
    labels_short v k ne,
  )
