-- ===== src/Prefix/Ancestors.antt =====
-- `ltree`'s ancestor test `@>` on the trees of two keys, against the parts of the keys.
use mathlib.Core.Bool.{false≢true}
use mathlib.Core.List.{tail}
use webshot.Base.{
  ℕ, zero, suc, ◌≤◌, ◌≡◌, refl, ap, ◌∙◌, sym, Bool, true, false, ◌&&◌, inl, inr, Bool-cases, List,
  [], ◌∷◌, ◌++◌, map, Option, none, some, All, length, arith, drop_all, take-all,
}
use webshot.Base.Bytes.{Bytes, ◌=?◌, =?_iff}
use webshot.Base.Splitting.{split, cut}
use webshot.Prefix.{make_prefix_tree, chunks}
use webshot.Prefix.Labels.{
  HexLib, label, segment_labels, labels_of, path_labels, split-make_prefix_tree,
}

-- `a @> b`: the labels of `a` are the first labels of `b`.
unfoldable pub is_ancestor : List Bytes → List Bytes → Bool
is_ancestor [] ys = true
is_ancestor (x ∷ xs) [] = false
is_ancestor (x ∷ xs) (y ∷ ys) = x =? y && is_ancestor xs ys

unfoldable pub same : List Bytes → List Bytes → Bool
same [] [] = true
same (x ∷ xs) (y ∷ ys) = x =? y && same xs ys
same _ _ = false

-- What a prefix key covers: with no path, the host and all below it; with a path, that host alone,
-- and the paths that begin with the same parts.
covers_path : List Bytes → List Bytes → Option Bytes → Option Bytes → Bool
covers_path h h' none q = is_ancestor h h'
covers_path h h' (some p) none = false
covers_path h h' (some p) (some q) = same h h' && is_ancestor (split b'/' p) (split b'/' q)

unfoldable pub covers : Bytes → Bytes → Bool
unfolding covers_path is_ancestor same
covers k k' =
    covers_path (split b'.' (cut b'/' k).0) (split b'.' (cut b'/' k').0) (cut b'/' k).1
      (cut b'/' k').1

-- No part of the key is longer than one label holds.
abbrev pub IsShort : List Bytes → Type 0
IsShort = All (λ s. length s ≤ 127)

abbrev pub IsShortPath : Option Bytes → Type 0
IsShortPath none = Unit
IsShortPath (some p) = IsShort (split b'/' p)

abbrev pub IsShortKey : Bytes → Type 0
IsShortKey k = IsShort (split b'.' (cut b'/' k).0) × IsShortPath (cut b'/' k).1

chunks-nil : (fuel : ℕ) → chunks fuel [] ≡ []
unfolding chunks
chunks-nil zero = refl
chunks-nil (suc fuel) = refl

covers_path-cons :
    (e : Bool) (x y : Bytes) (a b : List Bytes) (p q : Option Bytes)
    → (x =? y) ≡ e
    → (e && covers_path a b p q) ≡ covers_path (x ∷ a) (y ∷ b) p q
unfolding covers_path same is_ancestor
covers_path-cons e x y a b none q h = rw h
covers_path-cons true x y a b (some p) none h = refl
covers_path-cons false x y a b (some p) none h = refl
covers_path-cons true x y a b (some p) (some q) h = rw h
covers_path-cons false x y a b (some p) (some q) h = rw h

module _ {to_hex : Bytes → Bytes} (lib : HexLib to_hex) where
  segment_labels-short :
      (s : Bytes) → length s ≤ 127 → segment_labels to_hex s ≡ label to_hex s ∷ []
  unfolding chunks
  segment_labels-short [] h = rw lib.nil
  segment_labels-short (b ∷ s) h =
      rw (take-all 127 (b ∷ s) h, drop_all 126 s (omega arith), chunks-nil (length s))

  labels_of-short : (ss : List Bytes) → IsShort ss → labels_of to_hex ss ≡ map (label to_hex) ss
  labels_of-short [] h = refl
  labels_of-short (s ∷ ss) h =
      rw (segment_labels-short s h.0) (ap (◌∷◌ (label to_hex s)) (labels_of-short ss h.1))

  differ : (a b : Bytes) → (a =? b) ≡ false → label to_hex a ≡ label to_hex b → ⊥
  differ a b n e = false≢true (sym n ∙ (=?_iff a b).1 (lib.injective a b (ap tail e)))

  label-eq : (a b : Bytes) → (label to_hex a =? label to_hex b) ≡ (a =? b)
  label-eq a b = elim (Bool-cases (a =? b)) [
    | inl e ↦
        rw e ((=?_iff (label to_hex a) (label to_hex b)).1 (ap (label to_hex) ((=?_iff a b).0 e)))
    | inr n ↦ rw n (elim (Bool-cases (label to_hex a =? label to_hex b)) [
      | inl e ↦ absurd (differ a b n ((=?_iff (label to_hex a) (label to_hex b)).0 e))
      | inr e ↦ e
    ])
  ]

  is_ancestor-map :
      (a b : List Bytes)
      → is_ancestor (map (label to_hex) a) (map (label to_hex) b) ≡ is_ancestor a b
  unfolding is_ancestor
  is_ancestor-map [] b = refl
  is_ancestor-map (x ∷ a) [] = refl
  is_ancestor-map (x ∷ a) (y ∷ b) = rw (label-eq x y) (ap (◌&&◌ (x =? y)) (is_ancestor-map a b))

  is_ancestor-path_labels :
      (a b : List Bytes) (p q : Option Bytes)
      → IsShortPath p
      → IsShortPath q
      → is_ancestor
          (map (label to_hex) a ++ path_labels to_hex p)
          (map (label to_hex) b ++ path_labels to_hex q)
        ≡ covers_path a b p q
  unfolding is_ancestor covers_path same
  is_ancestor-path_labels [] b none q hp hq = refl
  is_ancestor-path_labels [] [] (some p) none hp hq = refl
  is_ancestor-path_labels [] [] (some p) (some q) hp hq =
      rw (labels_of-short (split b'/' p) hp, labels_of-short (split b'/' q) hq)
        (is_ancestor-map (split b'/' p) (split b'/' q))
  is_ancestor-path_labels [] (y ∷ b) (some p) none hp hq = refl
  is_ancestor-path_labels [] (y ∷ b) (some p) (some q) hp hq = refl
  is_ancestor-path_labels (x ∷ a) [] none none hp hq = refl
  is_ancestor-path_labels (x ∷ a) [] none (some q) hp hq = refl
  is_ancestor-path_labels (x ∷ a) [] (some p) none hp hq = refl
  is_ancestor-path_labels (x ∷ a) [] (some p) (some q) hp hq = refl
  is_ancestor-path_labels (x ∷ a) (y ∷ b) p q hp hq = rw (label-eq x y) (
      ap (◌&&◌ (x =? y)) (is_ancestor-path_labels a b p q hp hq)
      ∙ covers_path-cons (x =? y) x y a b p q refl)

  -- The ancestor test on two trees is the test on the parts of the keys: a denied host covers its
  -- subdomains and all paths, and a denied path covers that host's paths below it. No part of
  -- either key is longer than 127 bytes.
  pub is_ancestor-covers :
      (k k' : Bytes)
      → IsShortKey k
      → IsShortKey k'
      → is_ancestor
          (split b'.' (make_prefix_tree to_hex k))
          (split b'.' (make_prefix_tree to_hex k'))
        ≡ covers k k'
  unfolding covers
  is_ancestor-covers k k' h h' =
      rw (split-make_prefix_tree lib k, split-make_prefix_tree lib k')
        (rw
          (
            labels_of-short (split b'.' (cut b'/' k).0) h.0,
            labels_of-short (split b'.' (cut b'/' k').0) h'.0,
          )
          (unfold is_ancestor in
            is_ancestor-path_labels (split b'.' (cut b'/' k).0) (split b'.' (cut b'/' k').0)
              (cut b'/' k).1 (cut b'/' k').1 h.1 h'.1))
