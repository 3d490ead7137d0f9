-- ===== src/Prefix/Labels.antt =====
-- The labels that `text2ltree` reads from `MakePrefixTree`.
use mathlib.Core.List.{append_assoc, append-nil}
use webshot.Base.{
  ◌≡◌, refl, ◌∙◌, sym, if◌then◌else◌, List, [], ◌∷◌, ◌++◌, map, Option, none, some, All, All-append,
  length, null, arith,
}
use webshot.Base.Bytes.{Bytes, codes}
use webshot.Base.Splitting.{split, cut, led, Lacks, split-led, led-append}
use webshot.Prefix.{
  make_prefix_tree, chunks, append_chunks, append_encoded_segment, append_segments, append_path,
}

-- What the code relies on of `ToHex`: digits are no dots, and text can be read back from them.
pub record HexLib (to_hex : Bytes → Bytes) : Type 0 where
  pub nil : to_hex [] ≡ []
  pub plain : (b : Bytes) → Lacks b'.' (to_hex b)
  pub injective : (a b : Bytes) → to_hex a ≡ to_hex b → a ≡ b

module _ (to_hex : Bytes → Bytes) where
  abbrev pub label : Bytes → Bytes
  label chunk = b'x' ∷ to_hex chunk

  abbrev pub segment_labels : Bytes → List Bytes
  segment_labels s = if null s then codes "x" ∷ [] else map label (chunks (length s) s)

  abbrev pub labels_of : List Bytes → List Bytes
  labels_of [] = []
  labels_of (s ∷ ss) = segment_labels s ++ labels_of ss

  abbrev pub path_labels : Option Bytes → List Bytes
  path_labels none = []
  path_labels (some path) = codes "p" ∷ labels_of (split b'/' path)

  -- `h`, the labels of the host, and those of the path behind a `p`.
  abbrev pub tree_labels : Bytes → List Bytes
  tree_labels key =
      codes "h" ∷ (labels_of (split b'.' (cut b'/' key).0) ++ path_labels (cut b'/' key).1)

  append_chunks-led :
      (out : Bytes) (cs : List Bytes) → append_chunks to_hex out cs ≡ out ++ led b'.' (map label cs)
  unfolding append_chunks led
  append_chunks-led out [] = sym (append-nil out)
  append_chunks-led out (c ∷ cs) =
      append_chunks-led (out ++ b'.' ∷ b'x' ∷ to_hex c) cs ∙ simp append_assoc

  append_encoded_segment-led :
      (out s : Bytes) → append_encoded_segment to_hex out s ≡ out ++ led b'.' (segment_labels s)
  unfolding append_encoded_segment led
  append_encoded_segment-led out [] = refl
  append_encoded_segment-led out (b ∷ s) = append_chunks-led out (chunks (length (b ∷ s)) (b ∷ s))

  append_segments-led :
      (out : Bytes) (ss : List Bytes)
      → append_segments to_hex out ss ≡ out ++ led b'.' (labels_of ss)
  unfolding append_segments
  append_segments-led out [] = unfold led in sym (append-nil out)
  append_segments-led out (s ∷ ss) =
      append_segments-led (append_encoded_segment to_hex out s) ss
      ∙ rw (append_encoded_segment-led out s, led-append b'.' (segment_labels s) (labels_of ss))
          (append_assoc out (led b'.' (segment_labels s)) (led b'.' (labels_of ss)))

  append_path-led :
      (out : Bytes) (path : Option Bytes)
      → append_path to_hex out path ≡ out ++ led b'.' (path_labels path)
  unfolding append_path
  append_path-led out none = unfold led in sym (append-nil out)
  append_path-led out (some path) =
      append_segments-led (out ++ codes ".p") (split b'/' path)
      ∙ unfold led in append_assoc out (codes ".p") (led b'.' (labels_of (split b'/' path)))

  pub make_prefix_tree-led :
      (key : Bytes)
      → make_prefix_tree to_hex key
        ≡ codes "h"
          ++ led b'.' (labels_of (split b'.' (cut b'/' key).0) ++ path_labels (cut b'/' key).1)
  unfolding make_prefix_tree
  make_prefix_tree-led key =
      append_path-led (append_segments to_hex (codes "h") (split b'.' (cut b'/' key).0))
        (cut b'/' key).1
      ∙ rw
          (
            append_segments-led (codes "h") (split b'.' (cut b'/' key).0),
            led-append b'.' (labels_of (split b'.' (cut b'/' key).0))
                (path_labels (cut b'/' key).1),
          )
          (append_assoc (codes "h") (led b'.' (labels_of (split b'.' (cut b'/' key).0)))
            (led b'.' (path_labels (cut b'/' key).1)))

module _ {to_hex : Bytes → Bytes} (lib : HexLib to_hex) where
  labels-Lacks : (cs : List Bytes) → All (Lacks b'.') (map (label to_hex) cs)
  labels-Lacks [] = tt
  labels-Lacks (c ∷ cs) = ((omega arith, lib.plain c), labels-Lacks cs)

  segment_labels-Lacks : (s : Bytes) → All (Lacks b'.') (segment_labels to_hex s)
  segment_labels-Lacks [] = ((omega arith, tt), tt)
  segment_labels-Lacks (b ∷ s) = labels-Lacks (chunks (length (b ∷ s)) (b ∷ s))

  labels_of-Lacks : (ss : List Bytes) → All (Lacks b'.') (labels_of to_hex ss)
  labels_of-Lacks [] = tt
  labels_of-Lacks (s ∷ ss) =
      All-append (Lacks b'.') (segment_labels to_hex s) (labels_of to_hex ss)
        (segment_labels-Lacks s) (labels_of-Lacks ss)

  path_labels-Lacks : (p : Option Bytes) → All (Lacks b'.') (path_labels to_hex p)
  path_labels-Lacks none = tt
  path_labels-Lacks (some path) = ((omega arith, tt), labels_of-Lacks (split b'/' path))

  -- Read back as an `ltree`, the text of a tree is `h`, a label for each chunk of each part of the
  -- host, and the same for the path, if the key has one, behind a `p`.
  pub split-make_prefix_tree :
      (key : Bytes) → split b'.' (make_prefix_tree to_hex key) ≡ tree_labels to_hex key
  split-make_prefix_tree key = rw (make_prefix_tree-led to_hex key) (
      split-led b'.' (codes "h") _ (omega arith, tt)
        (All-append (Lacks b'.') (labels_of to_hex (split b'.' (cut b'/' key).0))
          (path_labels to_hex (cut b'/' key).1) (labels_of-Lacks (split b'.' (cut b'/' key).0))
          (path_labels-Lacks (cut b'/' key).1)))
