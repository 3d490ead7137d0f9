-- ===== src/Prefix.antt =====
-- webshotd/src/prefix_utils.cpp: the key of a link, and the key as a path of `ltree` labels.
pub mod Bound
pub mod Labels
pub mod Ancestors
pub mod Collisions
pub mod Tests
use webshot.Base.{
  ℕ, zero, suc, Bool, true, false, ◌&&◌, ◌==◌, if◌then◌else◌, List, [], ◌∷◌, ◌++◌, reverse, Option,
  none, some, length, take, drop, null, init, last,
}
use webshot.Base.Bytes.{Bytes, codes, ◌=?◌}
use webshot.Base.Splitting.{split, cut, join, led}

ends_with : ℕ → Bytes → Bool
ends_with c s = elim (last s) [ none ↦ false | some d ↦ d == c ]

-- The path without its closing slash; the root path is dropped whole.
unfoldable pub trim_path : Bytes → Bytes
unfolding ends_with
trim_path path = if path =? codes "/" then [] else if ends_with b'/' path then init path else path

-- `MakePrefixKey`, on the host and the path that the URL parser gives.
unfoldable pub make_prefix_key : Bytes → Bytes → Bytes
unfolding split join trim_path
make_prefix_key hostname pathname = join b'.' (reverse (split b'.' hostname)) ++ trim_path pathname

abbrev pub max_bytes_per_label : ℕ
max_bytes_per_label = 127

-- The loop `for (pos = 0; pos < bytes.size(); pos += max_bytes_per_label)`, with the size as fuel.
unfoldable pub chunks : ℕ → Bytes → List Bytes
chunks zero bytes = []
chunks (suc fuel) [] = []
chunks (suc fuel) (b ∷ bytes) =
    take max_bytes_per_label (b ∷ bytes) ∷ chunks fuel (drop max_bytes_per_label (b ∷ bytes))

-- `us::utils::encoding::ToHex` is the library's.
module _ (to_hex : Bytes → Bytes) where
  -- `.x` and the hexadecimal digits of each chunk.
  unfoldable pub append_chunks : Bytes → List Bytes → Bytes
  append_chunks out [] = out
  append_chunks out (c ∷ cs) = append_chunks (out ++ b'.' ∷ b'x' ∷ to_hex c) cs

  unfoldable pub append_encoded_segment : Bytes → Bytes → Bytes
  unfolding append_chunks chunks
  append_encoded_segment out bytes =
      if null bytes then out ++ codes ".x" else append_chunks out (chunks (length bytes) bytes)

  unfoldable pub append_segments : Bytes → List Bytes → Bytes
  unfolding append_encoded_segment
  append_segments out [] = out
  append_segments out (s ∷ ss) = append_segments (append_encoded_segment out s) ss

  append_path : Bytes → Option Bytes → Bytes
  unfolding append_segments split
  append_path out none = out
  append_path out (some path) = append_segments (out ++ codes ".p") (split b'/' path)

  -- `MakePrefixTree`.
  unfoldable pub make_prefix_tree : Bytes → Bytes
  unfolding append_segments append_path split cut
  make_prefix_tree prefix_key =
      let (host_part, path) = cut b'/' prefix_key in
      append_path (append_segments (codes "h") (split b'.' host_part)) path
