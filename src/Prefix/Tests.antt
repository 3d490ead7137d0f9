-- ===== src/Prefix/Tests.antt =====
-- webshotd/src/prefix_utils.cpp and prefix_pagination.cpp on concrete keys.
use mathlib.Core.List.{tail}
use webshot.Base.{
  ℕ, zero, suc, ◌+◌, ◌/◌, ◌%◌, ◌≡◌, refl, ap, [], ◌∷◌, ◌++◌, arith, ltb, if◌then◌else◌,
}
use webshot.Base.Bytes.{Bytes, codes}
use webshot.Base.Splitting.{split, cut, Lacks}
use webshot.Prefix.{make_prefix_key, make_prefix_tree}
use webshot.Prefix.Bound.{upper_exclusive_bound}
use webshot.Prefix.Labels.{HexLib}
use webshot.Prefix.Ancestors.{is_ancestor, covers, IsShortKey, is_ancestor-covers}
use webshot.Prefix.Collisions.{make_prefix_tree_collision}

-- Lower-case hexadecimal digits.
abbrev pub digit : ℕ → ℕ
digit d = if ltb d 10 then 48 + d else 87 + d

abbrev pub to_hex : Bytes → Bytes
to_hex [] = []
to_hex (c ∷ cs) = digit (c / 16) ∷ digit (c % 16) ∷ to_hex cs

to_hex-plain : (b : Bytes) → Lacks b'.' (to_hex b)
to_hex-plain [] = tt
to_hex-plain (c ∷ cs) = ((λ e. ground arith), ((λ e. ground arith), to_hex-plain cs))

first : Bytes → ℕ
first [] = 0
first (x ∷ xs) = x

digit-injective : (a b : ℕ) → digit a ≡ digit b → a ≡ b
digit-injective a b e = ground arith

to_hex-injective : (a b : Bytes) → to_hex a ≡ to_hex b → a ≡ b
unfolding first
to_hex-injective [] [] e = refl
to_hex-injective [] (y ∷ b) e = ground arith
to_hex-injective (x ∷ a) [] e = ground arith
to_hex-injective (x ∷ a) (y ∷ b) e =
    let hi = digit-injective (x / 16) (y / 16) (ap first e) in
    let lo = digit-injective (x % 16) (y % 16) (ap (λ l. first (tail l)) e) in
    let h : x ≡ y = omega (arith, hi, lo) in
    rw (h, to_hex-injective a b (ap (λ l. tail (tail l)) e)) refl

pub hex_lib : HexLib to_hex
hex_lib = record { nil = refl; plain = to_hex-plain; injective = to_hex-injective }

make_prefix_key_test :
    make_prefix_key (codes "www.example.com") (codes "/a/b/") ≡ codes "com.example.www/a/b"
unfolding make_prefix_key
make_prefix_key_test = refl

make_prefix_tree_test : make_prefix_tree to_hex (codes "com.ex/a") ≡ codes "h.x636f6d.x6578.p.x61"
unfolding make_prefix_tree
make_prefix_tree_test = refl

upper_exclusive_bound_test : upper_exclusive_bound (97 ∷ 255 ∷ []) ≡ 98 ∷ []
unfolding upper_exclusive_bound
upper_exclusive_bound_test = refl

abbrev ab : Bytes
ab = codes "ab"

abbrev abc : Bytes
abc = codes "abc"

pub host_short : IsShortKey (codes "com.ex")
unfolding split cut
host_short = ((omega arith, (omega arith, tt)), tt)

pub page_short : IsShortKey (codes "com.ex/a")
unfolding split cut
page_short = ((omega arith, (omega arith, tt)), (omega arith, tt))

is_ancestor-covers_example :
    is_ancestor
      (split b'.' (make_prefix_tree to_hex (codes "com.ex")))
      (split b'.' (make_prefix_tree to_hex (codes "com.ex/a")))
    ≡ covers (codes "com.ex") (codes "com.ex/a")
is_ancestor-covers_example =
    is_ancestor-covers hex_lib (codes "com.ex") (codes "com.ex/a") host_short page_short

abbrev repeated : ℕ → Bytes
repeated zero = []
repeated (suc n) = 97 ∷ repeated n

repeated-Lacks : (n : ℕ) → Lacks b'/' (repeated n)
repeated-Lacks zero = tt
repeated-Lacks (suc n) = ((λ e. ground arith), repeated-Lacks n)

make_prefix_tree_collision_example :
    make_prefix_tree to_hex (codes "com" ++ b'/' ∷ (repeated 127 ++ codes "b"))
    ≡ make_prefix_tree to_hex (codes "com" ++ b'/' ∷ (repeated 127 ++ b'/' ∷ codes "b"))
make_prefix_tree_collision_example =
    make_prefix_tree_collision to_hex (codes "com") (repeated 127) (codes "b") (ground arith)
      (repeated-Lacks 127) (ground arith) refl (omega arith) (λ e. ground arith)
