-- ===== src/Base/Bytes.antt =====
-- Byte strings (`std::string`, and `text::String`, which is a checked one): lists of numbers below
-- 256, compared as the C++ standard library and Postgres' "C" collation compare them.
use Prim.Native.Char.{code}
use Prim.Native.String.{String}
use Prim.Native.Nat.{ℕ}
use mathlib.Core.Path.{◌≡◌, refl}
use mathlib.Core.Bool.{Bool, true, false, ◌&&◌, ◌||◌, false≢true}
use mathlib.Core.List.{List, [], ◌∷◌}
use mathlib.Core.Logic.{◌↔◌}
use native.Mathlib.Omega.{arith}
use webshot.Base.Tests.{ltb, ◌==◌}
use webshot.Base.Sorting.{StrictOrder}

abbrev pub Bytes : Type 0
Bytes = List ℕ

-- The bytes of an ASCII literal.
abbrev pub codes : String → Bytes
codes String.[] = []
codes (String.◌∷◌ c s) = code c ∷ codes s

infix 50 ◌=?◌
abbrev pub ◌=?◌ : Bytes → Bytes → Bool
[] =? [] = true
(x ∷ xs) =? (y ∷ ys) = x == y && xs =? ys
_ =? _ = false

abbrev pub starts_with : Bytes → Bytes → Bool
starts_with [] s = true
starts_with (p ∷ ps) [] = false
starts_with (p ∷ ps) (c ∷ cs) = p == c && starts_with ps cs

-- `operator<` on strings.
abbrev pub lex : Bytes → Bytes → Bool
lex [] [] = false
lex [] (y ∷ ys) = true
lex (x ∷ xs) [] = false
lex (x ∷ xs) (y ∷ ys) = ltb x y || (x == y && lex xs ys)

pub =?_iff : (a b : Bytes) → ((a =? b) ≡ true) ↔ (a ≡ b)
=?_iff [] [] = ground arith
=?_iff [] (y ∷ ys) = ground arith
=?_iff (x ∷ xs) [] = ground arith
=?_iff (x ∷ xs) (y ∷ ys) = ground (arith, =?_iff xs ys)

pub =?_refl : (a : Bytes) → (a =? a) ≡ true
=?_refl a = (=?_iff a a).1 refl

pub lex_irrefl : (a : Bytes) → lex a a ≡ false
lex_irrefl [] = refl
lex_irrefl (x ∷ xs) = ground (arith, lex_irrefl xs)

pub lex_trans : (a b c : Bytes) → lex a b ≡ true → lex b c ≡ true → lex a c ≡ true
lex_trans [] [] c p q = absurd (false≢true p)
lex_trans [] (y ∷ ys) [] p q = absurd (false≢true q)
lex_trans [] (y ∷ ys) (z ∷ zs) p q = refl
lex_trans (x ∷ xs) [] c p q = absurd (false≢true p)
lex_trans (x ∷ xs) (y ∷ ys) [] p q = absurd (false≢true q)
lex_trans (x ∷ xs) (y ∷ ys) (z ∷ zs) p q = ground (arith, lex_trans xs ys zs)

pub lex_total : (a b : Bytes) → lex a b ≡ false → lex b a ≡ false → a ≡ b
lex_total [] [] p q = refl
lex_total [] (y ∷ ys) p q = cc
lex_total (x ∷ xs) [] p q = cc
lex_total (x ∷ xs) (y ∷ ys) p q = ground (arith, lex_total xs ys)

-- `order by link asc` under collation "C", and `std::ranges::sort` of strings.
abbrev pub byte_order : StrictOrder Bytes
byte_order = record { before = lex; irrefl = lex_irrefl; trans = lex_trans; total = lex_total }
