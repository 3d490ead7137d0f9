-- ===== src/Captures/Rows.antt =====
-- `CaptureMetaIdRow` of webshotd/src/capture_meta_repo.hpp, and the order
-- `created_at desc, id asc` of the queries in webshotd/sql/query/.
use webshot.Base.{ℕ, ◌≡◌, Bool, true, false, ◌&&◌, ◌||◌, arith, ltb, ◌==◌}
use webshot.Base.Sorting.{StrictOrder}

pub record Row : Type 0 where
  pub created_at : ℕ
  pub uuid : ℕ

abbrev pub newer : Row → Row → Bool
newer a b = ltb b.created_at a.created_at || (b.created_at == a.created_at && ltb a.uuid b.uuid)

pub newer_irrefl : (a : Row) → newer a a ≡ false
newer_irrefl a = ground arith

pub newer_trans : (a b c : Row) → newer a b ≡ true → newer b c ≡ true → newer a c ≡ true
newer_trans a b c p q = ground arith

pub newer_total : (a b : Row) → newer a b ≡ false → newer b a ≡ false → a ≡ b
newer_total a b p q = ground arith

abbrev pub newest_first : StrictOrder Row
newest_first = record {
  before = newer;
  irrefl = newer_irrefl;
  trans = newer_trans;
  total = newer_total;
}
