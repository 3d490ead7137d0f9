-- ===== src/S3.antt =====
-- webshotd/src/s3/sigv4_signer.cpp: the percent-encoding of names, values and paths that are signed.
pub mod Decoding
pub mod Query
pub mod QueryString
pub mod Tests
use webshot.Base.{
  ℕ, ◌≡◌, refl, sym, ap, ◌∙◌, ◌⊎◌, inl, inr, arith, Bool-cases, ◌+◌, ◌/◌, ◌%◌, Bool, true, false,
  not, ◌&&◌, ◌||◌, ltb, leb, ◌==◌, if◌then◌else◌, List, [], ◌∷◌, ◌++◌,
}
use webshot.Base.Bytes.{Bytes, ◌=?◌, =?_iff, =?_refl, lex, lex_irrefl, lex_trans, lex_total}
use webshot.Base.Sorting.{StrictOrder, sort}

pub data EncodeSlash : Type 0 where
  yes no : EncodeSlash

unfoldable pub is_unreserved : ℕ → Bool
is_unreserved c =
    (leb b'A' c && leb c b'Z')
    || (leb b'a' c && leb c b'z')
    || (leb b'0' c && leb c b'9')
    || c == b'-'
    || c == b'_'
    || c == b'.'
    || c == b'~'

-- `hex[d]`.
unfoldable pub hex_digit : ℕ → ℕ
hex_digit d = if ltb d 10 then b'0' + d else 55 + d

abbrev pub keeps_slash : EncodeSlash → Bool
keeps_slash yes = false
keeps_slash no = true

unfoldable pub percent_encode_bytes : Bytes → EncodeSlash → Bytes
unfolding is_unreserved hex_digit
percent_encode_bytes [] encode_slash = []
percent_encode_bytes (c ∷ s) encode_slash =
    let rest = percent_encode_bytes s encode_slash in
    if is_unreserved c || (keeps_slash encode_slash && c == b'/')
    then c ∷ rest
    else b'%' ∷ hex_digit (c / 16 % 16) ∷ hex_digit (c % 16) ∷ rest

-- Pairs of encoded names and values, in the order of `std::pair`.
abbrev pub Pair : Type 0
Pair = Bytes × Bytes

abbrev pub encode_pairs : List Pair → List Pair
encode_pairs [] = []
encode_pairs (p ∷ q) = (percent_encode_bytes p.0 yes, percent_encode_bytes p.1 yes) ∷ encode_pairs q

abbrev pub pair_before : Pair → Pair → Bool
pair_before p q = lex p.0 q.0 || (p.0 =? q.0 && lex p.1 q.1)

pub pair_irrefl : (p : Pair) → pair_before p p ≡ false
pair_irrefl p = rw (lex_irrefl p.0, lex_irrefl p.1, =?_refl p.0) refl

before-cases :
    (p q : Pair)
    → pair_before p q ≡ true
    → (lex p.0 q.0 ≡ true) ⊎ ((p.0 ≡ q.0) × (lex p.1 q.1 ≡ true))
before-cases p q h = elim (Bool-cases (lex p.0 q.0)) [
  | inl e ↦ inl e
  | inr e ↦ elim (Bool-cases (p.0 =? q.0)) [
    | inl f ↦ inr ((=?_iff p.0 q.0).0 f, ground (arith, h, e, f))
    | inr f ↦ absurd (ground (arith, h, e, f))
  ]
]

first_before : (p q : Pair) → lex p.0 q.0 ≡ true → pair_before p q ≡ true
first_before p q h = rw h refl

second_before : (p q : Pair) → p.0 ≡ q.0 → lex p.1 q.1 ≡ true → pair_before p q ≡ true
second_before p q e h = ground (arith, (=?_iff p.0 q.0).1 e, h)

pub pair_trans :
    (p q r : Pair) → pair_before p q ≡ true → pair_before q r ≡ true → pair_before p r ≡ true
pair_trans p q r h k = elim (before-cases p q h) [
  | inl a ↦ elim (before-cases q r k) [
    | inl b ↦ first_before p r (lex_trans p.0 q.0 r.0 a b)
    | inr (e, b) ↦ first_before p r (ap (lex p.0) (sym e) ∙ a)
  ]
  | inr (e, a) ↦ elim (before-cases q r k) [
    | inl b ↦ first_before p r (ap (λ x. lex x r.0) e ∙ b)
    | inr (f, b) ↦ second_before p r (e ∙ f) (lex_trans p.1 q.1 r.1 a b)
  ]
]

pub pair_total : (p q : Pair) → pair_before p q ≡ false → pair_before q p ≡ false → p ≡ q
pair_total p q h k =
    let e : p.0 ≡ q.0 = lex_total p.0 q.0 (ground arith) (ground arith) in
    let a = (=?_iff p.0 q.0).1 e in
    let b = (=?_iff q.0 p.0).1 (sym e) in
    let f : p.1 ≡ q.1 = lex_total p.1 q.1 (ground arith) (ground arith) in
    ap (λ x. (x, p.1)) e ∙ ap (λ y. (q.0, y)) f

abbrev pub pair_order : StrictOrder Pair
pair_order = record {
  before = pair_before;
  irrefl = pair_irrefl;
  trans = pair_trans;
  total = pair_total;
}

-- The loop over the sorted pairs, with `&` between them.
unfoldable pub join_pairs : Bool → List Pair → Bytes
join_pairs is_first [] = []
join_pairs is_first (p ∷ q) =
    let rest = join_pairs false q in
    (if is_first then [] else b'&' ∷ []) ++ (p.0 ++ b'=' ∷ (p.1 ++ rest))

-- `CanonicalizeQueryImpl`.
unfoldable pub canonicalize_query : List Pair → Bytes
unfolding join_pairs
canonicalize_query query = join_pairs true (sort pair_order (encode_pairs query))
