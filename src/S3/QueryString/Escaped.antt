-- ===== src/S3/QueryString/Escaped.antt =====
-- The text of encoded names and values.
use mathlib.Core.Path.{subst}
use webshot.Base.{
  ℕ, Bool, ◌≤◌, ◌+◌, ◌*◌, ◌/◌, ◌%◌, ◌<◌, ◌≡◌, ◌≢◌, refl, true, false, ◌==◌, ◌||◌, ◌&&◌, Bool-cases,
  List, [], ◌∷◌, ◌++◌, length, length-append, All, Option, inl, inr, arith,
}
use webshot.Base.Bytes.{Bytes}
use webshot.S3.{Pair, yes, is_unreserved, hex_digit, percent_encode_bytes, encode_pairs, join_pairs}
use webshot.S3.Decoding.{kept_byte}
use webshot.S3.QueryString.{find, without_mark}

-- A text in which each percent sign begins an escape, with what it stands for.
pub data IsEscaped : Bytes → Bytes → Type 0 where
  end : IsEscaped [] []
  plain : (c : ℕ) (t s : Bytes) → c ≢ b'%' → IsEscaped t s → IsEscaped (c ∷ t) (c ∷ s)
  escape :
      (d e : ℕ) (t s : Bytes)
      → d < 16
      → e < 16
      → IsEscaped t s
      → IsEscaped (b'%' ∷ hex_digit d ∷ hex_digit e ∷ t) ((d * 16 + e) ∷ s)

-- ada's decoder of such a text, from its first percent sign on.
pub record AdaLib (percent_decode : Bytes → Option ℕ → Bytes) : Type 0 where
  pub decodes : (t s : Bytes) → IsEscaped t s → percent_decode t (find b'%' t) ≡ s

escape_value : (c : ℕ) → c < 256 → c / 16 % 16 * 16 + c % 16 ≡ c
escape_value c h = omega arith

pub percent_encode_bytes-IsEscaped :
    (s : Bytes) → All (λ c. c < 256) s → IsEscaped (percent_encode_bytes s yes) s
unfolding percent_encode_bytes
percent_encode_bytes-IsEscaped [] h = end
percent_encode_bytes-IsEscaped (c ∷ s) h =
    elim (Bool-cases (is_unreserved c || (false && c == b'/'))) [
      | inl k ↦
          rw k
            (plain c _ s (ground (arith, kept_byte c yes k)) (percent_encode_bytes-IsEscaped s h.1))
      | inr k ↦ rw k (
          subst
            (λ x.
              IsEscaped
                (b'%' ∷ hex_digit (c / 16 % 16) ∷ hex_digit (c % 16) ∷ percent_encode_bytes s yes)
                (x ∷ s))
            (escape_value c h.0)
            (escape (c / 16 % 16) (c % 16) _ s (omega arith) (omega arith)
              (percent_encode_bytes-IsEscaped s h.1)))
    ]

-- Neither `&` nor `=` nor `?`.
abbrev pub IsName : ℕ → Type 0
IsName c = (c ≢ b'=') × (c ≢ b'&') × (c ≢ b'?')

hex_digit-IsName : (d : ℕ) → d < 16 → IsName (hex_digit d)
unfolding hex_digit
hex_digit-IsName d h = ground arith

unreserved-IsName : (c : ℕ) → (is_unreserved c || (false && c == b'/')) ≡ true → IsName c
unfolding is_unreserved
unreserved-IsName c h = ground arith

pub percent_encode_bytes-IsName : (s : Bytes) → All IsName (percent_encode_bytes s yes)
unfolding percent_encode_bytes
percent_encode_bytes-IsName [] = tt
percent_encode_bytes-IsName (c ∷ s) = elim (Bool-cases (is_unreserved c || (false && c == b'/'))) [
  | inl k ↦ rw k (unreserved-IsName c k, percent_encode_bytes-IsName s)
  | inr k ↦ rw k (
    ground arith,
    (
      hex_digit-IsName (c / 16 % 16) (omega arith),
      (hex_digit-IsName (c % 16) (omega arith), percent_encode_bytes-IsName s),
    ),
  )
]

abbrev pub name : Pair → Bytes
name p = percent_encode_bytes p.0 yes

abbrev pub value : Pair → Bytes
value p = percent_encode_bytes p.1 yes

without_mark-append :
    (k rest : Bytes) → All IsName k → without_mark (k ++ b'=' ∷ rest) ≡ k ++ b'=' ∷ rest
without_mark-append [] rest h = refl
without_mark-append (c ∷ k) rest h = ground (arith, h.0)

pub without_mark-join_pairs :
    (q : List Pair)
    → without_mark (join_pairs true (encode_pairs q)) ≡ join_pairs true (encode_pairs q)
unfolding join_pairs
without_mark-join_pairs [] = refl
without_mark-join_pairs (p ∷ q) =
    without_mark-append (name p) (value p ++ join_pairs false (encode_pairs q))
      (percent_encode_bytes-IsName p.0)

length-pair : (p : Pair) (rest : Bytes) → length rest < length (name p ++ b'=' ∷ (value p ++ rest))
length-pair p rest =
    omega (arith, length-append (name p) (b'=' ∷ (value p ++ rest)), length-append (value p) rest)

pub length-join_pairs :
    (is_first : Bool) (q : List Pair) → length q ≤ length (join_pairs is_first (encode_pairs q))
unfolding join_pairs
length-join_pairs is_first [] = omega arith
length-join_pairs true (p ∷ q) =
    omega (arith, length-join_pairs false q, length-pair p (join_pairs false (encode_pairs q)))
length-join_pairs false (p ∷ q) =
    omega (arith, length-join_pairs false q, length-pair p (join_pairs false (encode_pairs q)))
