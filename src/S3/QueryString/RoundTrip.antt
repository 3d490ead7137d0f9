-- ===== src/S3/QueryString/RoundTrip.antt =====
-- Encoded parameters are read back.

use mathlib.Core.List.{append_assoc, append-nil}
use webshot.Base.{
  ℕ, zero, suc, ◌+◌, ◌-◌, ◌%◌, ◌^◌, ◌<◌, ◌≡◌, refl, sym, ap, ◌∙◌, true, false, ltb, List, [], ◌∷◌,
  ◌++◌, take, drop, length, length-drop, length-append, All-append, All-mono, drop_all, take-append,
  drop-append, All, Option, none, some, ok, arith,
}
use webshot.Base.Bytes.{Bytes}
use webshot.Base.Splitting.{Lacks}
use webshot.S3.{Pair, yes, percent_encode_bytes, encode_pairs, join_pairs}
use webshot.S3.QueryString.{
  find, find_from, val_part, decode_part, decode_pair, after_pair, decode_loop, decode_query_string,
}
use webshot.S3.QueryString.Escaped.{
  AdaLib, name, value, percent_encode_bytes-IsEscaped, percent_encode_bytes-IsName,
  without_mark-join_pairs, length-join_pairs,
}

find-append : (c : ℕ) (a b : Bytes) → Lacks c a → find c (a ++ c ∷ b) ≡ some (length a)
unfolding find
find-append c [] b h = ground arith
find-append c (x ∷ a) b h = ground (arith, find-append c a b h.1)

find_none : (c : ℕ) (a : Bytes) → Lacks c a → find c a ≡ none
unfolding find
find_none c [] h = refl
find_none c (x ∷ a) h = ground (arith, find_none c a h.1)

drop-drop : (m k n : ℕ) (s : Bytes) → k ≡ m + n → drop k s ≡ drop n (drop m s)
drop-drop zero k n s h = ap (λ i. drop i s) (omega arith)
drop-drop (suc m) zero n s h = absurd (omega arith)
drop-drop (suc m) (suc k) n [] h = sym (drop_all n [] (omega arith))
drop-drop (suc m) (suc k) n (x ∷ s) h = drop-drop m k n s (omega arith)

drop_behind :
    (s a rest : Bytes) (c pos : ℕ)
    → drop pos s ≡ a ++ c ∷ rest
    → drop (suc (pos + length a)) s ≡ rest
drop_behind s a rest c pos e =
    drop-drop pos (suc (pos + length a)) (suc (length a)) s (omega arith)
    ∙ ap (drop (suc (length a))) (e ∙ sym (append_assoc a (c ∷ []) rest))
    ∙ drop-append (suc (length a)) (a ++ c ∷ []) rest (omega (arith, length-append a (c ∷ [])))

size_of_value :
    (s k v rest : Bytes) (pos : ℕ)
    → length s < 2 ^ 64
    → drop pos s ≡ k ++ b'=' ∷ (v ++ b'&' ∷ rest)
    → (2 ^ 64 + (pos + length (k ++ b'=' ∷ v)) - (pos + length k) - 1) % 2 ^ 64 ≡ length v
size_of_value s k v rest pos size e =
    let n : length v < 2 ^ 64 = omega (
      arith,
      size,
      length-drop pos s,
      ap length e,
      length-append k (b'=' ∷ (v ++ b'&' ∷ rest)),
      length-append v (b'&' ∷ rest),
    ) in
    omega (arith, n, length-append k (b'=' ∷ v))

-- At a position where a name, `=` and a value stand.
module _ (s : Bytes) (p : Pair) (pos : ℕ) where
  find_equals :
      (rest : Bytes)
      → drop pos s ≡ (name p) ++ b'=' ∷ rest
      → find_from b'=' pos s ≡ some (pos + length (name p))
  find_equals rest e =
      rw
        (
          e,
          find-append b'=' (name p) rest
              (All-mono (λ c q. q.0) (name p) (percent_encode_bytes-IsName p.0)),
        )
        refl

  pair-Lacks : Lacks b'&' ((name p) ++ b'=' ∷ (value p))
  pair-Lacks =
      All-append _ (name p) (b'=' ∷ (value p))
        (All-mono (λ c q. q.1) (name p) (percent_encode_bytes-IsName p.0))
        ((λ h. omega (arith, h)), All-mono (λ c q. q.1) (value p) (percent_encode_bytes-IsName p.1))

  find_no_ampersand : drop pos s ≡ (name p) ++ b'=' ∷ (value p) → find_from b'&' pos s ≡ none
  find_no_ampersand e = rw (e, find_none b'&' _ pair-Lacks) refl

  find_ampersand :
      (rest : Bytes)
      → drop pos s ≡ (name p) ++ b'=' ∷ ((value p) ++ b'&' ∷ rest)
      → find_from b'&' pos s ≡ some (pos + length ((name p) ++ b'=' ∷ (value p)))
  find_ampersand rest e =
      rw
        (
          e,
          ← append_assoc (name p) (b'=' ∷ (value p)) (b'&' ∷ rest),
          find-append b'&' _ rest pair-Lacks,
        )
        refl

  name_at :
      (rest : Bytes)
      → drop pos s ≡ (name p) ++ b'=' ∷ rest
      → take (pos + length (name p) - pos) (drop pos s) ≡ (name p)
  name_at rest e = ap (take _) e ∙ take-append _ (name p) _ (omega arith)

-- The text of encoded pairs, without the `&` in front.
module _ (percent_decode : Bytes → Option ℕ → Bytes) (from_bytes : Bytes → Option Bytes)
    (ada : AdaLib percent_decode) where
  -- The name or the value is UTF-8.
  abbrev pub IsText : Bytes → Type 0
  IsText s = All (λ c. c < 256) s × (from_bytes s ≡ some s)

  abbrev pub IsTextPair : Pair → Type 0
  IsTextPair p = IsText p.0 × IsText p.1

  decode_part-percent_encode_bytes :
      (s : Bytes)
      → IsText s
      → decode_part percent_decode from_bytes (percent_encode_bytes s yes) ≡ some s
  decode_part-percent_encode_bytes s h =
      ap from_bytes (ada.decodes _ s (percent_encode_bytes-IsEscaped s h.0)) ∙ h.1

  decode_pair-encoded :
      (p : Pair)
      → IsTextPair p
      → decode_pair percent_decode from_bytes
          (percent_encode_bytes p.0 yes)
          (percent_encode_bytes p.1 yes)
        ≡ ok p
  decode_pair-encoded p h =
      rw (decode_part-percent_encode_bytes p.0 h.0, decode_part-percent_encode_bytes p.1 h.1) refl

  -- A round reads a pair.
  round :
      (s : Bytes) (p : Pair) (fuel pos : ℕ) (query : List Pair) (amp : Option ℕ)
      → IsTextPair p
      → pos < length s
      → find_from b'&' pos s ≡ amp
      → find_from b'=' pos s ≡ some (pos + length (name p))
      → take (pos + length (name p) - pos) (drop pos s) ≡ name p
      → val_part s (pos + length (name p)) amp ≡ value p
      → decode_loop percent_decode from_bytes (suc fuel) s pos query
        ≡ after_pair percent_decode from_bytes
            (decode_loop percent_decode from_bytes fuel s)
            query
            amp
            (ok p)
  unfolding decode_loop
  round s p fuel pos query amp h inside a e k v =
      let t : ltb pos (length s) ≡ true = ground arith in
      rw (t, a, e, k, v, decode_pair-encoded p h) refl

  position_inside : (s k rest : Bytes) (pos : ℕ) → drop pos s ≡ k ++ b'=' ∷ rest → pos < length s
  position_inside s k rest pos e =
      omega (arith, length-drop pos s, ap length e, length-append k (b'=' ∷ rest))

  last_round :
      (s : Bytes) (p : Pair) (fuel pos : ℕ) (query : List Pair)
      → IsTextPair p
      → drop pos s ≡ name p ++ b'=' ∷ value p
      → decode_loop percent_decode from_bytes (suc fuel) s pos query ≡ some (ok (query ++ p ∷ []))
  last_round s p fuel pos query h e =
      round s p fuel pos query none h (position_inside s (name p) (value p) pos e)
        (find_no_ampersand s p pos e) (find_equals s p pos (value p) e)
        (name_at s p pos (value p) e) (drop_behind s (name p) (value p) b'=' pos e)

  next_round :
      (s : Bytes) (p : Pair) (fuel pos : ℕ) (query : List Pair) (rest : Bytes)
      → IsTextPair p
      → length s < 2 ^ 64
      → drop pos s ≡ name p ++ b'=' ∷ (value p ++ b'&' ∷ rest)
      → (pos' : ℕ) × (decode_loop percent_decode from_bytes (suc fuel) s pos query
          ≡ decode_loop percent_decode from_bytes fuel s pos' (query ++ p ∷ []))
        × (drop pos' s ≡ rest)
  next_round s p fuel pos query rest h size e = (
    suc (pos + length (name p ++ b'=' ∷ value p)),
    round s p fuel pos query (some (pos + length (name p ++ b'=' ∷ value p))) h
        (position_inside s (name p) _ pos e) (find_ampersand s p pos rest e)
        (find_equals s p pos _ e) (name_at s p pos _ e)
        (ap (take _) (drop_behind s (name p) _ b'=' pos e)
          ∙ take-append _ (value p) (b'&' ∷ rest)
              (size_of_value s (name p) (value p) rest pos size e)),
    drop_behind s (name p ++ b'=' ∷ value p) rest b'&' pos
        (e ∙ sym (append_assoc (name p) (b'=' ∷ value p) (b'&' ∷ rest))),
  )

  at_end :
      (s : Bytes) (fuel pos : ℕ) (query : List Pair)
      → drop pos s ≡ []
      → decode_loop percent_decode from_bytes (suc fuel) s pos query ≡ some (ok query)
  unfolding decode_loop
  at_end s fuel pos query e =
      let t : ltb pos (length s) ≡ false = ground (arith, length-drop pos s, ap length e) in
      rw t refl

  decode_loop-join_pairs :
      (q : List Pair) (s : Bytes) (fuel pos : ℕ) (query : List Pair)
      → All IsTextPair q
      → length s < 2 ^ 64
      → length q < fuel
      → drop pos s ≡ join_pairs true (encode_pairs q)
      → decode_loop percent_decode from_bytes fuel s pos query ≡ some (ok (query ++ q))
  unfolding join_pairs
  decode_loop-join_pairs q s zero pos query h size more e = absurd (omega arith)
  decode_loop-join_pairs [] s (suc fuel) pos query h size more e =
      at_end s fuel pos query e ∙ ap (λ x. some (ok x)) (sym (append-nil query))
  decode_loop-join_pairs (p ∷ []) s (suc fuel) pos query h size more e =
      last_round s p fuel pos query h.0 (e ∙ ap (λ x. name p ++ b'=' ∷ x) (append-nil (value p)))
  decode_loop-join_pairs (p ∷ p' ∷ q) s (suc fuel) pos query h size more e =
      let (pos', eq, at) = next_round s p fuel pos query _ h.0 size e in
      eq
      ∙ decode_loop-join_pairs (p' ∷ q) s fuel pos' (query ++ p ∷ []) h.1 size (omega arith) at
      ∙ ap (λ x. some (ok x)) (append_assoc query (p ∷ []) (p' ∷ q))

  -- The encoded parameters of a query, with the question mark in front of them or without it, are
  -- read back. Names and values are UTF-8 text, and the query is shorter than 2 ^ 64 bytes.
  pub decode_query_string-join_pairs :
      (q : List Pair)
      → All IsTextPair q
      → suc (length (join_pairs true (encode_pairs q))) < 2 ^ 64
      → (decode_query_string percent_decode from_bytes (join_pairs true (encode_pairs q))
          ≡ some (ok q))
        × (decode_query_string percent_decode from_bytes (b'?' ∷ join_pairs true (encode_pairs q))
            ≡ some (ok q))
  unfolding decode_query_string
  decode_query_string-join_pairs q h size = (
    rw (without_mark-join_pairs q) (
        decode_loop-join_pairs q (join_pairs true (encode_pairs q)) _ 0 [] h (omega arith)
          (omega (arith, length-join_pairs true q)) refl),
    decode_loop-join_pairs q (join_pairs true (encode_pairs q)) _ 0 [] h (omega arith)
        (omega (arith, length-join_pairs true q)) refl,
  )
