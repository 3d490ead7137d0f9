-- ===== src/S3/Tests.antt =====
-- Percent-encoding and canonical queries of concrete texts.
use webshot.S3.{join_pairs, encode_pairs}
use webshot.S3.Decoding.{digit_value-hex_digit}
use webshot.S3.QueryString.{find, decode_loop, decode_query_string}
use webshot.S3.QueryString.Escaped.{IsEscaped, end, plain, escape, AdaLib}
use webshot.S3.QueryString.RoundTrip.{decode_query_string-join_pairs}
use webshot.Base.{ℕ, List, length, Option, some, ok, true, ◌≡◌, refl, [], ◌∷◌, arith}
use webshot.Base.Bytes.{Bytes, codes}
use webshot.S3.{Pair, no, percent_encode_bytes, canonicalize_query}
use webshot.S3.Decoding.{percent_decode, outside}

percent_encode_test : percent_encode_bytes (codes "a/b c") no ≡ codes "a/b%20c"
unfolding percent_encode_bytes
percent_encode_test = refl

abbrev text : Bytes
text = codes "a/b"

abbrev list_type : Pair
list_type = (codes "list-type", codes "2")

abbrev prefix : Pair
prefix = (codes "prefix", codes "a/")

canonicalize_query_test :
    canonicalize_query (prefix ∷ list_type ∷ []) ≡ codes "list-type=2&prefix=a%2F"
unfolding canonicalize_query percent_encode_bytes
canonicalize_query_test = refl

abbrev decoder : Bytes → Option ℕ → Bytes
decoder t i = percent_decode outside t

decoder-IsEscaped : (t s : Bytes) → IsEscaped t s → decoder t (find b'%' t) ≡ s
decoder-IsEscaped _ _ end = refl
decoder-IsEscaped _ _ (plain c t s h e) = ground (arith, decoder-IsEscaped t s e)
decoder-IsEscaped _ _ (escape d e t s h k f) =
    rw (digit_value-hex_digit d h, digit_value-hex_digit e k, decoder-IsEscaped t s f) refl

ada : AdaLib decoder
ada = record { decodes = decoder-IsEscaped }

abbrev two_pairs : List Pair
two_pairs = (codes "b", codes "/") ∷ (codes "a", codes "x") ∷ []

encoded_length : length (join_pairs true (encode_pairs two_pairs)) ≡ 9
unfolding join_pairs percent_encode_bytes
encoded_length = refl

decode_query_string-join_pairs_example :
    (decode_query_string decoder some (join_pairs true (encode_pairs two_pairs))
      ≡ some (ok two_pairs))
    × (decode_query_string decoder some (b'?' ∷ join_pairs true (encode_pairs two_pairs))
        ≡ some (ok two_pairs))
decode_query_string-join_pairs_example =
    decode_query_string-join_pairs decoder some ada two_pairs
      (
        (((omega arith, tt), refl), ((omega arith, tt), refl)),
        ((((omega arith, tt), refl), ((omega arith, tt), refl)), tt),
      )
      (omega (arith, encoded_length))

-- A name without `=` takes in what stands up to the next `=`, and its value all of the rest.
decode_query_string_test :
    decode_query_string decoder some (codes "a&b=1&c=2")
    ≡ some
        (ok ((codes "a&b", codes "1&c=2") ∷ (codes "b", codes "1") ∷ (codes "c", codes "2") ∷ []))
unfolding decode_query_string decode_loop find
decode_query_string_test = refl
