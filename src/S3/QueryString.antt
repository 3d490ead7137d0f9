-- ===== src/S3/QueryString.antt =====
-- `DecodeQueryString` of webshotd/src/s3/url_utils.cpp: the parameters in the query of a URL.
pub mod Escaped
pub mod RoundTrip
use webshot.Base.{
  ℕ, zero, suc, ◌+◌, ◌-◌, ◌%◌, ◌^◌, Bool, ltb, ◌==◌, if◌then◌else◌, List, [], ◌∷◌, ◌++◌, take, drop,
  length, Option, none, some, Expected, ok, err, ok_or, ◌>>=◌,
}
use webshot.Base.Bytes.{Bytes}
use webshot.S3.{Pair}

pub data QueryStringError : Type 0 where
  invalid_utf8_key invalid_utf8_value : QueryStringError

abbrev pub one_more : Option ℕ → Option ℕ
one_more none = none
one_more (some i) = some (suc i)

-- `std::string::find` from the start.
unfoldable pub find : ℕ → Bytes → Option ℕ
find c [] = none
find c (x ∷ s) = if x == c then some 0 else one_more (find c s)

abbrev pub shifted : ℕ → Option ℕ → Option ℕ
shifted pos none = none
shifted pos (some i) = some (pos + i)

-- `std::string::find` from a position.
abbrev pub find_from : ℕ → ℕ → Bytes → Option ℕ
find_from c pos s = shifted pos (find c (drop pos s))

-- The text behind `=`, of `amp - eq - 1` bytes in the arithmetic of `size_t`, or up to the end.
abbrev pub val_part : Bytes → ℕ → Option ℕ → Bytes
val_part s eq none = drop (suc eq) s
val_part s eq (some amp) = take ((2 ^ 64 + amp - eq - 1) % 2 ^ 64) (drop (suc eq) s)

-- The question mark in front is left out.
abbrev pub without_mark : Bytes → Bytes
without_mark [] = []
without_mark (c ∷ s) = if c == b'?' then s else c ∷ s

module _ (percent_decode : Bytes → Option ℕ → Bytes) (from_bytes : Bytes → Option Bytes) where
  abbrev pub decode_part : Bytes → Option Bytes
  decode_part part = from_bytes (percent_decode part (find b'%' part))

  abbrev pub decode_pair : Bytes → Bytes → Expected Pair QueryStringError
  decode_pair key_text val_text = do
    key ← ok_or (decode_part key_text) invalid_utf8_key
    value ← ok_or (decode_part val_text) invalid_utf8_value
    ok (key, value)

  abbrev pub Decoded : Type 0
  Decoded = Option (Expected (List Pair) QueryStringError)

  -- The end of a round, with the rounds that follow.
  abbrev pub after_pair :
      (ℕ → List Pair → Decoded) → List Pair → Option ℕ → Expected Pair QueryStringError → Decoded
  after_pair rest query amp (err e) = some (err e)
  after_pair rest query none (ok p) = some (ok (query ++ p ∷ []))
  after_pair rest query (some amp) (ok p) = rest (suc amp) (query ++ p ∷ [])

  abbrev pub after_equals :
      (ℕ → List Pair → Decoded) → Bytes → ℕ → List Pair → Option ℕ → Option ℕ → Decoded
  after_equals rest s pos query amp none = some (ok query)
  after_equals rest s pos query amp (some eq) =
      after_pair rest query amp (decode_pair (take (eq - pos) (drop pos s)) (val_part s eq amp))

  -- The loop, on fuel.
  unfoldable pub decode_loop : ℕ → Bytes → ℕ → List Pair → Decoded
  decode_loop zero s pos query = none
  decode_loop (suc fuel) s pos query =
      let rest = decode_loop fuel s in
      if ltb pos (length s)
      then after_equals rest s pos query (find_from b'&' pos s) (find_from b'=' pos s)
      else some (ok query)

  unfoldable pub decode_query_string : Bytes → Decoded
  decode_query_string search = decode_loop (suc (length search)) (without_mark search) 0 []
