-- ===== src/S3/Decoding.antt =====
-- What percent-encoded text reads as.
use webshot.Base.{
  ℕ, ◌+◌, ◌-◌, ◌*◌, ◌/◌, ◌%◌, ◌<◌, ◌≡◌, refl, ap, true, false, ◌&&◌, ◌||◌, ltb, ◌==◌, if◌then◌else◌,
  Bool-cases, [], ◌∷◌, All, inl, inr, arith,
}
use webshot.Base.Bytes.{Bytes}
use webshot.S3.{EncodeSlash, yes, no, is_unreserved, hex_digit, keeps_slash, percent_encode_bytes}

abbrev pub digit_value : ℕ → ℕ
digit_value d = if ltb d 65 then d - 48 else d - 55

-- What has been read of an escape.
pub data Escape : Type 0 where
  outside percent : Escape
  digit : ℕ → Escape

-- What a server reads.
abbrev pub percent_decode : Escape → Bytes → Bytes
percent_decode e [] = []
percent_decode outside (c ∷ s) =
    let plain = percent_decode outside s in
    let escaped = percent_decode percent s in if c == b'%' then escaped else c ∷ plain
percent_decode percent (c ∷ s) = percent_decode (digit c) s
percent_decode (digit d) (c ∷ s) = (digit_value d * 16 + digit_value c) ∷ percent_decode outside s

pub kept_byte :
    (c : ℕ) (m : EncodeSlash)
    → (is_unreserved c || (keeps_slash m && c == b'/')) ≡ true
    → (c == b'%') ≡ false
unfolding is_unreserved
kept_byte c yes h = ground arith
kept_byte c no h = ground arith

pub digit_value-hex_digit : (d : ℕ) → d < 16 → digit_value (hex_digit d) ≡ d
unfolding hex_digit
digit_value-hex_digit d h = ground arith

-- Percent-encoded bytes are read back, whether slashes are encoded or not.
percent_decode-percent_encode_bytes :
    (s : Bytes) (m : EncodeSlash)
    → All (λ c. c < 256) s
    → percent_decode outside (percent_encode_bytes s m) ≡ s
unfolding percent_encode_bytes
percent_decode-percent_encode_bytes [] m h = refl
percent_decode-percent_encode_bytes (c ∷ s) m h =
    elim (Bool-cases (is_unreserved c || (keeps_slash m && c == b'/'))) [
      | inl k ↦ rw (k, kept_byte c m k) (ap (◌∷◌ c) (percent_decode-percent_encode_bytes s m h.1))
      | inr k ↦
          rw
            (
              k,
              digit_value-hex_digit (c / 16 % 16) (omega arith),
              digit_value-hex_digit (c % 16) (omega arith),
              percent_decode-percent_encode_bytes s m h.1,
            )
            (ap (λ x. x ∷ s)
              (let b = h.0 in let e : c / 16 % 16 * 16 + c % 16 ≡ c = omega arith in e))
    ]
