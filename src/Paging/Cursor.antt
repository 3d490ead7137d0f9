-- ===== src/Paging/Cursor.antt =====
-- webshotd/include/cursor.hpp, webshotd/src/cursor.cpp, webshotd/src/pagination.cpp and the cursors
-- of webshotd/src/prefix_pagination.cpp: page cursors and their opaque tokens.
use webshot.Base.{arith, refl, ℕ, ◌+◌, ◌≤◌, ◌<◌, ◌*◌, ◌/◌, ◌≡◌, ◌≢◌, [], Option, none, some}
use webshot.Base.Bytes.{Bytes}
use webshot.Base.Maybe.{◌>>=◌}

pub data PageDirection : Type 0 where
  next previous : PageDirection

-- `dto::PaginationCursor::D` and `dto::PaginationPrefixCursor::D`.
pub data DtoDirection : Type 0 where
  dto_next dto_previous : DtoDirection

abbrev pub to_dto : PageDirection → DtoDirection
to_dto next = dto_next
to_dto previous = dto_previous

abbrev pub from_dto : DtoDirection → PageDirection
from_dto dto_next = next
from_dto dto_previous = previous

from_dto-to_dto : (d : PageDirection) → from_dto (to_dto d) ≡ d
from_dto-to_dto next = refl
from_dto-to_dto previous = refl

-- A time point counts nanoseconds since the epoch.
unfoldable pub time_point_to_micros : ℕ → ℕ
time_point_to_micros tp = tp / 1000

unfoldable pub micros_to_time_point : ℕ → ℕ
micros_to_time_point micros = micros * 1000

-- The JSON, Base64 and UTF-8 libraries at one DTO, with the round trips that they document.
pub record TokenLib (Dto : Type 0) : Type 0 where
  -- `json::ToString(json::ValueBuilder(dto).ExtractValue())` and `json::Parse<Dto>`.
  pub to_json : Dto → Bytes
  pub parse_json : Bytes → Option Dto
  -- `Base64UrlEncode` without padding, and `Base64UrlDecode`.
  pub base64_url_encode : Bytes → Bytes
  pub base64_url_decode : Bytes → Option Bytes
  -- `String::FromBytes`: checked UTF-8 in normal form.
  pub from_bytes : Bytes → Option Bytes
  pub parse-to_json : (d : Dto) → parse_json (to_json d) ≡ some d
  pub decode-encode : (b : Bytes) → base64_url_decode (base64_url_encode b) ≡ some b
  pub from_bytes-json : (d : Dto) → from_bytes (to_json d) ≡ some (to_json d)
  pub from_bytes-base64 :
      (b : Bytes) → from_bytes (base64_url_encode b) ≡ some (base64_url_encode b)
  pub to_json_nonempty : (d : Dto) → to_json d ≢ []
  pub encode_nonempty : (b : Bytes) → b ≢ [] → base64_url_encode b ≢ []

-- `*expected`: with no value the C++ program aborts, and no caller sees a result.
abbrev pub deref : Option Bytes → Bytes
deref none = []
deref (some b) = b

module _ {Dto : Type 0} (lib : TokenLib Dto) where
  unfoldable pub encode_token : Dto → Bytes
  encode_token dto = deref (lib.from_bytes (lib.base64_url_encode (lib.to_json dto)))

  unfoldable pub decode_token : Bytes → Option Dto
  decode_token token = do
    decoded ← lib.base64_url_decode token
    decoded_text ← lib.from_bytes decoded
    lib.parse_json decoded_text

  -- A token that the service issued is read back.
  pub decode_token-encode_token : (d : Dto) → decode_token (encode_token d) ≡ some d
  unfolding encode_token decode_token
  decode_token-encode_token d =
      rw
        (
          lib.from_bytes-base64 (lib.to_json d),
          lib.decode-encode (lib.to_json d),
          lib.from_bytes-json d,
        )
        (lib.parse-to_json d)

  -- The empty token stands for "no cursor", and is never issued.
  pub encode_token-nonempty : (d : Dto) → encode_token d ≢ []
  unfolding encode_token
  encode_token-nonempty d =
      rw (lib.from_bytes-base64 (lib.to_json d))
        (lib.encode_nonempty (lib.to_json d) (lib.to_json_nonempty d))

-- `dto::PaginationCursor`: microseconds, id, direction.
pub record LinkDto : Type 0 where
  pub t : ℕ
  pub i : ℕ
  pub d : DtoDirection

pub record Cursor : Type 0 where
  pub created_at : ℕ
  pub id : ℕ
  pub direction : PageDirection

unfoldable pub encode_cursor : TokenLib LinkDto → ℕ → ℕ → PageDirection → Bytes
encode_cursor lib created_at id direction =
    encode_token lib (record { t = time_point_to_micros created_at; i = id; d = to_dto direction })

unfoldable pub decode_cursor : TokenLib LinkDto → Bytes → Option Cursor
decode_cursor lib token = do
  cur ← decode_token lib token
  some (record { created_at = micros_to_time_point cur.t; id = cur.i; direction = from_dto cur.d })

-- A time point of the database has whole microseconds.
abbrev pub IsMicros : ℕ → Type 0
IsMicros tp = micros_to_time_point (time_point_to_micros tp) ≡ tp

-- A cursor is read back as it was issued, but for its time.
pub decoded_cursor :
    (lib : TokenLib LinkDto) (at id : ℕ) (d : PageDirection)
    → decode_cursor lib (encode_cursor lib at id d)
      ≡ some (record {
        created_at = micros_to_time_point (time_point_to_micros at);
        id = id;
        direction = d;
      })
unfolding encode_cursor decode_cursor
decoded_cursor lib at id d =
    rw
      (
        decode_token-encode_token lib
            (record { t = time_point_to_micros at; i = id; d = to_dto d }),
        from_dto-to_dto d,
      )
      refl

-- A cursor that the service issued is read back with its id, its direction, and its time cut to the
-- microsecond: a whole number of microseconds, less than one before the time that it was issued for.
pub decode_cursor-encode_cursor :
    (lib : TokenLib LinkDto) (at id : ℕ) (d : PageDirection)
    → (micros : ℕ) × (decode_cursor lib (encode_cursor lib at id d)
        ≡ some (record { created_at = micros * 1000; id = id; direction = d }))
      × (micros * 1000 ≤ at)
      × (at < micros * 1000 + 1000)
unfolding time_point_to_micros micros_to_time_point
decode_cursor-encode_cursor lib at id d =
    (at / 1000, decoded_cursor lib at id d, omega arith, omega arith)

pub encode_cursor-nonempty :
    (lib : TokenLib LinkDto) (at id : ℕ) (d : PageDirection) → encode_cursor lib at id d ≢ []
unfolding encode_cursor
encode_cursor-nonempty lib at id d = encode_token-nonempty lib _

-- `dto::PaginationPrefixCursor`.
pub record PrefixDto : Type 0 where
  pub p : Bytes
  pub l : Bytes
  pub d : DtoDirection
  pub t : Option ℕ
  pub i : Option ℕ

pub record PrefixCursor : Type 0 where
  pub prefix : Bytes
  pub link : Bytes
  pub direction : PageDirection
  pub created_at : Option ℕ
  pub id : Option ℕ

-- The time and the id are kept only where the token has both.
abbrev pub with_position : Option ℕ → Option ℕ → PrefixCursor → PrefixCursor
with_position (some t) (some i) out = record out {
  created_at = some (micros_to_time_point t);
  id = some i;
}
with_position _ _ out = out

unfoldable pub decode_prefix_cursor : TokenLib PrefixDto → Bytes → Option PrefixCursor
decode_prefix_cursor lib token = do
  cur ← decode_token lib token
  prefix ← lib.from_bytes cur.p
  link ← lib.from_bytes cur.l
  some (
      with_position cur.t cur.i (record {
        prefix = prefix;
        link = link;
        direction = from_dto cur.d;
        created_at = none;
        id = none;
      }))

-- `EncodePrefixCursor` without a position, and with one.
unfoldable pub encode_prefix_cursor : TokenLib PrefixDto → Bytes → Bytes → PageDirection → Bytes
encode_prefix_cursor lib prefix link direction =
    encode_token lib (record { p = prefix; l = link; d = to_dto direction; t = none; i = none })

unfoldable pub encode_prefix_cursor_at :
    TokenLib PrefixDto → Bytes → Bytes → ℕ → ℕ → PageDirection → Bytes
encode_prefix_cursor_at lib prefix link created_at id direction = encode_token lib (record {
  p = prefix;
  l = link;
  d = to_dto direction;
  t = some (time_point_to_micros created_at);
  i = some id;
})
