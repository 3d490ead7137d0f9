-- ===== src/Paging/Tests.antt =====
-- Pages of a table of three captures, with a token library that stores the numbers of a token.
use webshot.Base.{
  ◌<◌, ◌+◌, ◌*◌, ◌≤◌, ℕ, zero, suc, ap, All, ◌*◌, ◌≤◌, ◌≡◌, ◌≢◌, refl, List, [], ◌∷◌, Option, none,
  some, length, last, ok, arith,
}
use webshot.Base.Bytes.{Bytes, codes}
use webshot.Base.Sorting.{IsDistinct}
use webshot.Captures.{Capture, rows_of_link, get_captures_by_link_first}
use webshot.Captures.Rows.{Row, newest_first}
use webshot.Paging.Cursor.{
  DtoDirection, dto_next, dto_previous, next, previous, TokenLib, LinkDto, PrefixDto, encode_cursor,
  decode_cursor, decode_cursor-encode_cursor, time_point_to_micros, micros_to_time_point, IsMicros,
}
use webshot.Paging.Link.{find_captures_by_link_page, token_of}
use webshot.Paging.Link.Pages.{token_at, history}
use webshot.Paging.Link.Walk.{walk, walk-history, find_previous-page}
use webshot.Prefix.Bound.{upper_exclusive_bound}
use webshot.Paging.Prefix.{PrefixPage, select_links, get_distinct_links_by_prefix_first}
use webshot.Paging.Prefix.Rows.{find_captures_by_prefix_page, read_prefix_token}
use webshot.Paging.Prefix.Bounds.{find_captures_by_prefix_page-length}

abbrev write_direction : DtoDirection → ℕ
write_direction dto_next = 0
write_direction dto_previous = 1

abbrev read_direction : ℕ → DtoDirection
read_direction zero = dto_next
read_direction (suc n) = dto_previous

abbrev write : LinkDto → Bytes
write dto = dto.t ∷ dto.i ∷ write_direction dto.d ∷ []

abbrev read : Bytes → Option LinkDto
read (t ∷ i ∷ d ∷ []) = some (record { t = t; i = i; d = read_direction d })
read _ = none

read_direction-write_direction : (d : DtoDirection) → read_direction (write_direction d) ≡ d
read_direction-write_direction dto_next = refl
read_direction-write_direction dto_previous = refl

read-write : (dto : LinkDto) → read (write dto) ≡ some dto
read-write dto = rw (read_direction-write_direction dto.d) refl

nonempty : (n : ℕ) (ns : Bytes) → n ∷ ns ≢ []
nonempty n ns e = omega (arith, ap length e)

abbrev link_lib : TokenLib LinkDto
link_lib = record {
  to_json = write;
  parse_json = read;
  base64_url_encode = λ b. b;
  base64_url_decode = some;
  from_bytes = some;
  parse-to_json = read-write;
  decode-encode = λ b. refl;
  from_bytes-json = λ d. refl;
  from_bytes-base64 = λ b. refl;
  to_json_nonempty = λ d. nonempty d.t (d.i ∷ write_direction d.d ∷ []);
  encode_nonempty = λ b n. n;
}

abbrev link : Bytes
link = codes "a"

abbrev capture : ℕ → ℕ → Capture
capture id at = record {
  uuid = id;
  created_at = at;
  link = link;
  replay_url = [];
  prefix_key = [];
  prefix_tree = [];
  content_sha256 = [];
}

abbrev table : List Capture
table = capture 1 1000 ∷ capture 2 3000 ∷ capture 3 2000 ∷ []

abbrev row : ℕ → ℕ → Row
row id at = record { created_at = at; uuid = id }

history_test : history table link ≡ row 2 3000 ∷ row 3 2000 ∷ row 1 1000 ∷ []
history_test = refl

-- The primary key.
rows-IsDistinct : IsDistinct newest_first (rows_of_link link table)
rows-IsDistinct = (
  ((λ e. omega (arith, ap (λ r. r.uuid) e)), ((λ e. omega (arith, ap (λ r. r.uuid) e)), tt)),
  (((λ e. omega (arith, ap (λ r. r.uuid) e)), tt), (tt, tt)),
)

history-IsMicros : All (λ r. IsMicros r.created_at) (history table link)
unfolding time_point_to_micros micros_to_time_point
history-IsMicros = (refl, (refl, (refl, tt)))

walk-history_example : walk link_lib 2 (ok table) link 4 [] ≡ some (history table link)
walk-history_example =
    walk-history link_lib 2 (omega arith) table link rows-IsDistinct history-IsMicros

find_previous-page_example :
    find_captures_by_link_page link_lib 2
      (ok table)
      link
      (token_at link_lib 2 previous (row 1 1000))
    ≡ ok (record {
      items = row 2 3000 ∷ row 3 2000 ∷ [];
      next_page_token = token_of link_lib next (last (row 2 3000 ∷ row 3 2000 ∷ []));
      previous_page_token = none;
    })
find_previous-page_example =
    find_previous-page link_lib 2 (omega arith) table link rows-IsDistinct history-IsMicros []
      (row 2 3000) (row 3 2000 ∷ []) (row 1 1000) [] refl refl

decode_cursor-encode_cursor_example :
    (micros : ℕ) × (decode_cursor link_lib (encode_cursor link_lib 3456 7 previous)
      ≡ some (record { created_at = micros * 1000; id = 7; direction = previous }))
    × (micros * 1000 ≤ 3456)
    × (3456 < micros * 1000 + 1000)
decode_cursor-encode_cursor_example = decode_cursor-encode_cursor link_lib 3456 7 previous

-- A byte string ends with a zero; its bytes are moved up by one.
abbrev write_bytes : Bytes → Bytes → Bytes
write_bytes [] rest = 0 ∷ rest
write_bytes (b ∷ bs) rest = suc b ∷ write_bytes bs rest

abbrev read_bytes : Bytes → Bytes × Bytes
read_bytes [] = ([], [])
read_bytes (zero ∷ rest) = ([], rest)
read_bytes (suc b ∷ rest) = (b ∷ (read_bytes rest).0, (read_bytes rest).1)

read_bytes-write_bytes : (b rest : Bytes) → read_bytes (write_bytes b rest) ≡ (b, rest)
read_bytes-write_bytes [] rest = refl
read_bytes-write_bytes (b ∷ bs) rest = ap (λ r. (b ∷ r.0, r.1)) (read_bytes-write_bytes bs rest)

abbrev write_option : Option ℕ → Bytes → Bytes
write_option none rest = 0 ∷ 0 ∷ rest
write_option (some n) rest = 1 ∷ n ∷ rest

abbrev read_option : ℕ → ℕ → Option ℕ
read_option zero n = none
read_option (suc k) n = some n

abbrev write_prefix : PrefixDto → Bytes
write_prefix dto =
    write_bytes dto.p
      (write_bytes dto.l (write_direction dto.d ∷ write_option dto.t (write_option dto.i [])))

abbrev read_fields : Bytes → Bytes → Bytes → Option PrefixDto
read_fields p l (d ∷ t1 ∷ t2 ∷ i1 ∷ i2 ∷ []) =
    some
      (record { p = p; l = l; d = read_direction d; t = read_option t1 t2; i = read_option i1 i2 })
read_fields p l _ = none

abbrev read_prefix : Bytes → Option PrefixDto
read_prefix b =
    read_fields (read_bytes b).0 (read_bytes (read_bytes b).1).0 (read_bytes (read_bytes b).1).1

read_fields-write :
    (p l : Bytes) (d : DtoDirection) (t i : Option ℕ)
    → read_fields p l (write_direction d ∷ write_option t (write_option i []))
      ≡ some (record { p = p; l = l; d = d; t = t; i = i })
read_fields-write p l d none none = rw (read_direction-write_direction d) refl
read_fields-write p l d none (some i) = rw (read_direction-write_direction d) refl
read_fields-write p l d (some t) none = rw (read_direction-write_direction d) refl
read_fields-write p l d (some t) (some i) = rw (read_direction-write_direction d) refl

read_prefix-write_prefix : (dto : PrefixDto) → read_prefix (write_prefix dto) ≡ some dto
read_prefix-write_prefix dto =
    rw
      (
        read_bytes-write_bytes dto.p (
            write_bytes dto.l (write_direction dto.d ∷ write_option dto.t (write_option dto.i []))),
        read_bytes-write_bytes dto.l
            (write_direction dto.d ∷ write_option dto.t (write_option dto.i [])),
      )
      (read_fields-write dto.p dto.l dto.d dto.t dto.i)

write_bytes-nonempty : (b rest : Bytes) → write_bytes b rest ≢ []
write_bytes-nonempty [] rest = nonempty 0 rest
write_bytes-nonempty (b ∷ bs) rest = nonempty (suc b) (write_bytes bs rest)

abbrev prefix_lib : TokenLib PrefixDto
prefix_lib = record {
  to_json = write_prefix;
  parse_json = read_prefix;
  base64_url_encode = λ b. b;
  base64_url_decode = some;
  from_bytes = some;
  parse-to_json = read_prefix-write_prefix;
  decode-encode = λ b. refl;
  from_bytes-json = λ d. refl;
  from_bytes-base64 = λ b. refl;
  to_json_nonempty = λ d.
      write_bytes-nonempty d.p
        (write_bytes d.l (write_direction d.d ∷ write_option d.t (write_option d.i [])));
  encode_nonempty = λ b n. n;
}

no_token : read_prefix_token prefix_lib link [] ≡ ok none
unfolding read_prefix_token
no_token = refl

find_captures_by_prefix_page-length_example :
    (page : PrefixPage) × (find_captures_by_prefix_page prefix_lib link (ok table) 5 2 [] ≡ ok page)
    × (length page.items ≤ 5 * 2)
find_captures_by_prefix_page-length_example =
    find_captures_by_prefix_page-length table 5 2 link prefix_lib [] none (omega arith) no_token

abbrev two_links : List Capture
two_links =
    capture 1 1000
    ∷ capture 2 3000
    ∷ capture 3 2000
    ∷ record (capture 4 500) { link = codes "ab" }
    ∷ []

-- The captures of a link that is not the page's last are cut off without a token that leads to them.
cut_off_test :
    find_captures_by_prefix_page prefix_lib link (ok two_links) 5 2 []
    ≡ ok (record {
      items =
          record { id = 2; created_at = 3000; link = link }
          ∷ record { id = 3; created_at = 2000; link = link }
          ∷ record { id = 4; created_at = 500; link = codes "ab" }
          ∷ [];
      next_page_token = none;
      previous_page_token = none;
    })
unfolding find_captures_by_prefix_page select_links get_distinct_links_by_prefix_first
    upper_exclusive_bound get_captures_by_link_first
cut_off_test = refl
