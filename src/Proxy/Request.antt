-- ===== src/Proxy/Request.antt =====
-- How the proxy reads a request and writes the one that it forwards: the parsers and
-- `MakeForwardRequest` of webshotd/src/crawler/egress_proxy.cpp.
pub mod Lines
pub mod Shape
use webshot.Base.{
  ℕ, zero, suc, ◌==◌, ltb, Bool, true, false, not, ◌&&◌, ◌||◌, if◌then◌else◌, List, [], ◌∷◌, ◌++◌,
  Option, none, some, any, drop, length, null, Expected, ok, err,
}
use webshot.Base.Maybe.{◌>>=◌, ◌>>◌, require}
use webshot.Base.Bytes.{Bytes, codes, ◌=?◌, starts_with}
use webshot.Base.Splitting.{cut}
use webshot.Crawl.Fallback.{ℤ, pos, negsuc}

-- The text functions of userver, the Base64 and number parsers, and `String::FromBytes`.
pub record TextLib : Type 0 where
  pub trim : Bytes → Bytes
  pub icase_starts_with : Bytes → Bytes → Bool
  pub base64_decode : Bytes → Option Bytes
  pub parse_u16 : Bytes → Option ℕ
  pub parse_i64 : Bytes → Option ℤ
  pub from_bytes : Bytes → Option Bytes
  pub to_string : ℕ → Bytes

abbrev pub crlf : Bytes
crlf = 13 ∷ 10 ∷ []

abbrev pub crlf2 : Bytes
crlf2 = 13 ∷ 10 ∷ 13 ∷ 10 ∷ []

abbrev pub put_front : ℕ → Option (Bytes × Bytes) → Option (Bytes × Bytes)
put_front c none = none
put_front c (some (before, after)) = some (c ∷ before, after)

-- What stands before and behind the first place where a text of at least one byte occurs.
unfoldable pub around : Bytes → Bytes → Option (Bytes × Bytes)
around text [] = none
around text (c ∷ cs) =
    if starts_with text (c ∷ cs)
    then some ([], drop (length text) (c ∷ cs))
    else put_front c (around text cs)

pub record HeaderLine : Type 0 where
  pub name : Bytes
  pub value : Bytes

pub record ParsedRequest : Type 0 where
  pub method : Bytes
  pub target : Bytes
  pub version : Bytes
  pub headers : List HeaderLine
  pub header_bytes : ℕ

pub record Authority : Type 0 where
  pub host : Bytes
  pub port : ℕ

pub record HttpRequestTarget : Type 0 where
  pub host : Bytes
  pub port : ℕ
  pub path : Bytes

-- A line up to the next line break, and what remains.
unfoldable pub take_crlf_line : Bytes → Option (Bytes × Bytes)
unfolding around
take_crlf_line remaining = around crlf remaining

-- The text between the first two blanks of the request line.
unfoldable pub parse_request_line : Bytes → Option (Bytes × Bytes × Bytes)
parse_request_line line = do
  rest ← (cut b' ' line).1
  version ← (cut b' ' rest).1
  require (not (null (cut b' ' line).0 || (null (cut b' ' rest).0 || null version)))
  some ((cut b' ' line).0, (cut b' ' rest).0, version)

module _ (lib : TextLib) where
  unfoldable pub icase_equal : Bytes → Bytes → Bool
  icase_equal lhs rhs = length lhs == length rhs && lib.icase_starts_with lhs rhs

  unfoldable pub find_header_value : List HeaderLine → Bytes → Option Bytes
  find_header_value [] name = none
  find_header_value (h ∷ headers) name =
      if icase_equal h.name name then some h.value else find_header_value headers name

  -- `push_back`, unless the line has no colon or no name.
  unfoldable pub push_header : Bytes × Option Bytes → List HeaderLine → List HeaderLine
  push_header (name, none) headers = headers
  push_header (name, some value) headers =
      if null name then headers else record { name = name; value = lib.trim value } ∷ headers

  -- The `while` loop, with one unit of fuel for each byte that remains.
  unfoldable pub parse_headers : ℕ → Bytes → Option (List HeaderLine)
  unfolding take_crlf_line push_header
  parse_headers zero remaining = some []
  parse_headers (suc fuel) remaining =
      let more = parse_headers fuel in
      if null remaining then some [] else do
        (line, rest) ← take_crlf_line remaining
        elim (null line) [
          | true ↦ some []
          | false ↦ more rest >>= λ headers. some (push_header (cut b':' line) headers)
        ]

  unfoldable pub parse_header_part : Bytes → Option ParsedRequest
  unfolding take_crlf_line parse_request_line parse_headers
  parse_header_part header_part = do
    (request_line, remaining) ← take_crlf_line header_part
    (method, target, version) ← parse_request_line request_line
    headers ← parse_headers (length remaining) remaining
    some (record {
      method = method;
      target = target;
      version = version;
      headers = headers;
      header_bytes = length header_part;
    })

  unfoldable pub parse_header_block : Bytes → Option ParsedRequest
  parse_header_block bytes = around crlf2 bytes >>= λ part. parse_header_part (part.0 ++ crlf2)

  unfoldable pub parse_basic_auth_user : Bytes → Option (Bytes × Bytes)
  unfolding icase_equal
  parse_basic_auth_user header_value = do
    rest ← (cut b' ' header_value).1
    require (icase_equal (cut b' ' header_value).0 (codes "basic"))
    require (not (null (lib.trim rest)))
    decoded ← lib.base64_decode (lib.trim rest)
    password ← (cut b':' decoded).1
    some ((cut b':' decoded).0, password)

  unfoldable pub parse_port : Bytes → Option ℕ
  parse_port port_text = do
    require (not (null port_text))
    port ← lib.parse_u16 port_text
    require (not (port == 0))
    some port

  -- From `if (host.empty())` on; `required` is `PortMode::kRequired`.
  unfoldable pub after_host : ℕ → Bool → Bytes → Bytes → Option Authority
  unfolding parse_port
  after_host default_port required host remainder = do
    require (not (null host))
    if null remainder
        then require (not required) >> some (record { host = host; port = default_port })
        else do
          require (starts_with (codes ":") remainder)
          port ← parse_port (drop 1 remainder)
          some (record { host = host; port = port })

  -- An address in brackets, `authority` being what follows the first one.
  unfoldable pub parse_bracketed : ℕ → Bool → Bytes → Option Authority
  unfolding after_host
  parse_bracketed default_port required authority = do
    remainder ← (cut b']' authority).1
    after_host default_port required (cut b']' authority).0 remainder

  -- The branch without brackets, split at the first colon; a second one is refused.
  unfoldable pub parse_plain : ℕ → Bool → Bytes → Bytes × Option Bytes → Option Authority
  unfolding after_host
  parse_plain default_port required authority (host, none) =
      require (not required) >> some (record { host = authority; port = default_port })
  parse_plain default_port required authority (host, some port_text) = do
    require (not (any (λ c. c == b':') port_text))
    after_host default_port required host (b':' ∷ port_text)

  unfoldable pub parse_trimmed : ℕ → Bool → Bytes → Option Authority
  unfolding parse_bracketed parse_plain
  parse_trimmed default_port required [] = none
  parse_trimmed default_port required (c ∷ authority) =
      if c == b'['
      then parse_bracketed default_port required authority
      else parse_plain default_port required (c ∷ authority) (cut b':' (c ∷ authority))

  unfoldable pub parse_authority : Bytes → ℕ → Bool → Option Authority
  unfolding parse_trimmed
  parse_authority authority default_port required =
      parse_trimmed default_port required (lib.trim authority)

  unfoldable pub should_forward_header : Bytes → Bool
  unfolding icase_equal
  should_forward_header name =
      not (icase_equal name (codes "proxy-authorization"))
      && (not (icase_equal name (codes "proxy-connection"))
          && not (icase_equal name (codes "connection")))
