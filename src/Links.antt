-- ===== src/Links.antt =====
-- Links (webshotd/src/link.cpp): which texts and URLs may be captured, and the key of a link.
use webshot.Base.{
  ℕ, Bool, true, false, not, ◌&&◌, ◌||◌, ltb, leb, ◌==◌, if◌then◌else◌, [], ◌∷◌, ◌++◌, drop, length,
  init, Option, none, some, Expected, ok, err, ensure, ◌>>=◌, ◌>>◌,
}
use webshot.Base.Bytes.{Bytes, codes, ◌=?◌, starts_with}

pub data LinkErrorCode : Type 0 where
  missing_scheme unsupported_scheme input_too_long failed_to_parse missing_hostname
        ip_address_not_allowed invalid_host normalized_href_too_long :
      LinkErrorCode

pub data UrlErrorCode : Type 0 where
  url_input_too_long url_failed_to_parse : UrlErrorCode

-- The URL parser ada behind webshotd/src/url.cpp, `IsIpLiteralHostname` of webshotd/include/ip.hpp
-- with the address parser behind it, and `absl::StripAsciiWhitespace`.
pub record LinkLib (Url : Type 0) : Type 0 where
  pub from_bounded_size_text : Bytes → ℕ → Expected Url UrlErrorCode
  pub is_http_or_https : Url → Bool
  pub has_hostname : Url → Bool
  pub hostname : Url → Bytes
  pub pathname : Url → Bytes
  pub is_ip_literal_hostname : Bytes → Bool
  pub has_valid_domain : Url → Bool
  pub without_user_hash_and_port : Url → Url
  pub set_hostname : Url → Bytes → Url
  pub set_protocol : Url → Bytes → Url
  pub get_href : Url → Bytes
  pub strip_ascii_whitespace : Bytes → Bytes

abbrev pub is_ascii_alpha : ℕ → Bool
is_ascii_alpha c = (leb b'A' c && leb c b'Z') || (leb b'a' c && leb c b'z')

abbrev pub is_scheme_byte : ℕ → Bool
is_scheme_byte c =
    is_ascii_alpha c || (leb b'0' c && leb c b'9') || c == b'+' || c == b'-' || c == b'.'

abbrev pub are_scheme_bytes : Bytes → Bool
are_scheme_bytes [] = true
are_scheme_bytes (c ∷ s) = is_scheme_byte c && are_scheme_bytes s

unfoldable pub is_valid_scheme : Bytes → Bool
is_valid_scheme [] = false
is_valid_scheme (c ∷ s) = is_ascii_alpha c && are_scheme_bytes s

-- The text in front of the first `://`.
unfoldable pub scheme_of : Bytes → Option Bytes
scheme_of [] = none
scheme_of (c ∷ s) =
    if starts_with (codes "://") (c ∷ s)
    then some []
    else elim (scheme_of s) [ none ↦ none | some scheme ↦ some (c ∷ scheme) ]

-- A text with its scheme, or with `http://` where it has none.
abbrev pub schemed : Bytes → Option Bytes → Expected Bytes LinkErrorCode
schemed text none = ok (codes "http://" ++ text)
schemed text (some scheme) =
    if not (is_valid_scheme scheme)
    then ok (codes "http://" ++ text)
    else if scheme =? codes "http" || scheme =? codes "https"
    then ok text
    else err unsupported_scheme

abbrev pub parse_error : UrlErrorCode → LinkErrorCode
parse_error url_input_too_long = input_too_long
parse_error url_failed_to_parse = failed_to_parse

-- `absl::ConsumeSuffix`.
abbrev pub without_slash : Bytes → Bytes
without_slash [] = []
without_slash (c ∷ []) = if c == b'/' then [] else c ∷ []
without_slash (c ∷ d ∷ s) = c ∷ without_slash (d ∷ s)

abbrev pub ends_with_dot : Bytes → Bool
ends_with_dot [] = false
ends_with_dot (c ∷ []) = c == b'.'
ends_with_dot (c ∷ d ∷ s) = ends_with_dot (d ∷ s)

module _ {Url : Type 0} (lib : LinkLib Url) where
  unfoldable pub serialize_href : Url → Bytes
  serialize_href url = without_slash (lib.get_href url)

  abbrev pub without_final_dot : Url → Url
  without_final_dot url =
      if ends_with_dot (lib.hostname url)
      then lib.set_hostname url (init (lib.hostname url))
      else url

  unfoldable pub normalize_url : Url → ℕ → Expected Url LinkErrorCode
  normalize_url url url_bytes_max = do
    ensure (lib.is_http_or_https url) unsupported_scheme
    ensure (lib.has_hostname url) missing_hostname
    ensure (not (lib.is_ip_literal_hostname (lib.hostname url))) ip_address_not_allowed
    ensure (lib.has_valid_domain url) invalid_host
    let normalized = without_final_dot (lib.without_user_hash_and_port url)
    ensure (not (ltb url_bytes_max (length (serialize_href normalized)))) normalized_href_too_long
    ok normalized

  abbrev pub parsed : Bytes → ℕ → Expected Url LinkErrorCode
  parsed text url_bytes_max = elim (lib.from_bounded_size_text text url_bytes_max) [
    | ok url ↦ ok url
    | err e ↦ err (parse_error e)
  ]

  -- `Link::FromText`. A link is its normalized URL.
  unfoldable pub link_from_text : Bytes → ℕ → Expected Url LinkErrorCode
  link_from_text text url_bytes_max =
      let stripped = lib.strip_ascii_whitespace text in
      if starts_with (codes "//") stripped
      then err missing_scheme
      else schemed stripped (scheme_of stripped) >>= λ s.
          parsed s url_bytes_max >>= λ url. normalize_url url url_bytes_max

  -- `Link::FromUrl`.
  unfoldable pub link_from_url : Url → ℕ → Expected Url LinkErrorCode
  link_from_url url url_bytes_max = normalize_url url url_bytes_max

  unfoldable pub http_url : Url → Bytes
  http_url url = serialize_href (lib.set_protocol url (codes "http"))

  unfoldable pub https_url : Url → Bytes
  https_url url = serialize_href (lib.set_protocol url (codes "https"))

  unfoldable pub to_key : Url → Bytes
  to_key url = drop 7 (http_url url)
