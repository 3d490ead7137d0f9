-- ===== src/Runner/Urls.antt =====
-- How webshotd/src/crawler/runner.cpp writes the URLs and the headers that it records.
use webshot.Base.{
  Bool, true, false, not, ◌&&◌, ◌||◌, null, if◌then◌else◌, List, [], ◌∷◌, ◌++◌, any, Option, none,
  some,
}
use webshot.Base.Bytes.{Bytes, codes, ◌=?◌, starts_with}
use webshot.Artifacts.{Headers, find_header}

-- `Url`, the URL parser ada behind webshotd/src/url.cpp; `absl::AsciiStrToLower`; and
-- `String::FromBytes`.
pub record UrlLib (Url : Type 0) : Type 0 where
  pub from_text : Bytes → Option Url
  pub is_http : Url → Bool
  pub is_https : Url → Bool
  pub has_port : Url → Bool
  pub port : Url → Bytes
  pub host : Url → Bytes
  pub hostname : Url → Bytes
  pub href : Url → Bytes
  pub origin : Url → Bytes
  pub path_with_search : Url → Bytes
  pub without_port : Url → Url
  pub without_hash_and_query : Url → Url
  pub with_search : Url → Bytes → Url
  pub to_lower : Bytes → Bytes
  pub from_bytes : Bytes → Option Bytes

-- The headers of a response as Chromium sends them.
abbrev pub CdpHeaders : Type 0
CdpHeaders = List (Bytes × Bytes)

unfoldable pub is_local_fixture_host : Bytes → Bool
is_local_fixture_host host =
    host =? codes "test-target"
    || host =? codes "asset.test-target"
    || host =? codes "untrusted.test-target"

abbrev pub same_bool : Bool → Bool → Bool
same_bool true b = b
same_bool false b = not b

module _ {Url : Type 0} (lib : UrlLib Url) where
  abbrev pub is_http_or_https : Url → Bool
  is_http_or_https u = lib.is_http u || lib.is_https u

  abbrev pub matches_fixture_port : Url → Bool
  matches_fixture_port u =
      (lib.is_http u && lib.port u =? codes "18080")
      || (lib.is_https u && lib.port u =? codes "18443")

  unfoldable pub canonicalize_captured_url : Bytes → Bytes
  canonicalize_captured_url url_text = elim (lib.from_text url_text) [
    | none ↦ url_text
    | some u ↦
        if is_http_or_https u
          && lib.has_port u
          && is_local_fixture_host (lib.hostname u)
          && matches_fixture_port u
        then lib.href (lib.without_port u)
        else url_text
  ]

  abbrev pub is_relative : Bytes → Bool
  is_relative location =
      null location || starts_with (codes "/") location || starts_with (codes "?") location

  abbrev pub shortened : Bytes → Option Url → Option Url → Bytes
  shortened canonical none response = canonical
  shortened canonical (some u) none = canonical
  shortened canonical (some u) (some v) =
      if same_bool (lib.is_http u) (lib.is_http v) && lib.host u =? lib.host v
      then lib.path_with_search u
      else canonical

  unfoldable pub canonicalize_captured_location_header : Bytes → Bytes → Bytes
  canonicalize_captured_location_header response_url location_value =
      elim (lib.from_bytes location_value) [
        | none ↦ location_value
        | some location ↦
            if is_relative location
            then location
            else let canonical = canonicalize_captured_url location in
              shortened canonical (lib.from_text canonical) (lib.from_text response_url)
      ]

  -- `emplace` keeps the first of two headers whose names are the same in lower case.
  abbrev pub emplace : Bytes → Bytes → Headers → Headers
  emplace name value out = if any (λ h. h.0 =? name) out then out else out ++ (name, value) ∷ []

  unfoldable pub normalize_headers : Headers → CdpHeaders → Headers
  normalize_headers out [] = out
  normalize_headers out (h ∷ hs) = normalize_headers (emplace (lib.to_lower h.0) h.1 out) hs

  abbrev pub normalize_headers_or_empty : Option CdpHeaders → Headers
  normalize_headers_or_empty none = []
  normalize_headers_or_empty (some headers) = normalize_headers [] headers

  abbrev pub with_location : Bytes → Headers → Headers
  with_location response_url [] = []
  with_location response_url (h ∷ hs) =
      (if h.0 =? codes "location"
        then (h.0, canonicalize_captured_location_header response_url h.1)
        else h)
      ∷ with_location response_url hs

  unfoldable pub normalize_headers_for_capture : Option CdpHeaders → Bytes → Headers
  normalize_headers_for_capture headers response_url =
      with_location response_url (normalize_headers_or_empty headers)

  abbrev pub origin_of : Option Url → Option Bytes
  origin_of none = none
  origin_of (some u) = if is_http_or_https u then some (lib.origin u) else none

  unfoldable pub make_url_origin : Bytes → Option Bytes
  make_url_origin url_text = origin_of (lib.from_text url_text)

  -- Where a location that is no URL of its own leads from the base.
  abbrev pub relative_target : Bytes → Bytes → Bytes → Bytes → Bytes
  relative_target base_text request_text location origin =
      if starts_with (codes "//") location
      then elim (lib.from_text base_text) [
        | none ↦ canonicalize_captured_url request_text
        | some base ↦
            canonicalize_captured_url
              ((if lib.is_https base then codes "https" else codes "http") ++ 58 ∷ location)
      ]
      else if starts_with (codes "/") location
      then canonicalize_captured_url (origin ++ location)
      else if starts_with (codes "?") location
      then elim (lib.from_text base_text) [
        | none ↦ canonicalize_captured_url request_text
        | some base ↦
            canonicalize_captured_url
              (lib.href (lib.with_search (lib.without_hash_and_query base) location))
      ]
      else canonicalize_captured_url request_text

  abbrev pub located_target : Bytes → Bytes → Bytes → Bytes
  located_target base_text request_text location = elim (lib.from_text location) [
    | some u ↦ canonicalize_captured_url (lib.href u)
    | none ↦ elim (make_url_origin base_text) [
      | none ↦ canonicalize_captured_url request_text
      | some origin ↦ relative_target base_text request_text location origin
    ]
  ]

  abbrev pub location_in : Headers → Option Bytes
  location_in headers = elim (find_header (codes "location") headers) [
    | none ↦ none
    | some value ↦ if null value then none else lib.from_bytes value
  ]

  -- `redirect_headers` are those of the redirect response, if there is one.
  unfoldable pub resolve_redirect_target_url : Bytes → Bytes → Option (Option CdpHeaders) → Bytes
  resolve_redirect_target_url base_text request_text none = canonicalize_captured_url request_text
  resolve_redirect_target_url base_text request_text (some headers) =
      elim (location_in (normalize_headers_for_capture headers base_text)) [
        | none ↦ canonicalize_captured_url request_text
        | some location ↦ located_target base_text request_text location
      ]
