-- ===== src/Artifacts.antt =====
-- The archive of a crawl (webshotd/include/crawler/artifacts.hpp, webshotd/src/crawler/artifacts.cpp):
-- what was captured, and the responses that are written out.
pub mod Digest
pub mod Tests
pub mod Pages
pub mod Wacz
pub mod Warc
use webshot.Base.{
  ℕ, Bool, true, false, ◌||◌, not, if◌then◌else◌, List, [], ◌∷◌, ◌++◌, keep, map, Option, none,
  some,
}
use webshot.Base.Bytes.{Bytes, codes, ◌=?◌}
use webshot.Crawl.Fallback.{ℤ}

-- `std::unordered_map<std::string, std::string>`, in the order in which it is walked.
abbrev pub Headers : Type 0
Headers = List (Bytes × Bytes)

-- `find`.
unfoldable pub find_header : Bytes → Headers → Option Bytes
find_header name [] = none
find_header name (h ∷ hs) = if h.0 =? name then some h.1 else find_header name hs

pub data ArtifactErrorCode : Type 0 where
  gzip_failed zip_failed : ArtifactErrorCode

pub record ArtifactError : Type 0 where
  pub code : ArtifactErrorCode
  pub detail : Bytes

pub record CapturedMainDocumentRedirect : Type 0 where
  pub redirect_url : Bytes
  pub status_code : ℤ
  pub status_message : Bytes
  pub headers : Headers
  pub timestamp : Bytes

pub record CapturedResource : Type 0 where
  pub resource_url : Bytes
  pub method : Bytes
  pub resource_type : Option Bytes
  pub status_code : ℤ
  pub status_message : Bytes
  pub headers : Headers
  pub body : Bytes
  pub timestamp : Bytes

pub record CapturedExchange : Type 0 where
  pub seed_url : Bytes
  pub page_id : Bytes
  pub final_url : Bytes
  pub status_code : ℤ
  pub status_message : Bytes
  pub headers : Headers
  pub body : Bytes
  pub timestamp : Bytes
  pub redirect_chain : List Bytes
  pub main_document_redirects : List CapturedMainDocumentRedirect
  pub resources : List CapturedResource
  pub title : Option Bytes

pub record SerializableResponse : Type 0 where
  pub response_url : Bytes
  pub method : Bytes
  pub page_id : Bytes
  pub resource_type : Option Bytes
  pub status_code : ℤ
  pub status_message : Bytes
  pub headers : Headers
  pub body : Bytes
  pub timestamp : Bytes

unfoldable pub is_dropped_header : Bytes → Bool
is_dropped_header name =
    name =? codes "content-encoding"
    || name =? codes "content-length"
    || name =? codes "transfer-encoding"

unfoldable pub normalize_response_headers : Headers → Headers
normalize_response_headers headers = keep (λ h. not (is_dropped_header h.0)) headers

unfoldable pub make_redirect_response : CapturedMainDocumentRedirect → SerializableResponse
make_redirect_response redirect = record {
  response_url = redirect.redirect_url;
  method = codes "GET";
  page_id = [];
  resource_type = some (codes "Document");
  status_code = redirect.status_code;
  status_message = redirect.status_message;
  headers = redirect.headers;
  body = [];
  timestamp = redirect.timestamp;
}

unfoldable pub make_main_document_response : CapturedExchange → SerializableResponse
make_main_document_response exchange = record {
  response_url = exchange.final_url;
  method = codes "GET";
  page_id = exchange.page_id;
  resource_type = some (codes "Document");
  status_code = exchange.status_code;
  status_message = exchange.status_message;
  headers = exchange.headers;
  body = exchange.body;
  timestamp = exchange.timestamp;
}

unfoldable pub make_resource_response : CapturedResource → SerializableResponse
make_resource_response resource = record {
  response_url = resource.resource_url;
  method = resource.method;
  page_id = [];
  resource_type = resource.resource_type;
  status_code = resource.status_code;
  status_message = resource.status_message;
  headers = resource.headers;
  body = resource.body;
  timestamp = resource.timestamp;
}

unfoldable pub content_type_for_headers : Headers → Bytes
content_type_for_headers headers = elim (find_header (codes "content-type") headers) [
  | some v ↦ v
  | none ↦ codes "application/octet-stream"
]

abbrev pub first_timestamp : List CapturedMainDocumentRedirect → Bytes → Bytes
first_timestamp [] own = own
first_timestamp (r ∷ rs) own = r.timestamp

unfoldable pub page_timestamp : CapturedExchange → Bytes
page_timestamp exchange = first_timestamp exchange.main_document_redirects exchange.timestamp

abbrev pub of_page : Bytes → SerializableResponse → SerializableResponse
of_page page_id response = record response { page_id = page_id }

-- `sort_by_timestamp` is `std::ranges::sort` with the order of the timestamps, which leaves open how
-- equal ones stand.
unfoldable pub collect_serializable_responses :
    (List SerializableResponse → List SerializableResponse)
    → CapturedExchange
    → List SerializableResponse
collect_serializable_responses sort_by_timestamp exchange = sort_by_timestamp (
    map (λ r. of_page exchange.page_id (make_redirect_response r)) exchange.main_document_redirects
    ++ make_main_document_response exchange
      ∷ map (λ r. of_page exchange.page_id (make_resource_response r)) exchange.resources)
