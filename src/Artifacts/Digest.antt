-- ===== src/Artifacts/Digest.antt =====
-- `ComputeContentSha256` of webshotd/src/crawler/artifacts.cpp: the fingerprint by which captures of one
-- link are taken for the same.
pub mod Contents
pub mod Same
use webshot.Base.{null, if◌then◌else◌, List, [], ◌∷◌, ◌++◌, map, Option, none, some}
use webshot.Base.Bytes.{Bytes, codes, byte_order}
use webshot.Base.Sorting.{sort}
use webshot.Crawl.Fallback.{ℤ}
use webshot.Artifacts.{
  Headers, find_header, CapturedExchange, CapturedMainDocumentRedirect, CapturedResource,
}

pub data Kind : Type 0 where
  main redirect resource : Kind

abbrev pub kind_text : Kind → Bytes
kind_text main = codes "main"
kind_text redirect = codes "redirect"
kind_text resource = codes "resource"

abbrev pub concat : List Bytes → Bytes
concat [] = []
concat (x ∷ xs) = x ++ concat xs

-- What is hashed of a response: its kind, and texts.
pub record Item : Type 0 where
  pub kind : Kind
  pub fields : List Bytes

abbrev pub or_empty : Option Bytes → Bytes
or_empty none = []
or_empty (some s) = s

abbrev pub item_domain : Bytes
item_domain = codes "webshot.capture_hash.item"

abbrev pub capture_domain : Bytes
capture_domain = codes "webshot.capture_hash"

-- `format` prints a status code.
module _ (format : ℤ → Bytes) where
  unfoldable pub main_item : CapturedExchange → Item
  main_item exchange = record {
    kind = main;
    fields =
        exchange.final_url
        ∷ format exchange.status_code
        ∷ or_empty (find_header (codes "content-type") exchange.headers)
        ∷ exchange.body
        ∷ [];
  }

  unfoldable pub redirect_item : CapturedMainDocumentRedirect → Item
  redirect_item r = record {
    kind = redirect;
    fields =
        r.redirect_url
        ∷ format r.status_code
        ∷ or_empty (find_header (codes "location") r.headers)
        ∷ [];
  }

  unfoldable pub resource_item : CapturedResource → Item
  resource_item r = record {
    kind = resource;
    fields =
        r.resource_url
        ∷ (if null r.method then codes "GET" else r.method)
        ∷ format r.status_code
        ∷ or_empty r.resource_type
        ∷ or_empty (find_header (codes "content-type") r.headers)
        ∷ r.body
        ∷ [];
  }

  -- What is hashed of a capture.
  unfoldable pub items_of : CapturedExchange → List Item
  items_of exchange =
      main_item exchange
      ∷ (map redirect_item exchange.main_document_redirects ++ map resource_item exchange.resources)

module _ (sha256_bytes : Bytes → Bytes) where
  unfoldable pub item_digest : Item → Bytes
  item_digest i =
      sha256_bytes (item_domain ++ (kind_text i.kind ++ concat (map sha256_bytes i.fields)))

  unfoldable pub combined : List Bytes → Bytes
  combined item_digests = sha256_bytes (capture_domain ++ concat (sort byte_order item_digests))

  unfoldable pub compute_content_sha256 : (ℤ → Bytes) → CapturedExchange → Bytes
  compute_content_sha256 format exchange = combined (map item_digest (items_of format exchange))
