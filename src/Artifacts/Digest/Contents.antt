-- ===== src/Artifacts/Digest/Contents.antt =====
-- What the items of a fingerprint tell of the responses of a capture.
use webshot.Base.{null, if◌then◌else◌, ◌≡◌, refl, ap, List, [], ◌∷◌, ◌++◌, map, arith}
use webshot.Base.Bytes.{Bytes, codes}
use webshot.Crawl.Fallback.{ℤ}
use webshot.Artifacts.{
  Headers, find_header, CapturedExchange, CapturedMainDocumentRedirect, CapturedResource,
}
use webshot.Artifacts.Digest.{
  main, redirect, resource, Item, items_of, main_item, redirect_item, resource_item, or_empty,
}

-- What a fingerprint tells of a response: of the main document its URL, status, content type and body;
-- of a redirect its URL, status and location; of a resource its URL, method, status, type, content
-- type and body.
pub data Content : Type 0 where
  main_content : Bytes → Bytes → Bytes → Bytes → Content
  redirect_content : Bytes → Bytes → Bytes → Content
  resource_content : Bytes → Bytes → Bytes → Bytes → Bytes → Bytes → Content

abbrev pub header : Bytes → Headers → Bytes
header name headers = or_empty (find_header name headers)

abbrev pub content_of_redirect : (ℤ → Bytes) → CapturedMainDocumentRedirect → Content
content_of_redirect format r =
    redirect_content r.redirect_url (format r.status_code) (header (codes "location") r.headers)

abbrev pub content_of_resource : (ℤ → Bytes) → CapturedResource → Content
content_of_resource format r =
    resource_content r.resource_url (if null r.method then codes "GET" else r.method)
      (format r.status_code) (or_empty r.resource_type) (header (codes "content-type") r.headers)
      r.body

abbrev pub contents_of : (ℤ → Bytes) → CapturedExchange → List Content
contents_of format x =
    main_content x.final_url (format x.status_code) (header (codes "content-type") x.headers) x.body
    ∷ (map (content_of_redirect format) x.main_document_redirects
        ++ map (content_of_resource format) x.resources)

abbrev pub item_of : Content → Item
item_of (main_content url status type body) = record {
  kind = main;
  fields = url ∷ status ∷ type ∷ body ∷ [];
}
item_of (redirect_content url status location) = record {
  kind = redirect;
  fields = url ∷ status ∷ location ∷ [];
}
item_of (resource_content url method status type mime body) = record {
  kind = resource;
  fields = url ∷ method ∷ status ∷ type ∷ mime ∷ body ∷ [];
}

item_of-injective : (a b : Content) → item_of a ≡ item_of b → a ≡ b
item_of-injective (main_content a b c d) (main_content e f g k) h = ground (arith, h)
item_of-injective (redirect_content a b c) (redirect_content d e f) h = ground (arith, h)
item_of-injective (resource_content a b c d e f) (resource_content g i j k l m) h =
    ground (arith, h)
item_of-injective (main_content a b c d) (redirect_content e f g) h = absurd (ground (arith, h))
item_of-injective (main_content a b c d) (resource_content e f g i j k) h =
    absurd (ground (arith, h))
item_of-injective (redirect_content a b c) (main_content d e f g) h = absurd (ground (arith, h))
item_of-injective (redirect_content a b c) (resource_content d e f g i j) h =
    absurd (ground (arith, h))
item_of-injective (resource_content a b c d e f) (main_content g i j k) h =
    absurd (ground (arith, h))
item_of-injective (resource_content a b c d e f) (redirect_content g i j) h =
    absurd (ground (arith, h))

pub map-injective : (xs ys : List Content) → map item_of xs ≡ map item_of ys → xs ≡ ys
map-injective [] [] h = refl
map-injective [] (y ∷ ys) h = absurd (cc)
map-injective (x ∷ xs) [] h = absurd (cc)
map-injective (x ∷ xs) (y ∷ ys) h =
    let first = item_of-injective x y (cc) in let rest = map-injective xs ys (cc) in cc

module _ (format : ℤ → Bytes) where
  resource_items :
      (rs : List CapturedResource)
      → map (resource_item format) rs ≡ map item_of (map (content_of_resource format) rs)
  unfolding resource_item
  resource_items [] = refl
  resource_items (r ∷ rs) = ap (◌∷◌ (resource_item format r)) (resource_items rs)

  all_items :
      (rs : List CapturedMainDocumentRedirect) (ss : List CapturedResource)
      → map (redirect_item format) rs ++ map (resource_item format) ss
        ≡ map item_of (map (content_of_redirect format) rs ++ map (content_of_resource format) ss)
  unfolding redirect_item
  all_items [] ss = resource_items ss
  all_items (r ∷ rs) ss = ap (◌∷◌ (redirect_item format r)) (all_items rs ss)

  pub items_of-contents_of :
      (x : CapturedExchange) → items_of format x ≡ map item_of (contents_of format x)
  unfolding items_of main_item
  items_of-contents_of x =
      ap (◌∷◌ (main_item format x)) (all_items x.main_document_redirects x.resources)
