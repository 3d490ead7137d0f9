-- ===== src/Artifacts/Tests.antt =====
-- The archive of a page with one redirect and two resources.
use mathlib.Core.List.{Permᴰ}
use webshot.Base.{
  ℕ, zero, suc, ◌≡◌, refl, ◌⊎◌, List, [], ◌∷◌, ◌++◌, length, take, length-take, length-append, none,
  some, ok, err, arith,
}
use webshot.Base.Bytes.{Bytes, codes}
use webshot.Base.Outcome.{returns, aborts}
use webshot.Base.Splitting.{cut}
use webshot.Crawl.Fallback.{ℤ, pos, negsuc}
use webshot.Artifacts.{
  ArtifactError, CapturedMainDocumentRedirect, CapturedResource, CapturedExchange,
  SerializableResponse,
}
use webshot.Artifacts.Pages.{extract_html_title, before_first}
use webshot.Artifacts.Warc.{ArchiveLib, WarcCdxRecord, WarcBuildOutput, make_warc}
use webshot.Artifacts.Warc.Located.{
  IsCollection, LacksText, IsGzipError, Indexed, EndsWithPageInfo, make_warc-Indexed,
}
use webshot.Artifacts.Wacz.{WaczLib, make_wacz}
use webshot.Artifacts.Wacz.Packed.{ZipLaws, IsZipError, Describes, make_wacz-Describes}
use webshot.Artifacts.Digest.{compute_content_sha256}
use webshot.Artifacts.Digest.Contents.{contents_of}
use webshot.Artifacts.Digest.Same.{Sha256Lib, Collision, hashed_texts, compute_content_sha256-Permᴰ}

abbrev style : CapturedResource
style = record {
  resource_url = codes "https://ex.com/s.css";
  method = codes "GET";
  resource_type = some (codes "Stylesheet");
  status_code = pos 200;
  status_message = codes "OK";
  headers = (codes "content-type", codes "text/css") ∷ [];
  body = codes "p{}";
  timestamp = codes "2024-01-01T00:00:02Z";
}

abbrev moved_style : CapturedResource
moved_style = record style { resource_url = codes "https://ex.com/t.css"; body = [] }

abbrev moved : CapturedMainDocumentRedirect
moved = record {
  redirect_url = codes "https://ex.com";
  status_code = pos 301;
  status_message = codes "Moved";
  headers = (codes "location", codes "/a") ∷ [];
  timestamp = codes "2024-01-01T00:00:00Z";
}

abbrev capture : CapturedExchange
capture = record {
  seed_url = codes "https://ex.com";
  page_id = codes "p1";
  final_url = codes "https://ex.com/a";
  status_code = pos 200;
  status_message = [];
  headers = (codes "content-type", codes "text/html") ∷ [];
  body = codes "<title>A</title>";
  timestamp = codes "2024-01-01T00:00:01Z";
  redirect_chain = [];
  main_document_redirects = moved ∷ [];
  resources = style ∷ moved_style ∷ [];
  title = none;
}

-- The same page at another time, with its resources in another order.
abbrev recapture : CapturedExchange
recapture = record capture {
  page_id = codes "p2";
  timestamp = codes "2024-01-02T00:00:00Z";
  resources = moved_style ∷ style ∷ [];
}

title_test : extract_html_title (codes "<html><title lang=en>A b</title>") ≡ codes "A b"
unfolding extract_html_title before_first cut
title_test = refl

abbrev decimal : ℤ → Bytes
decimal (pos n) = codes "200"
decimal (negsuc n) = codes "-1"

abbrev archive_lib : ArchiveLib
archive_lib = record {
  gzip_compress_member = λ s. ok (codes "gz" ++ s);
  sha256_hex = λ s. take 64 s;
  page_info_json = λ i. i.url;
  uuid = λ n. n ∷ [];
  target_and_host = λ s. none;
  format = decimal;
  status_code_string = λ n. some (codes "OK");
  cdx_timestamp = λ s. s;
}

abbrev in_order : List SerializableResponse → List SerializableResponse
in_order rs = rs

make_warc-Indexed_example :
    (rs : List SerializableResponse) × IsCollection capture rs
    × (((why : Bytes) × (make_warc archive_lib in_order capture ≡ aborts why)
          × LacksText archive_lib rs)
        ⊎ ((e : ArtifactError) × (make_warc archive_lib in_order capture ≡ returns (err e))
            × IsGzipError archive_lib e)
        ⊎ ((out : WarcBuildOutput) × (make_warc archive_lib in_order capture ≡ returns (ok out))
            × ((n : ℕ) × (cs : List WarcCdxRecord) × Indexed archive_lib out.bytes 0 rs cs
                × EndsWithPageInfo archive_lib capture out n cs)))
make_warc-Indexed_example = make_warc-Indexed archive_lib in_order capture

abbrev Files : Type 0
Files = List (Bytes × Bytes)

abbrev wacz_lib : WaczLib Files
wacz_lib = record {
  index_json = λ e. e.url;
  pages_header = codes "{}";
  package_json = λ d. d.title;
  sha256_hex = λ s. take 64 s;
  url_from_text = λ s. none;
  sort_lines = λ ls. ls;
  now = 7;
  empty_zip = [];
  add_stored_file = λ z path body. ok (z ++ (path, body) ∷ []);
  finish = λ z. ok (codes "zip");
}

abbrev contents : Files → List (Bytes × Bytes)
contents z = z

zip_laws : ZipLaws wacz_lib contents
zip_laws = record {
  contents-empty_zip = refl;
  contents-add_stored_file = λ z z' path body h. ground (arith, h);
}

abbrev warc : WarcBuildOutput
warc = record { bytes = codes "abc"; cdx_records = [] }

make_wacz-Describes_example :
    ((e : ArtifactError) × (make_wacz wacz_lib (codes "https://ex.com") (codes "{}") warc [] []
        ≡ err e)
      × IsZipError wacz_lib contents zip_laws e)
    ⊎ ((bytes : Bytes) × (zip : Files) × (make_wacz wacz_lib
            (codes "https://ex.com")
            (codes "{}")
            warc
            []
            []
          ≡ ok bytes)
        × (wacz_lib.finish zip ≡ ok bytes)
        × Describes wacz_lib contents zip_laws
            (codes "https://ex.com")
            (codes "{}")
            warc
            (contents zip))
make_wacz-Describes_example =
    make_wacz-Describes wacz_lib contents zip_laws (codes "https://ex.com") (codes "{}") [] [] warc

abbrev zeros : ℕ → Bytes
zeros zero = []
zeros (suc n) = 0 ∷ zeros n

length-zeros : (n : ℕ) → length (zeros n) ≡ n
length-zeros zero = refl
length-zeros (suc n) = omega (arith, length-zeros n)

-- The first bytes, filled up with zeros.
abbrev first_bytes : Bytes → Bytes
first_bytes s = take 32 (s ++ zeros 32)

length-first_bytes : (s : Bytes) → length (first_bytes s) ≡ 32
length-first_bytes s =
    omega (arith, length-take 32 (s ++ zeros 32), length-append s (zeros 32), length-zeros 32)

sha : Sha256Lib first_bytes
sha = record { length_lem = length-first_bytes }

compute_content_sha256-Permᴰ_example :
    (Permᴰ (contents_of decimal capture) (contents_of decimal recapture)
      → compute_content_sha256 first_bytes decimal capture
        ≡ compute_content_sha256 first_bytes decimal recapture)
    × (compute_content_sha256 first_bytes decimal capture
          ≡ compute_content_sha256 first_bytes decimal recapture
        → Permᴰ (contents_of decimal capture) (contents_of decimal recapture)
          ⊎ Collision first_bytes
              (hashed_texts first_bytes sha decimal capture)
              (hashed_texts first_bytes sha decimal recapture))
compute_content_sha256-Permᴰ_example =
    compute_content_sha256-Permᴰ first_bytes sha decimal capture recapture
