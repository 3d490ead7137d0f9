-- ===== src/Artifacts/Wacz.antt =====
-- `MakeWacz` of webshotd/src/crawler/artifacts.cpp: the index and the description of an archive, and
-- the zip file that holds them.
pub mod Packed
use webshot.Base.{
  ℕ, Bool, true, false, if◌then◌else◌, List, [], ◌∷◌, ◌++◌, map, length, Option, none, some,
  Expected, ok, err, ◌>>=◌,
}
use webshot.Base.Bytes.{Bytes, codes}
use webshot.Crawl.Fallback.{ℤ}
use webshot.Artifacts.{ArtifactError, zip_failed, content_type_for_headers}
use webshot.Artifacts.Warc.{WarcCdxRecord, WarcBuildOutput}

-- The JSON of a line of the index.
pub record IndexEntry : Type 0 where
  pub url : Bytes
  pub digest : Bytes
  pub mime : Bytes
  pub filename : Bytes
  pub offset : ℕ
  pub length : ℕ
  pub status : ℤ
  pub record_digest : Bytes

pub record CdxLine : Type 0 where
  pub key : Bytes
  pub timestamp : Bytes
  pub json : Bytes

pub record WaczResource : Type 0 where
  pub name : Bytes
  pub path : Bytes
  pub hash : Bytes
  pub bytes : ℕ

pub record WaczDataPackage : Type 0 where
  pub profile : Bytes
  pub resources : List WaczResource
  pub wacz_version : Bytes
  pub title : Bytes
  pub software : Bytes
  pub created : ℕ
  pub modified : ℕ

-- The JSON writer, SHA-256, the URL parser (whether a URL is of HTTP or HTTPS, and its `Surt`), the order of the lines (`std::ranges::sort` by
-- key and timestamp, which leaves open how equal ones stand), the service's clock, and the builder of
-- zip files.
pub record WaczLib (Zip : Type 0) : Type 0 where
  pub index_json : IndexEntry → Bytes
  pub pages_header : Bytes
  pub package_json : WaczDataPackage → Bytes
  pub sha256_hex : Bytes → Bytes
  pub url_from_text : Bytes → Option (Bool × Bytes)
  pub sort_lines : List CdxLine → List CdxLine
  pub now : ℕ
  pub empty_zip : Zip
  pub add_stored_file : Zip → Bytes → Bytes → Expected Zip Bytes
  pub finish : Zip → Expected Bytes Bytes

abbrev pub warc_path : Bytes
warc_path = codes "archive/data.warc.gz"

abbrev pub warc_filename : Bytes
warc_filename = codes "data.warc.gz"

abbrev pub index_path : Bytes
index_path = codes "indexes/index.cdx"

abbrev pub pages_path : Bytes
pages_path = codes "pages/pages.jsonl"

module _ {Zip : Type 0} (lib : WaczLib Zip) where
  unfoldable pub make_wacz_index_json_bytes : WarcCdxRecord → Bytes
  make_wacz_index_json_bytes c = lib.index_json (record {
    url = c.record_url;
    digest = c.digest;
    mime = content_type_for_headers c.headers;
    filename = warc_filename;
    offset = c.offset;
    length = c.length;
    status = c.status_code;
    record_digest = c.record_digest;
  })

  unfoldable pub to_surt_key : Bytes → Bytes
  to_surt_key url_text = elim (lib.url_from_text url_text) [
    | none ↦ url_text
    | some url ↦ if url.0 then url.1 else url_text
  ]

  unfoldable pub cdx_line : WarcCdxRecord → CdxLine
  cdx_line c = record {
    key = to_surt_key c.record_url;
    timestamp = c.timestamp;
    json = make_wacz_index_json_bytes c;
  }

  abbrev pub line_text : CdxLine → Bytes
  line_text l = l.key ++ (32 ∷ (l.timestamp ++ (32 ∷ (l.json ++ 10 ∷ []))))

  abbrev pub lines_text : List CdxLine → Bytes
  lines_text [] = []
  lines_text (l ∷ ls) = line_text l ++ lines_text ls

  unfoldable pub make_cdx : List WarcCdxRecord → Bytes
  make_cdx records = lines_text (lib.sort_lines (map cdx_line records))

  unfoldable pub make_wacz_pages_bytes : Bytes → Bytes
  make_wacz_pages_bytes pages_jsonl = lib.pages_header ++ 10 ∷ pages_jsonl

  unfoldable pub make_wacz_resource : Bytes → Bytes → Bytes → WaczResource
  make_wacz_resource name path body = record {
    name = name;
    path = path;
    hash = codes "sha256:" ++ lib.sha256_hex body;
    bytes = length body;
  }

  unfoldable pub make_wacz_resources : Bytes → Bytes → Bytes → List WaczResource
  make_wacz_resources warc_bytes pages_bytes cdx_bytes =
      make_wacz_resource (codes "pages.jsonl") pages_path pages_bytes
      ∷ make_wacz_resource warc_filename warc_path warc_bytes
      ∷ make_wacz_resource (codes "index.cdx") index_path cdx_bytes
      ∷ []

  unfoldable pub make_wacz_data_package : Bytes → List WaczResource → WaczDataPackage
  make_wacz_data_package seed_url resources = record {
    profile = codes "data-package";
    resources = resources;
    wacz_version = codes "1.1.1";
    title = seed_url;
    software = codes "webshotd";
    created = lib.now;
    modified = lib.now;
  }

  abbrev pub zip_error : Bytes → ArtifactError
  zip_error detail = record { code = zip_failed; detail = detail }

  unfoldable pub add_file : Zip → Bytes × Bytes → Expected Zip ArtifactError
  add_file zip file = elim (lib.add_stored_file zip file.0 file.1) [
    | ok z ↦ ok z
    | err detail ↦ err (zip_error detail)
  ]

  -- The calls of `add_file`, one after another.
  unfoldable pub add_files : Zip → List (Bytes × Bytes) → Expected Zip ArtifactError
  add_files zip [] = ok zip
  add_files zip (f ∷ fs) = do z ← add_file zip f; add_files z fs

  unfoldable pub finish_zip : Zip → Expected Bytes ArtifactError
  finish_zip zip = elim (lib.finish zip) [
    | ok bytes ↦ ok bytes
    | err detail ↦ err (zip_error detail)
  ]

  unfoldable pub wacz_files : Bytes → Bytes → WarcBuildOutput → Bytes → Bytes → List (Bytes × Bytes)
  wacz_files seed_url pages_jsonl warc stdout_log stderr_log =
      let cdx = make_cdx warc.cdx_records in
      let wacz_pages = make_wacz_pages_bytes pages_jsonl in
      let resources = make_wacz_resources warc.bytes wacz_pages cdx in
      (codes "datapackage.json", lib.package_json (make_wacz_data_package seed_url resources))
      ∷ (warc_path, warc.bytes)
      ∷ (pages_path, wacz_pages)
      ∷ (codes "logs/stdout.log", stdout_log)
      ∷ (codes "logs/stderr.log", stderr_log)
      ∷ (index_path, cdx)
      ∷ []

  unfoldable pub make_wacz :
      Bytes → Bytes → WarcBuildOutput → Bytes → Bytes → Expected Bytes ArtifactError
  make_wacz seed_url pages_jsonl warc stdout_log stderr_log = do
    zip ← add_files lib.empty_zip (wacz_files seed_url pages_jsonl warc stdout_log stderr_log)
    finish_zip zip
