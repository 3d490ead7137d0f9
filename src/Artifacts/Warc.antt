-- ===== src/Artifacts/Warc.antt =====
-- `MakeWarc` of webshotd/src/crawler/artifacts.cpp: the records of an archive, each a gzip member of
-- its own, and the index that says where they are.
pub mod Located
use webshot.Base.{
  ℕ, suc, ◌+◌, null, if◌then◌else◌, List, [], ◌∷◌, ◌++◌, map, keep, length, Option, none, some,
  Expected, ok, err, ◌>>=◌,
}
use webshot.Base.Bytes.{Bytes, codes}
use webshot.Base.Outcome
use webshot.Base.Outcome.{Outcome, returns, aborts}
use webshot.Crawl.Fallback.{ℤ, pos}
use webshot.Artifacts.{
  Headers, ArtifactError, gzip_failed, CapturedExchange, SerializableResponse,
  normalize_response_headers, content_type_for_headers, page_timestamp,
  collect_serializable_responses,
}

-- An entry of `urls`, the text of a URL with what is said of it.
pub record UrlEntry : Type 0 where
  pub url : Bytes
  pub status : ℤ
  pub mime : Option Bytes
  pub type : Option Bytes

-- The JSON object of a page.
pub record PageInfo : Type 0 where
  pub pageid : Bytes
  pub url : Bytes
  pub ts : Bytes
  pub urls : List UrlEntry

-- gzip, SHA-256, the JSON writer, the uuids in the order in which they are drawn, the URL parser with
-- the path and the host of a URL, and the texts of numbers and times, and of status codes, where
-- `NumericCast` to the framework's type of them is possible.
pub record ArchiveLib : Type 0 where
  pub gzip_compress_member : Bytes → Expected Bytes Bytes
  pub sha256_hex : Bytes → Bytes
  pub page_info_json : PageInfo → Bytes
  pub uuid : ℕ → Bytes
  pub target_and_host : Bytes → Option (Bytes × Bytes)
  pub format : ℤ → Bytes
  pub status_code_string : ℤ → Option Bytes
  pub cdx_timestamp : Bytes → Bytes

pub record WarcCdxRecord : Type 0 where
  pub record_url : Bytes
  pub timestamp : Bytes
  pub digest : Bytes
  pub record_digest : Bytes
  pub status_code : ℤ
  pub headers : Headers
  pub offset : ℕ
  pub length : ℕ

pub record WarcBuildOutput : Type 0 where
  pub bytes : Bytes
  pub cdx_records : List WarcCdxRecord

abbrev pub crlf : Bytes
crlf = 13 ∷ 10 ∷ []

abbrev pub field : Bytes → Bytes → Bytes
field name value = name ++ (codes ": " ++ (value ++ crlf))

abbrev pub header_lines : Headers → Bytes
header_lines [] = []
header_lines (h ∷ hs) = field h.0 h.1 ++ header_lines hs

-- `seed_url`, or `final_url` where it is empty.
abbrev pub page_url : CapturedExchange → Bytes
page_url exchange = if null exchange.seed_url then exchange.final_url else exchange.seed_url

abbrev pub nonempty : Bytes → Option Bytes
nonempty s = if null s then none else some s

unfoldable pub url_entry : Bytes → ℤ → Headers → Option Bytes → UrlEntry
url_entry url status headers resource_type = record {
  url = url;
  status = status;
  mime = nonempty (content_type_for_headers headers);
  type = elim resource_type [ none ↦ none | some t ↦ nonempty t ];
}

unfoldable pub make_page_info : CapturedExchange → PageInfo
make_page_info exchange = record {
  pageid = exchange.page_id;
  url = page_url exchange;
  ts = page_timestamp exchange;
  urls =
      map (λ r. url_entry r.redirect_url r.status_code r.headers (some (codes "Document")))
        exchange.main_document_redirects
      ++ url_entry exchange.final_url exchange.status_code exchange.headers
          (some (codes "Document"))
        ∷ map (λ r. url_entry r.resource_url r.status_code r.headers r.resource_type)
            exchange.resources;
}

module _ (lib : ArchiveLib) where
  unfoldable pub gzip_member : Bytes → Expected Bytes ArtifactError
  gzip_member body = elim (lib.gzip_compress_member body) [
    | ok bytes ↦ ok bytes
    | err detail ↦ err (record { code = gzip_failed; detail = detail })
  ]

  abbrev pub sized : ℕ → Bytes
  sized n = field (codes "Content-Length") (lib.format (pos n))

  abbrev pub page_field : Bytes → Bytes
  page_field page_id = if null page_id then [] else field (codes "WARC-Page-ID") page_id

  abbrev pub type_field : Option Bytes → Bytes
  type_field none = []
  type_field (some t) = field (codes "WARC-Resource-Type") t

  -- `<urn:uuid:…>`, the n-th that is drawn.
  abbrev pub record_id : ℕ → Bytes
  record_id n = codes "<urn:uuid:" ++ (lib.uuid n ++ codes ">")

  abbrev pub status_text : SerializableResponse → Option Bytes
  status_text response =
      if null response.status_message
      then lib.status_code_string response.status_code
      else some response.status_message

  unfoldable pub http_response_head : Bytes → SerializableResponse → Bytes
  http_response_head status response =
      codes "HTTP/1.1 "
      ++ (lib.format response.status_code
          ++ (32
              ∷ (status
                  ++ (crlf
                      ++ (header_lines (normalize_response_headers response.headers) ++ crlf)))))

  -- The first text of `SerializeRecordPair`, with the uuid `n` and the text of the status.
  unfoldable pub response_record : ℕ → Bytes → SerializableResponse → Bytes
  response_record n status response =
      let head = http_response_head status response in
      codes "WARC/1.1"
      ++ (crlf
          ++ (field (codes "WARC-Type") (codes "response")
              ++ (field (codes "WARC-Target-URI") response.response_url
                  ++ (field (codes "WARC-Date") response.timestamp
                      ++ (field (codes "WARC-Record-ID") (record_id n)
                          ++ (page_field response.page_id
                              ++ (type_field response.resource_type
                                  ++ (field (codes "Content-Type")
                                        (codes "application/http; msgtype=response")
                                      ++ (sized (length head + length response.body)
                                          ++ (crlf
                                              ++ (head
                                                  ++ (response.body ++ (crlf ++ crlf)))))))))))))

  abbrev pub target_of : Option (Bytes × Bytes) → Bytes × Bytes
  target_of none = (codes "/", [])
  target_of (some p) = p

  unfoldable pub request_payload : SerializableResponse → Bytes
  request_payload response =
      let target = target_of (lib.target_and_host response.response_url) in
      (if null response.method then codes "GET" else response.method)
      ++ (32
          ∷ (target.0
              ++ (codes " HTTP/1.1"
                  ++ (crlf
                      ++ (field (codes "Host") target.1
                          ++ (field (codes "User-Agent") (codes "webshotd") ++ crlf))))))

  -- The second text of `SerializeRecordPair`, with the uuid `n` for the response and the next one.
  unfoldable pub request_record : ℕ → SerializableResponse → Bytes
  request_record n response =
      let payload = request_payload response in
      codes "WARC/1.1"
      ++ (crlf
          ++ (field (codes "WARC-Type") (codes "request")
              ++ (field (codes "WARC-Target-URI") response.response_url
                  ++ (field (codes "WARC-Date") response.timestamp
                      ++ (field (codes "WARC-Record-ID") (record_id (n + 1))
                          ++ (field (codes "WARC-Concurrent-To") (record_id n)
                              ++ (page_field response.page_id
                                  ++ (type_field response.resource_type
                                      ++ (field (codes "Content-Type")
                                            (codes "application/http; msgtype=request")
                                          ++ (sized (length payload)
                                              ++ (crlf ++ (payload ++ crlf))))))))))))

  -- `SerializePageInfoRecord`, with the uuid `n`.
  unfoldable pub serialize_page_info_record : ℕ → CapturedExchange → Bytes
  serialize_page_info_record n exchange =
      let payload = lib.page_info_json (make_page_info exchange) in
      codes "WARC/1.1"
      ++ (crlf
          ++ (field (codes "WARC-Type") (codes "resource")
              ++ (field (codes "WARC-Target-URI") (codes "urn:pageinfo:" ++ page_url exchange)
                  ++ (field (codes "WARC-Date") (page_timestamp exchange)
                      ++ (field (codes "WARC-Record-ID") (record_id n)
                          ++ (field (codes "WARC-Page-ID") exchange.page_id
                              ++ (field (codes "WARC-Resource-Type") (codes "pageinfo")
                                  ++ (field (codes "Content-Type") (codes "application/json")
                                      ++ (sized (length payload)
                                          ++ (crlf ++ (payload ++ (crlf ++ crlf))))))))))))

  unfoldable pub cdx_payload_digest : Bytes → Bytes
  cdx_payload_digest payload = codes "sha-256:" ++ lib.sha256_hex payload

  unfoldable pub cdx_record_digest : Bytes → Bytes
  cdx_record_digest record_bytes = codes "sha256:" ++ lib.sha256_hex record_bytes

  abbrev pub response_cdx : SerializableResponse → Bytes → ℕ → WarcCdxRecord
  response_cdx response response_gz offset = record {
    record_url = response.response_url;
    timestamp = lib.cdx_timestamp response.timestamp;
    digest = cdx_payload_digest response.body;
    record_digest = cdx_record_digest response_gz;
    status_code = response.status_code;
    headers = response.headers;
    offset = offset;
    length = length response_gz;
  }

  abbrev pub page_info_cdx : CapturedExchange → Bytes → ℕ → WarcCdxRecord
  page_info_cdx exchange page_info_gz offset = record {
    record_url = codes "urn:pageinfo:" ++ page_url exchange;
    timestamp = lib.cdx_timestamp (page_timestamp exchange);
    digest = cdx_payload_digest (lib.page_info_json (make_page_info exchange));
    record_digest = cdx_record_digest page_info_gz;
    status_code = pos 200;
    headers = (codes "content-type", codes "application/json") ∷ [];
    offset = offset;
    length = length page_info_gz;
  }

  -- What the loop over the responses carries: the output, `offset`, and how many uuids are drawn.
  pub record Progress : Type 0 where
    pub out : WarcBuildOutput
    pub offset : ℕ
    pub drawn : ℕ

  abbrev pub append_pair : SerializableResponse → Bytes → Bytes → Progress → Progress
  append_pair response response_gz request_gz p = record {
    out = record {
      bytes = (p.out.bytes ++ response_gz) ++ request_gz;
      cdx_records = p.out.cdx_records ++ response_cdx response response_gz p.offset ∷ [];
    };
    offset = p.offset + (length response_gz + length request_gz);
    drawn = p.drawn + 2;
  }

  -- A round of the loop, with the text of the status; `NumericCast` aborts the process.
  unfoldable pub write_pair :
      Option Bytes → SerializableResponse → Progress → Outcome (Expected Progress ArtifactError)
  write_pair none response p = aborts (codes "safe integer error: enum underlying overflow")
  write_pair (some status) response p = returns (do
    response_gz ← gzip_member (response_record p.drawn status response)
    request_gz ← gzip_member (request_record p.drawn response)
    ok (append_pair response response_gz request_gz p))

  -- `TRY` in a function that may abort.
  abbrev pub try_then {ℓ κ} :
      {A : Type ℓ} {B : Type κ}
      → Expected A ArtifactError
      → (A → Outcome (Expected B ArtifactError))
      → Outcome (Expected B ArtifactError)
  try_then (err e) k = returns (err e)
  try_then (ok a) k = k a

  unfoldable pub write_responses :
      List SerializableResponse → Progress → Outcome (Expected Progress ArtifactError)
  write_responses [] p = returns (ok p)
  write_responses (r ∷ rs) p =
      Outcome.◌>>=◌ (write_pair (status_text r) r p) (λ o. try_then o (λ q. write_responses rs q))

  abbrev pub finish : CapturedExchange → Progress → Bytes → WarcBuildOutput
  finish exchange p page_info_gz = record {
    bytes = p.out.bytes ++ page_info_gz;
    cdx_records = p.out.cdx_records ++ page_info_cdx exchange page_info_gz p.offset ∷ [];
  }

  abbrev pub empty : Progress
  empty = record { out = record { bytes = []; cdx_records = [] }; offset = 0; drawn = 0 }

  unfoldable pub make_warc :
      (List SerializableResponse → List SerializableResponse)
      → CapturedExchange
      → Outcome (Expected WarcBuildOutput ArtifactError)
  make_warc sort_by_timestamp exchange =
      Outcome.◌>>=◌
        (write_responses (collect_serializable_responses sort_by_timestamp exchange) empty)
        (λ o. try_then o (λ p. returns (do
          page_info_gz ← gzip_member (serialize_page_info_record p.drawn exchange)
          ok (finish exchange p page_info_gz))))
