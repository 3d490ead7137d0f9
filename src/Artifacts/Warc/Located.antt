-- ===== src/Artifacts/Warc/Located.antt =====
-- The index of an archive locates its records.
use mathlib.Core.List.{append_assoc, append-nil}
use webshot.Base.{
  ℕ, none, some, true, null, map, Bool-cases, Option-cases, ◌+◌, ◌≡◌, refl, sym, ap, ◌∙◌, ◌⊎◌, inl,
  inr, List, [], ◌∷◌, ◌++◌, take, drop, length, length-append, take-append, drop-append,
  Expected-cases, ok, err, arith,
}
use webshot.Base.Bytes.{Bytes, codes}
use webshot.Base.Outcome.{returns, aborts}
use webshot.Crawl.Fallback.{pos}
use webshot.Artifacts.{
  ArtifactError, gzip_failed, CapturedExchange, SerializableResponse,
  collect_serializable_responses, make_redirect_response, make_main_document_response,
  make_resource_response, page_timestamp,
}
use webshot.Artifacts.Warc.{
  ArchiveLib, WarcCdxRecord, WarcBuildOutput, Progress, gzip_member, response_record,
  request_record, serialize_page_info_record, response_cdx, page_info_cdx, append_pair, write_pair,
  write_responses, status_text, page_url, make_page_info, cdx_payload_digest, cdx_record_digest,
  finish, empty, make_warc,
}

-- A record of the index cuts these bytes out.
abbrev pub Locates : Bytes → WarcCdxRecord → Bytes → Type 0
Locates bytes c gz = take c.length (drop c.offset bytes) ≡ gz

-- One response for each redirect, for the main document and for each resource, each with its URL, its
-- method, status, headers, body and time.
abbrev pub IsCollection : CapturedExchange → List SerializableResponse → Type 0
IsCollection x rs =
    (map (λ (r : SerializableResponse). r.response_url) rs
      ≡ map (λ r. r.redirect_url) x.main_document_redirects
        ++ x.final_url ∷ map (λ r. r.resource_url) x.resources)
    × (map (λ (r : SerializableResponse). r.method) rs
        ≡ map (λ r. codes "GET") x.main_document_redirects
          ++ codes "GET" ∷ map (λ r. r.method) x.resources)
    × (map (λ (r : SerializableResponse). r.status_code) rs
        ≡ map (λ r. r.status_code) x.main_document_redirects
          ++ x.status_code ∷ map (λ r. r.status_code) x.resources)
    × (map (λ (r : SerializableResponse). r.headers) rs
        ≡ map (λ r. r.headers) x.main_document_redirects
          ++ x.headers ∷ map (λ r. r.headers) x.resources)
    × (map (λ (r : SerializableResponse). r.body) rs
        ≡ map (λ r. []) x.main_document_redirects ++ x.body ∷ map (λ r. r.body) x.resources)
    × (map (λ (r : SerializableResponse). r.timestamp) rs
        ≡ map (λ r. r.timestamp) x.main_document_redirects
          ++ x.timestamp ∷ map (λ r. r.timestamp) x.resources)

map-parts {ℓ κ μ ν} :
    {A : Type ℓ} {B : Type κ} {C : Type μ} {D : Type ν} (f : C → D) (g : A → C) (h : B → C)
    (xs : List A) (c : C) (ys : List B)
    → map f (map g xs ++ c ∷ map h ys) ≡ map (λ a. f (g a)) xs ++ f c ∷ map (λ b. f (h b)) ys
map-parts f g h [] c ys = ap (◌∷◌ (f c)) (go ys)
  where
    go : (ys : List _) → map f (map h ys) ≡ map (λ b. f (h b)) ys
    go [] = refl
    go (y ∷ ys) = ap (◌∷◌ (f (h y))) (go ys)
map-parts f g h (x ∷ xs) c ys = ap (◌∷◌ (f (g x))) (map-parts f g h xs c ys)

collected_responses :
    (sort_by_timestamp : List SerializableResponse → List SerializableResponse)
    (x : CapturedExchange)
    → (rs : List SerializableResponse) × (collect_serializable_responses sort_by_timestamp x
        ≡ sort_by_timestamp rs)
      × IsCollection x rs
unfolding collect_serializable_responses make_redirect_response make_main_document_response
    make_resource_response
collected_responses sort_by_timestamp x = (
  _,
  refl,
  (
    map-parts _ _ _ x.main_document_redirects _ x.resources,
    map-parts _ _ _ x.main_document_redirects _ x.resources,
    map-parts _ _ _ x.main_document_redirects _ x.resources,
    map-parts _ _ _ x.main_document_redirects _ x.resources,
    map-parts _ _ _ x.main_document_redirects _ x.resources,
    map-parts _ _ _ x.main_document_redirects _ x.resources,
  ),
)

module _ (lib : ArchiveLib) where
  -- What a record of the index says of a response and of the gzip member of its record.
  abbrev pub IsEntry : SerializableResponse → Bytes → WarcCdxRecord → Type 0
  IsEntry r gz c =
      (c.record_url ≡ r.response_url)
      × (c.timestamp ≡ lib.cdx_timestamp r.timestamp)
      × (c.digest ≡ codes "sha-256:" ++ lib.sha256_hex r.body)
      × (c.record_digest ≡ codes "sha256:" ++ lib.sha256_hex gz)
      × (c.status_code ≡ r.status_code)
      × (c.headers ≡ r.headers)
      × (c.length ≡ length gz)

  response_cdx-IsEntry :
      (r : SerializableResponse) (gz : Bytes) (offset : ℕ)
      → IsEntry r gz (response_cdx lib r gz offset)
  unfolding cdx_payload_digest cdx_record_digest
  response_cdx-IsEntry r gz offset = (refl, refl, refl, refl, refl, refl, refl)

  -- Each response has its record in the index, in order: it describes the response, and cuts out the
  -- gzip member of its response record. Two uuids are drawn for each response.
  abbrev pub Indexed : Bytes → ℕ → List SerializableResponse → List WarcCdxRecord → Type 0
  Indexed bytes n [] [] = Unit
  Indexed bytes n (r ∷ rs) (c ∷ cs) =
      ((gz : Bytes) × (status : Bytes) × (status_text lib r ≡ some status)
        × (gzip_member lib (response_record lib n status r) ≡ ok gz)
        × IsEntry r gz c
        × Locates bytes c gz)
      × Indexed bytes (n + 2) rs cs
  Indexed bytes n [] (c ∷ cs) = ⊥
  Indexed bytes n (r ∷ rs) [] = ⊥

  -- gzip failed on some text, with this error.
  abbrev pub IsGzipError : ArtifactError → Type 0
  IsGzipError e =
      (text : Bytes) × (detail : Bytes) × (lib.gzip_compress_member text ≡ err detail)
      × (e ≡ record { code = gzip_failed; detail = detail })

  gzip_member-cases :
      (text : Bytes)
      → ((gz : Bytes) × (gzip_member lib text ≡ ok gz))
        ⊎ ((e : ArtifactError) × (gzip_member lib text ≡ err e) × IsGzipError e)
  unfolding gzip_member
  gzip_member-cases text = elim (Expected-cases (lib.gzip_compress_member text)) [
    | inl (gz, h) ↦ inl (gz, rw (gzip_member, h) refl)
    | inr (d, h) ↦
        inr
          (record { code = gzip_failed; detail = d }, rw (gzip_member, h) refl, (text, d, h, refl))
  ]

  -- What the loop has done between two states.
  abbrev Wrote : List SerializableResponse → Progress lib → Progress lib → Type 0
  Wrote rs p q =
      (q.offset ≡ length q.out.bytes)
      × ((tail : Bytes) × (q.out.bytes ≡ p.out.bytes ++ tail))
      × ((cs : List WarcCdxRecord) × (q.out.cdx_records ≡ p.out.cdx_records ++ cs)
          × ((suffix : Bytes) → Indexed (q.out.bytes ++ suffix) p.drawn rs cs))

  -- One of the responses has a status that has to be written out, and has no text.
  abbrev pub LacksText : List SerializableResponse → Type 0
  LacksText [] = ⊥
  LacksText (r ∷ rs) =
      ((null r.status_message ≡ true) × (lib.status_code_string r.status_code ≡ none))
      ⊎ LacksText rs

  abbrev Loop : List SerializableResponse → Progress lib → Type 0
  Loop rs p =
      ((q : Progress lib) × (write_responses lib rs p ≡ returns (ok q)) × Wrote rs p q)
      ⊎ ((e : ArtifactError) × (write_responses lib rs p ≡ returns (err e)) × IsGzipError e)
      ⊎ ((why : Bytes) × (write_responses lib rs p ≡ aborts why) × LacksText rs)

  cut_out :
      (before gz after : Bytes) (n k : ℕ)
      → n ≡ length before
      → k ≡ length gz
      → take k (drop n (before ++ (gz ++ after))) ≡ gz
  cut_out before gz after n k h l =
      ap (take k) (drop-append n before (gz ++ after) h) ∙ take-append k gz after l

  regroup :
      (a b c tail suffix : Bytes)
      → ((((a ++ b) ++ c) ++ tail) ++ suffix) ≡ a ++ (b ++ (c ++ (tail ++ suffix)))
  regroup a b c tail suffix = simp append_assoc

  extend :
      (r : SerializableResponse) (rs : List SerializableResponse) (p q : Progress lib)
      (a b status : Bytes)
      → status_text lib r ≡ some status
      → p.offset ≡ length p.out.bytes
      → gzip_member lib (response_record lib p.drawn status r) ≡ ok a
      → Wrote rs (append_pair lib r a b p) q
      → Wrote (r ∷ rs) p q
  extend r rs p q a b status w at h (here, (tail, t), (cs, c, x)) = (
    here,
    (a ++ (b ++ tail), t ∙ simp append_assoc),
    (
      response_cdx lib r a p.offset ∷ cs,
      c ∙ append_assoc p.out.cdx_records (response_cdx lib r a p.offset ∷ []) cs,
      λ suffix. (
        (
          a,
          status,
          w,
          h,
          response_cdx-IsEntry r a p.offset,
          ap (λ s. take (length a) (drop p.offset (s ++ suffix))) t
              ∙ ap (λ s. take (length a) (drop p.offset s)) (regroup p.out.bytes a b tail suffix)
              ∙ cut_out p.out.bytes a (b ++ (tail ++ suffix)) p.offset (length a) at refl,
        ),
        x suffix,
      ),
    ),
  )

  step :
      (r : SerializableResponse) (p : Progress lib) (status : Bytes)
      → ((a : Bytes) × (b : Bytes) × (gzip_member lib (response_record lib p.drawn status r) ≡ ok a)
          × (write_pair lib (some status) r p ≡ returns (ok (append_pair lib r a b p))))
        ⊎ ((e : ArtifactError) × (write_pair lib (some status) r p ≡ returns (err e))
            × IsGzipError e)
  unfolding write_pair
  step r p status = elim (gzip_member-cases (response_record lib p.drawn status r)) [
    | inr (e, h, f) ↦ inr (e, rw h refl, f)
    | inl (a, h) ↦ elim (gzip_member-cases (request_record lib p.drawn r)) [
      | inr (e, k, f) ↦ inr (e, rw (h, k) refl, f)
      | inl (b, k) ↦ inl (a, b, h, rw (h, k) refl)
    ]
  ]

  lacks :
      (r : SerializableResponse)
      → status_text lib r ≡ none
      → (null r.status_message ≡ true) × (lib.status_code_string r.status_code ≡ none)
  lacks r h = elim (Bool-cases (null r.status_message)) [
    | inl e ↦ (e, rw e at h)
    | inr e ↦ absurd (let x : some r.status_message ≡ none = rw e at h in cc)
  ]

  write_responses-Loop :
      (rs : List SerializableResponse) (p : Progress lib)
      → p.offset ≡ length p.out.bytes
      → Loop rs p
  unfolding write_responses
  write_responses-Loop [] p at = inl (
    p,
    refl,
    (
      at,
      ([], sym (append-nil p.out.bytes)),
      ([], sym (append-nil p.out.cdx_records), λ suffix. tt),
    ),
  )
  write_responses-Loop (r ∷ rs) p at = elim (Option-cases (status_text lib r)) [
    | inl e ↦ inr (
        inr (
          codes "safe integer error: enum underlying overflow",
          rw e (unfold write_pair in refl),
          inl (lacks r e),
        ))
    | inr (status, w) ↦ elim (step r p status) [
      | inr (e, h, f) ↦ inr (inl (e, rw (w, h) refl, f))
      | inl (a, b, h, k) ↦
          elim (write_responses-Loop rs (append_pair lib r a b p)
            (omega (arith, at, length-append p.out.bytes a, length-append (p.out.bytes ++ a) b))) [
              | inr (inl (e, l, f)) ↦ inr (inl (e, rw (w, k, l) refl, f))
              | inr (inr (why, l, f)) ↦ inr (inr (why, rw (w, k, l) refl, inr f))
              | inl (q, l, x) ↦ inl (q, rw (w, k, l) refl, extend r rs p q a b status w at h x)
            ]
    ]
  ]

  -- What the last record says of the page.
  abbrev pub IsPageEntry : CapturedExchange → Bytes → WarcCdxRecord → Type 0
  IsPageEntry exchange gz c =
      (c.record_url ≡ codes "urn:pageinfo:" ++ page_url exchange)
      × (c.timestamp ≡ lib.cdx_timestamp (page_timestamp exchange))
      × (c.digest
          ≡ codes "sha-256:" ++ lib.sha256_hex (lib.page_info_json (make_page_info exchange)))
      × (c.record_digest ≡ codes "sha256:" ++ lib.sha256_hex gz)
      × (c.status_code ≡ pos 200)
      × (c.headers ≡ (codes "content-type", codes "application/json") ∷ [])
      × (c.length ≡ length gz)

  page_info_cdx-IsPageEntry :
      (exchange : CapturedExchange) (gz : Bytes) (offset : ℕ)
      → IsPageEntry exchange gz (page_info_cdx lib exchange gz offset)
  unfolding cdx_payload_digest cdx_record_digest
  page_info_cdx-IsPageEntry exchange gz offset = (refl, refl, refl, refl, refl, refl, refl)

  -- The last record of the index, with the gzip member that it cuts out.
  abbrev pub EndsWithPageInfo : CapturedExchange → WarcBuildOutput → ℕ → List WarcCdxRecord → Type 0
  EndsWithPageInfo exchange out n cs =
      (c : WarcCdxRecord) × (gz : Bytes) × (out.cdx_records ≡ cs ++ c ∷ [])
      × (gzip_member lib (serialize_page_info_record lib n exchange) ≡ ok gz)
      × IsPageEntry exchange gz c
      × Locates out.bytes c gz

  ended :
      (exchange : CapturedExchange) (rs : List SerializableResponse) (q : Progress lib) (gz : Bytes)
      → gzip_member lib (serialize_page_info_record lib q.drawn exchange) ≡ ok gz
      → Wrote rs (empty lib) q
      → (cs : List WarcCdxRecord) × Indexed (finish lib exchange q gz).bytes 0 rs cs
        × EndsWithPageInfo exchange (finish lib exchange q gz) q.drawn cs
  ended exchange rs q gz h (here, _, (cs, c, x)) = (
    cs,
    x gz,
    (
      page_info_cdx lib exchange gz q.offset,
      gz,
      ap (λ l. l ++ page_info_cdx lib exchange gz q.offset ∷ []) c,
      h,
      page_info_cdx-IsPageEntry exchange gz q.offset,
      ap (λ s. take (length gz) (drop q.offset (q.out.bytes ++ s))) (sym (append-nil gz))
          ∙ cut_out q.out.bytes gz [] q.offset (length gz) here refl,
    ),
  )

  -- The process is aborted, where the status of a response has no text; or gzip fails on some text and
  -- its error is returned; or the archive is made, from the responses of the redirects, of the main
  -- document and of the resources, sorted. Its index has a record for each response, in order, and a
  -- last one for the page; each gives the URL, the time, the status, the headers and the hashes of what
  -- it stands for, and cuts the gzip member of its WARC record out of the archive.
  pub make_warc-Indexed :
      (sort_by_timestamp : List SerializableResponse → List SerializableResponse)
      (exchange : CapturedExchange)
      → (rs : List SerializableResponse) × IsCollection exchange rs
        × (((why : Bytes) × (make_warc lib sort_by_timestamp exchange ≡ aborts why)
              × LacksText (sort_by_timestamp rs))
            ⊎ ((e : ArtifactError) × (make_warc lib sort_by_timestamp exchange ≡ returns (err e))
                × IsGzipError e)
            ⊎ ((out : WarcBuildOutput) × (make_warc lib sort_by_timestamp exchange
                  ≡ returns (ok out))
                × ((n : ℕ) × (cs : List WarcCdxRecord) × Indexed out.bytes 0
                      (sort_by_timestamp rs)
                      cs
                    × EndsWithPageInfo exchange out n cs)))
  unfolding make_warc
  make_warc-Indexed sort_by_timestamp exchange =
      let (rs, collected, c) = collected_responses sort_by_timestamp exchange in
      (
        rs,
        c,
        elim (write_responses-Loop (sort_by_timestamp rs) (empty lib) refl) [
          | inr (inl (e, h, f)) ↦ inr (inl (e, rw (collected, h) refl, f))
          | inr (inr (why, h, f)) ↦ inl (why, rw (collected, h) refl, f)
          | inl (q, h, w) ↦
              elim (gzip_member-cases (serialize_page_info_record lib q.drawn exchange)) [
                | inr (e, k, f) ↦ inr (inl (e, rw (collected, h, k) refl, f))
                | inl (gz, k) ↦
                    let (cs, x, last) = ended exchange (sort_by_timestamp rs) q gz k w in
                    inr (
                      inr (
                        finish lib exchange q gz,
                        rw (collected, h, k) refl,
                        (q.drawn, cs, x, last),
                      ))
              ]
        ],
      )
