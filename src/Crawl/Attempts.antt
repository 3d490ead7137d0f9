-- ===== src/Crawl/Attempts.antt =====
-- Which seeds a crawl submits, and how it ends.
use mathlib.Core.Path.{◌∙◌}
use webshot.Base.{
  ◌≡◌, refl, Bool, true, false, Bool-cases, List, [], ◌∷◌, ◌++◌, Option, none, some, length, ok,
  err, ◌⊎◌, inl, inr,
}
use webshot.Base.Bytes.{Bytes, codes}
use webshot.Base.Outcome.{returns}
use webshot.Crawl.Fallback.{CrawlerError, should_retry_with_http}
use webshot.Crawl.{
  CrawlerRun, CrawlContext, Crawled, make_capture_error, try_store_success, crawl_failed,
  run_crawler_for_context,
}

module _ (parse_url : Bytes → Option Bytes) where
  -- What `CrawlerRunner::Run` gives: an error, or all parts of an archive.
  abbrev pub IsComplete : CrawlerRun → Type 0
  IsComplete r =
      ((e : CrawlerError) × (r.error ≡ some e))
      ⊎ ((w : Bytes) × (s : Bytes) × (u : Bytes) × (h : Bytes) × (r.error ≡ none)
          × (r.wacz ≡ some w)
          × (r.content_sha256 ≡ some s)
          × (length s ≡ 32)
          × (r.replay_url ≡ some u)
          × (parse_url u ≡ some h))

  -- The context holds the archive of the run, and is the same job's.
  abbrev pub Filled : CrawlContext → CrawlerRun → CrawlContext → Type 0
  Filled ctx r c =
      (c.wacz_bytes ≡ r.wacz)
      × (c.content_sha256 ≡ r.content_sha256)
      × ((u : Bytes) × (r.replay_url ≡ some u) × (c.replay_url ≡ parse_url u))
      × (c.link ≡ ctx.link)
      × (c.id ≡ ctx.id)
      × (c.s3_key ≡ ctx.s3_key)

  module _ (describe : CrawlerError → Bytes) (run : Bytes → CrawlerRun) (ctx : CrawlContext) where
    -- The crawl ends as the run did.
    abbrev pub Ends : CrawlerRun → Crawled → Type 0
    Ends r c =
        ((r.error ≡ none) × (c.result ≡ ok tt) × Filled ctx r c.context)
        ⊎ ((e : CrawlerError) × (r.error ≡ some e)
            × (c.result ≡ err (make_capture_error describe parse_url run e)))

    -- One attempt, over HTTPS, decides the crawl unless it failed in a way that HTTP may mend and
    -- plain HTTP is allowed; then a second one, over HTTP, does.
    abbrev pub Decided : Bool → Crawled → Type 0
    Decided https_only c =
        ((c.attempts ≡ ctx.link.https_url ∷ [])
          × Ends (run ctx.link.https_url) c
          × (((run ctx.link.https_url).error ≡ none)
              ⊎ (https_only ≡ true)
              ⊎ ((e : CrawlerError) × ((run ctx.link.https_url).error ≡ some e)
                  × (should_retry_with_http e ≡ false))))
        ⊎ ((c.attempts ≡ ctx.link.https_url ∷ ctx.link.http_url ∷ [])
            × Ends (run ctx.link.http_url) c
            × (https_only ≡ false)
            × ((e : CrawlerError) × ((run ctx.link.https_url).error ≡ some e)
                × (should_retry_with_http e ≡ true)))

    store-cases :
        (r : CrawlerRun)
        → IsComplete r
        → ((e : CrawlerError) × (r.error ≡ some e)
            × (try_store_success describe parse_url run ctx r ≡ returns none))
          ⊎ ((c : CrawlContext) × (r.error ≡ none)
              × (try_store_success describe parse_url run ctx r ≡ returns (some c))
              × Filled ctx r c)
    unfolding try_store_success
    store-cases r (inl (e, h)) = inl (e, h, rw h)
    store-cases r (inr (w, s, u, h, he, hw, hs, hl, hu, hp)) = inr (
      record ctx { wacz_bytes = some w; content_sha256 = some s; replay_url = some h },
      he,
      rw (he, hw, hs, hu) (rw (hl, hp)),
      (rw hw, rw hs, (u, hu, rw hp), refl, refl, refl),
    )

    failed :
        (attempts : List Bytes) (r : CrawlerRun) (e : CrawlerError)
        → r.error ≡ some e
        → (c : Crawled) × (crawl_failed describe parse_url run attempts ctx r ≡ returns c)
          × (c.attempts ≡ attempts)
          × Ends r c
    failed attempts r e h =
        let c : Crawled = record {
          attempts = attempts;
          context = record ctx {
            error_message = some (codes "Crawler error for " ++ ctx.link.key);
          };
          result = err (make_capture_error describe parse_url run e);
        } in
        (c, (unfold crawl_failed in rw h), refl, inr (e, h, refl))

    once_only :
        (https_only : Bool) (e : CrawlerError)
        → (run ctx.link.https_url).error ≡ some e
        → try_store_success describe parse_url run ctx (run ctx.link.https_url) ≡ returns none
        → (https_only ≡ true) ⊎ ((https_only ≡ false) × (should_retry_with_http e ≡ false))
        → run_crawler_for_context describe parse_url run https_only ctx
          ≡ crawl_failed describe parse_url run
              (ctx.link.https_url ∷ [])
              ctx
              (run ctx.link.https_url)
    unfolding run_crawler_for_context
    once_only https_only e he t (inl o) = rw (t, o)
    once_only https_only e he t (inr (o, r)) = rw (t, o, he, r)

    -- What a crawl submits and how it ends. Every run of the crawler ends with an error or with all
    -- parts of an archive.
    pub run_crawler_for_context-Decided :
        (https_only : Bool)
        → IsComplete (run ctx.link.https_url)
        → IsComplete (run ctx.link.http_url)
        → (c : Crawled) × (run_crawler_for_context describe parse_url run https_only ctx
            ≡ returns c)
          × Decided https_only c
    run_crawler_for_context-Decided https_only first second =
        elim (store-cases (run ctx.link.https_url) first) [
          | inr (c, ok_run, stored, filled) ↦ (
            record { attempts = ctx.link.https_url ∷ []; context = c; result = ok tt },
            (unfold run_crawler_for_context in rw stored),
            inl (refl, inl (ok_run, refl, filled), inl ok_run),
          )
          | inl (e, he, none_stored) ↦ elim (Bool-cases https_only) [
            | inl o ↦
                let (c, eq, at, ends) =
                  failed (ctx.link.https_url ∷ []) (run ctx.link.https_url) e he in
                (c, once_only https_only e he none_stored (inl o) ∙ eq, inl (at, ends, inr (inl o)))
            | inr o ↦ elim (Bool-cases (should_retry_with_http e)) [
              | inr r ↦
                  let (c, eq, at, ends) =
                    failed (ctx.link.https_url ∷ []) (run ctx.link.https_url) e he in
                  (
                    c,
                    once_only https_only e he none_stored (inr (o, r)) ∙ eq,
                    inl (at, ends, inr (inr (e, he, r))),
                  )
              | inl r ↦ elim (store-cases (run ctx.link.http_url) second) [
                | inr (c, ok_run, stored, filled) ↦ (
                  record {
                    attempts = ctx.link.https_url ∷ ctx.link.http_url ∷ [];
                    context = c;
                    result = ok tt;
                  },
                  (unfold run_crawler_for_context in rw (none_stored, o, he, r, stored)),
                  inr (refl, inl (ok_run, refl, filled), o, (e, he, r)),
                )
                | inl (e', he', none_again) ↦
                    let (c, eq, at, ends) =
                      failed (ctx.link.https_url ∷ ctx.link.http_url ∷ []) (run ctx.link.http_url)
                        e' he' in
                    (
                      c,
                      (unfold run_crawler_for_context in rw (none_stored, o, he, r, none_again) eq),
                      inr (at, ends, o, (e, he, r)),
                    )
              ]
            ]
          ]
        ]
