-- ===== src/Runner/Resources.antt =====
-- How `PageTracker` reads the bodies of a page and of its resources, within the limit on an archive
-- (webshotd/src/crawler/runner.cpp).
pub mod Fits
pub mod Tests
use webshot.Base.{
  ℕ, ltb, ◌+◌, ◌==◌, Bool, true, false, not, ◌&&◌, ◌||◌, null, if◌then◌else◌, List, [], ◌∷◌, ◌++◌,
  length, Option, none, some, Expected, ok, err, ◌>>=◌,
}
use webshot.Base.Maybe
use webshot.Base.Bytes.{Bytes, codes, ◌=?◌}
use webshot.Crawl.Fallback.{ℤ, pos, negsuc}
use webshot.Artifacts.{CapturedResource}
use webshot.Runner.State.{TrackedRequest, MainResponse, Active, TrackerData, response_of, or_value}
use webshot.Runner.Tracker.Exchange.{first_some}

-- The result of `Network.getResponseBody`.
pub record ResponseBody : Type 0 where
  pub body : Bytes
  pub base64_encoded : Bool

-- What Chromium answers for the body of a request, Base64, and the text of a number.
pub record BodyLib : Type 0 where
  pub get_response_body : Bytes → Option ResponseBody
  pub base64_decode : Bytes → Option Bytes
  pub format : ℕ → Bytes

unfoldable pub response_can_have_body : Bytes → ℤ → Bool
response_can_have_body method (negsuc n) = not (method =? codes "HEAD")
response_can_have_body method (pos n) =
    not (method =? codes "HEAD")
    && (ltb n 100 || not (ltb n 200))
    && not (n == 204)
    && not (n == 304)

module _ (lib : BodyLib) where
  unfoldable pub decode_cdp_body : ResponseBody → Option Bytes
  decode_cdp_body b = if b.base64_encoded then lib.base64_decode b.body else some b.body

  -- The body that is sent for a request, if it can be read.
  abbrev pub fetched : Bytes → Option Bytes
  fetched id = Maybe.◌>>=◌ (lib.get_response_body id) (λ b. decode_cdp_body b)

  abbrev pub limit_text : ℕ → ℕ → Bytes
  limit_text next max_bytes =
      codes "size_limit: retained body bytes "
      ++ (lib.format next ++ (codes " exceeded size limit " ++ lib.format max_bytes))

  -- With the bytes that are retained before and after it.
  unfoldable pub retain_body : ℕ → Bytes → ℕ → Expected (Bytes × ℕ) Bytes
  retain_body max_bytes body retained_bytes =
      let next = retained_bytes + length body in
      if ltb max_bytes next then err (limit_text next max_bytes) else ok (body, next)

  -- The request whose body is that of the main document.
  abbrev pub body_request_id : TrackerData → Option Bytes
  body_request_id d = first_some d.main_response_request_id d.main_request_id

  abbrev pub main_body : Bytes → TrackerData → Bytes
  main_body fallback_body d =
      if null fallback_body
      then or_value (Maybe.◌>>=◌ (body_request_id d) (λ id. fetched id)) fallback_body
      else fallback_body

  unfoldable pub read_body : ℕ → Bytes → TrackerData → ℕ → Expected (Bytes × ℕ) Bytes
  read_body max_bytes fallback_body d retained_bytes =
      retain_body max_bytes (main_body fallback_body d) retained_bytes

  abbrev pub captured_resource : TrackedRequest → MainResponse → Bytes → CapturedResource
  captured_resource request response body = record {
    resource_url = request.request_url;
    method = request.method;
    resource_type = request.resource_type;
    status_code = response.status_code;
    status_message = response.status_message;
    headers = response.headers;
    body = body;
    timestamp = response.timestamp;
  }

  -- The response of a request that is no main document.
  abbrev pub resource_response : TrackedRequest → Option MainResponse
  resource_response request = if request.is_tracked_main_document then none else response_of request

  abbrev pub resource_body : Bytes → TrackedRequest → MainResponse → Option Bytes
  resource_body id request response =
      if response_can_have_body request.method response.status_code then fetched id else none

  abbrev pub retain_found : ℕ → Option Bytes → ℕ → Expected (Bytes × ℕ) Bytes
  retain_found max_bytes none retained_bytes = ok ([], retained_bytes)
  retain_found max_bytes (some body) retained_bytes = retain_body max_bytes body retained_bytes

  -- A round of the loop, with the resources so far and the bytes retained.
  abbrev pub read_resource :
      ℕ
      → Bytes
      → TrackedRequest
      → Option MainResponse
      → List CapturedResource × ℕ
      → Expected (List CapturedResource × ℕ) Bytes
  read_resource max_bytes id request none p = ok p
  read_resource max_bytes id request (some response) p =
      retain_found max_bytes (resource_body id request response) p.1 >>= λ q.
      ok (p.0 ++ captured_resource request response q.0 ∷ [], q.1)

  unfoldable pub read_requests :
      ℕ → Active → List CapturedResource × ℕ → Expected (List CapturedResource × ℕ) Bytes
  read_requests max_bytes [] p = ok p
  read_requests max_bytes (e ∷ es) p =
      read_resource max_bytes e.0 e.1 (resource_response e.1) p >>= λ q.
      read_requests max_bytes es q

  -- `sort_by_timestamp` is `std::ranges::sort`, as for the records of the archive.
  unfoldable pub read_resources :
      (List CapturedResource → List CapturedResource)
      → ℕ
      → TrackerData
      → ℕ
      → Expected (List CapturedResource) Bytes
  read_resources sort_by_timestamp max_bytes d retained_bytes =
      read_requests max_bytes d.active_requests (d.redirected_resources, retained_bytes) >>= λ p.
      ok (sort_by_timestamp p.0)

  -- The two reads of `CaptureSession`, with one budget; events may come between them, so each has its
  -- own state.
  unfoldable pub read_bodies :
      (List CapturedResource → List CapturedResource)
      → ℕ
      → Bytes
      → TrackerData
      → TrackerData
      → Expected (Bytes × List CapturedResource) Bytes
  read_bodies sort_by_timestamp max_archive_bytes html d d' =
      read_body max_archive_bytes html d 0 >>= λ b.
      read_resources sort_by_timestamp max_archive_bytes d' b.1 >>= λ resources. ok (b.0, resources)
