-- ===== src/Runner/Resources/Tests.antt =====
-- A page with a style sheet, read within the limit and past it.
use webshot.Base.{ℕ, ◌≡◌, refl, false, List, [], ◌∷◌, length, Option, none, some, Expected, ok, err}
use webshot.Base.Bytes.{Bytes, codes}
use webshot.Artifacts.{CapturedResource}
use webshot.Runner.State.{TrackerData}
use webshot.Runner.Tests.{arrived, answered}
use webshot.Runner.Resources.{
  BodyLib, response_can_have_body, decode_cdp_body, retain_body, read_body, read_requests,
  read_resources, read_bodies,
}

abbrev body_lib : BodyLib
body_lib = record {
  get_response_body = λ id. some (record { body = codes "p{}"; base64_encoded = false });
  base64_decode = λ s. none;
  format = λ n. n ∷ [];
}

abbrev styled : TrackerData
styled = record arrived {
  active_requests =
      (codes "1", answered)
      ∷ (codes "2", record answered { is_tracked_main_document = false })
      ∷ [];
}

abbrev as_read : List CapturedResource → List CapturedResource
as_read rs = rs

abbrev counts : Expected (Bytes × List CapturedResource) Bytes → Option (ℕ × ℕ)
counts (ok p) = some (length p.0, length p.1)
counts (err e) = none

fits_test : counts (read_bodies body_lib as_read 8 (codes "html") styled styled) ≡ some (4, 1)
unfolding read_bodies read_body read_resources read_requests retain_body response_can_have_body
    decode_cdp_body
fits_test = refl

exceeds_test : counts (read_bodies body_lib as_read 6 (codes "html") styled styled) ≡ none
unfolding read_bodies read_body read_resources read_requests retain_body response_can_have_body
    decode_cdp_body
exceeds_test = refl
