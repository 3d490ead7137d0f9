-- ===== src/Runner/Resources/Fits.antt =====
-- The bodies of a page are read exactly where they fit the limit together, and none is lost.
use webshot.Base.{ℕ, ◌+◌, List, [], ◌∷◌, ◌++◌, length, Option, none, some}
use webshot.Base.Bytes.{Bytes}
use webshot.Artifacts.{CapturedResource}
use webshot.Runner.State.{TrackedRequest, MainResponse, Active, or_value}
use webshot.Runner.Resources.{BodyLib, captured_resource, resource_response, resource_body}

module _ (lib : BodyLib) where
  abbrev pub body_bytes : Option Bytes → ℕ
  body_bytes none = 0
  body_bytes (some b) = length b

  -- How many bytes the body of a request has, and the resource that it gives, if any.
  abbrev pub bytes_of : Bytes → TrackedRequest → Option MainResponse → ℕ
  bytes_of id request none = 0
  bytes_of id request (some m) = body_bytes (resource_body lib id request m)

  abbrev pub resources_of : Bytes → TrackedRequest → Option MainResponse → List CapturedResource
  resources_of id request none = []
  resources_of id request (some m) =
      captured_resource lib request m (or_value (resource_body lib id request m) []) ∷ []

  abbrev pub total_bytes : Active → ℕ
  total_bytes [] = 0
  total_bytes (e ∷ es) = bytes_of e.0 e.1 (resource_response lib e.1) + total_bytes es

  abbrev pub all_resources : Active → List CapturedResource
  all_resources [] = []
  all_resources (e ∷ es) = resources_of e.0 e.1 (resource_response lib e.1) ++ all_resources es
