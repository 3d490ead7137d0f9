-- ===== src/Runner/Interception/Guarded.antt =====
-- A held request is let go only where the access policy lets it.
use webshot.Base.{Bool, ◌≡◌, ◌⊎◌, true, false, ◌&&◌, none, some, ok}
use webshot.Base.Bytes.{Bytes}
use webshot.Policy.{Table, AccessDecision}
use webshot.Policy.Laws.{Permits, Forbids}
use webshot.Links.{LinkLib}
use webshot.Runner.Urls.{UrlLib}
use webshot.Runner.State.{is_some}
use webshot.Runner.Interception.{
  Config, Session, current_wait_error, mode_of, link_from_interception_url,
  access_policy_url_from_text, link_key, is_plain, evaluate_access_policy,
}

-- Nothing is sent, and the capture is told to end.
abbrev pub IsHeldBack : Session → Session → Type 0
IsHeldBack s s' = (s'.sent ≡ s.sent) × (is_some (current_wait_error s') ≡ true)

module _ {Url : Type 0} (lib : UrlLib Url) (links : LinkLib Url) (to_hex : Bytes → Bytes)
    (config : Config) (allowlist denylist : Table) where
  abbrev pub IsLink : Url → Url → Type 0
  IsLink u link =
      (link_from_interception_url lib links config u ≡ ok link)
      × ((config.https_only && is_plain lib u) ≡ false)

  -- The policy lets the URL pass: it is not on plain HTTP where only HTTPS may be used, and both lists
  -- let its link pass in the mode that is set.
  abbrev pub IsPermitted : Url → Type 0
  IsPermitted u =
      (link : Url) × IsLink u link
      × Permits to_hex allowlist denylist (link_key links link) (mode_of config)

  -- It is on plain HTTP where only HTTPS may be used, or the lists forbid its link.
  abbrev pub IsForbidden : Url → Type 0
  IsForbidden u =
      ((config.https_only && is_plain lib u) ≡ true)
      ⊎ ((link : Url) × IsLink u link
          × Forbids to_hex allowlist denylist (link_key links link) (mode_of config))

  abbrev Judged : Url → Bool → Type 0
  Judged u true = IsPermitted u
  Judged u false = IsForbidden u

  -- It is a URL that the policy says nothing of, or one that it lets pass.
  abbrev pub IsFree : Bytes → Type 0
  IsFree url =
      (text : Bytes) × (lib.from_bytes url ≡ some text)
      × ((access_policy_url_from_text lib text ≡ none)
          ⊎ ((u : Url) × (access_policy_url_from_text lib text ≡ some u) × IsPermitted u))

  -- It is the text of a URL that the policy forbids, with this decision.
  abbrev pub IsRefused : Bytes → AccessDecision → Type 0
  IsRefused url d =
      (text : Bytes) × (u : Url) × (lib.from_bytes url ≡ some text)
      × (access_policy_url_from_text lib text ≡ some u)
      × (evaluate_access_policy lib links to_hex config allowlist denylist u ≡ ok d)
      × IsForbidden u
