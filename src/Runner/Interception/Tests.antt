-- ===== src/Runner/Interception/Tests.antt =====
-- Requests that are held back, under a denylist with a host.
use webshot.Base.{◌≡◌, refl, Bool, true, false, List, [], ◌∷◌, none, ok}
use webshot.Base.Bytes.{Bytes, codes}
use webshot.Prefix.Tests.{to_hex}
use webshot.Policy.{Table}
use webshot.Links.{LinkLib}
use webshot.Runner.Tests.{text_lib}
use webshot.Runner.Interception.{
  Config, Replies, Command, Session, RequestPaused, blocked, evaluate_access_policy,
  handle_fetch_request_paused, access_policy_url_from_text, answer_decision, send_or_note,
}

abbrev links : LinkLib Bytes
links = record {
  from_bounded_size_text = λ s max. ok s;
  is_http_or_https = λ u. true;
  has_hostname = λ u. true;
  hostname = λ u. codes "ex.com";
  pathname = λ u. codes "/a";
  is_ip_literal_hostname = λ h. false;
  has_valid_domain = λ u. true;
  without_user_hash_and_port = λ u. u;
  set_hostname = λ u h. u;
  set_protocol = λ u p. u;
  get_href = λ u. u;
  strip_ascii_whitespace = λ s. s;
}

abbrev replies : Replies
replies = record { format = λ n. n ∷ []; base64_encode = λ s. s; send = λ c. none }

abbrev config : Config
config = record { url_bytes_max = 100; https_only = true; allowlist_only = false }

abbrev denylist : Table
denylist = ok (
    record {
      prefix_key = codes "com.ex";
      prefix_tree = codes "h" ∷ codes "x636f6d" ∷ codes "x6578" ∷ [];
      reason = codes "test";
    }
    ∷ [])

abbrev quiet_session : Session
quiet_session = record { interception_error = none; tracker = none; sent = [] }

abbrev held : Bytes → RequestPaused
held url = record { request_id = codes "7"; url = url }

abbrev is_refused : List Command → Bool
is_refused (Command.fulfill_request id status headers body phrase ∷ []) = true
is_refused _ = false

refused_test :
    is_refused (
      (handle_fetch_request_paused text_lib links to_hex replies config
        (ok [])
        (ok [])
        (ok (held (codes "http://ex.com/a")))
        quiet_session).sent)
    ≡ true
unfolding handle_fetch_request_paused access_policy_url_from_text evaluate_access_policy
    answer_decision send_or_note blocked
refused_test = refl
