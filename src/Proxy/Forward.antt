-- ===== src/Proxy/Forward.antt =====
-- The request that the proxy forwards and the answers that it makes itself:
-- `ParseHttpRequestTarget`, `ParseContentLength`, `MakeForwardRequest` and `MakeErrorResponse` of
-- webshotd/src/crawler/egress_proxy.cpp.
pub mod Paths
pub mod RoundTrip
use webshot.Base.{
  ℕ, ◌==◌, leb, Bool, true, false, not, if◌then◌else◌, List, [], ◌∷◌, ◌++◌, Option, none, some,
  drop, length, null, Expected, ok, err, ok_or, ◌>>=◌, ◌>>◌, ensure,
}
use webshot.Base.Bytes.{Bytes, codes, starts_with}
use webshot.Base.Splitting.{cut}
use webshot.Crawl.Fallback.{ℤ, pos, negsuc}
use webshot.Proxy.Request.{
  TextLib, HeaderLine, ParsedRequest, Authority, HttpRequestTarget, crlf, find_header_value,
  parse_authority, should_forward_header,
}

abbrev pub unsupported_request_target : Bytes
unsupported_request_target = codes "unsupported request target"

abbrev pub missing_host_header : Bytes
missing_host_header = codes "missing Host header"

abbrev pub invalid_host_header : Bytes
invalid_host_header = codes "invalid Host header"

abbrev pub max_content_length_bytes : ℕ
max_content_length_bytes = 1073741824

abbrev pub proxy_auth_required_response : Bytes
proxy_auth_required_response =
    codes "HTTP/1.1 407 Proxy Authentication Required"
    ++ (crlf
        ++ (codes "Content-Type: text/plain; charset=utf-8"
            ++ (crlf
                ++ (codes "Proxy-Authenticate: Basic realm=\"webshot\""
                    ++ (crlf
                        ++ (codes "Connection: close"
                            ++ (crlf
                                ++ (codes "Content-Length: 30"
                                    ++ (crlf
                                        ++ (crlf
                                            ++ (codes "Proxy authentication required"
                                                ++ 10 ∷ [])))))))))))

abbrev pub connect_established_response : Bytes
connect_established_response = codes "HTTP/1.1 200 Connection Established" ++ (crlf ++ crlf)

unfoldable pub append_header_line : Bytes → Bytes → Bytes
append_header_line name value = name ++ (codes ": " ++ (value ++ crlf))

module _ (lib : TextLib) where
  unfoldable pub make_error_response : Bytes → Bytes → Bytes
  make_error_response status message =
      let body = message ++ 10 ∷ [] in
      status
      ++ (crlf
          ++ (codes "Content-Type: text/plain; charset=utf-8"
              ++ (crlf
                  ++ (codes "Connection: close"
                      ++ (crlf
                          ++ (codes "Content-Length: "
                              ++ (lib.to_string (length body) ++ (crlf ++ (crlf ++ body)))))))))

  unfoldable pub make_400_response : Bytes → Bytes
  unfolding make_error_response
  make_400_response message = make_error_response (codes "HTTP/1.1 400 Bad Request") message

  unfoldable pub make_502_response : Bytes → Bytes
  unfolding make_error_response
  make_502_response message = make_error_response (codes "HTTP/1.1 502 Bad Gateway") message

  -- `path` behind the authority of an absolute target.
  abbrev pub path_after : Option Bytes → Bytes
  path_after none = codes "/"
  path_after (some path) = b'/' ∷ path

  -- The branch of a target that starts with `http://`, without that scheme.
  unfoldable pub parse_absolute : Bytes → Expected HttpRequestTarget Bytes
  parse_absolute rest = do
    parsed_authority ←
        ok_or (parse_authority lib (cut b'/' rest).0 80 false) unsupported_request_target
    host_text ← ok_or (lib.from_bytes parsed_authority.host) unsupported_request_target
    ok (record {
      host = host_text;
      port = parsed_authority.port;
      path = path_after (cut b'/' rest).1;
    })

  -- The branch of a target that starts with a slash.
  unfoldable pub parse_origin : ParsedRequest → Expected HttpRequestTarget Bytes
  parse_origin req = do
    host_header ← ok_or (find_header_value lib req.headers (codes "host")) missing_host_header
    parsed_host ← ok_or (parse_authority lib host_header 0 false) invalid_host_header
    host_text ← ok_or (lib.from_bytes parsed_host.host) invalid_host_header
    ok (record {
      host = host_text;
      port = if parsed_host.port == 0 then 80 else parsed_host.port;
      path = req.target;
    })

  unfoldable pub parse_http_request_target : ParsedRequest → Expected HttpRequestTarget Bytes
  unfolding parse_absolute parse_origin
  parse_http_request_target req =
      if starts_with (codes "http://") req.target
      then parse_absolute (drop 7 req.target)
      else if starts_with (codes "/") req.target
      then parse_origin req
      else err unsupported_request_target

  abbrev pub invalid_content_length : Bytes
  invalid_content_length = codes "invalid Content-Length"

  unfoldable pub content_length_of : Option ℤ → Expected ℕ Bytes
  content_length_of none = err invalid_content_length
  content_length_of (some (negsuc n)) = err invalid_content_length
  content_length_of (some (pos n)) =
      if leb n max_content_length_bytes then ok n else err invalid_content_length

  unfoldable pub parse_content_length : Bytes → Expected ℕ Bytes
  unfolding content_length_of
  parse_content_length header_value =
      if null (lib.trim header_value)
      then err invalid_content_length
      else content_length_of (lib.parse_i64 (lib.trim header_value))

  abbrev pub forward_header : HeaderLine → Bytes
  forward_header h =
      if should_forward_header lib h.name then append_header_line h.name h.value else []

  -- The loop over the headers, in front of `rest`.
  unfoldable pub forward_headers : List HeaderLine → Bytes → Bytes
  unfolding append_header_line
  forward_headers [] rest = rest
  forward_headers (h ∷ headers) rest = forward_header h ++ forward_headers headers rest

  unfoldable pub make_forward_request : ParsedRequest → Bytes → Bytes
  unfolding forward_headers
  make_forward_request req path =
      req.method
      ++ b' '
        ∷ (path
            ++ b' '
              ∷ (req.version
                  ++ (crlf
                      ++ forward_headers req.headers
                          (codes "Connection: close" ++ (crlf ++ crlf)))))
