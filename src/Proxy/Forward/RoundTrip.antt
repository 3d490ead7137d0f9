-- ===== src/Proxy/Forward/RoundTrip.antt =====
-- The forwarded request as the server's end reads it.
use mathlib.Core.List.{append_assoc}
use webshot.Base.{
  ℕ, zero, suc, ◌≤◌, ◌≡◌, refl, ap, sym, ◌∙◌, false, Bool-cases, null, List, [], ◌∷◌, ◌++◌, map,
  keep, Option, some, length, length-append, All, All-append, All-keep, ok, inl, inr, arith,
}
use webshot.Base.Maybe.{◌>>=◌}
use webshot.Base.Bytes.{Bytes, codes}
use webshot.Base.Splitting.{cut, cut-append}
use webshot.Proxy.Request.{
  TextLib, HeaderLine, ParsedRequest, HttpRequestTarget, crlf, crlf2, around, take_crlf_line,
  parse_request_line, push_header, parse_headers, parse_header_part, parse_header_block,
  should_forward_header,
}
use webshot.Proxy.Request.Lines.{
  Misses, Misses-join, around_line, around2_block, lined, lined_lem, IsHeaderLine,
}
use webshot.Proxy.Request.Shape.{
  TrimLaws, IsHeader, IsWord, IsWellFormed, parse_header_block-IsWellFormed,
}
use webshot.Proxy.Forward.{
  append_header_line, forward_headers, make_forward_request, parse_http_request_target,
}
use webshot.Proxy.Forward.Paths.{path-IsWord}

abbrev pub connection_close : HeaderLine
connection_close = record { name = codes "Connection"; value = codes "close" }

-- The headers that are passed on, with the proxy's own.
abbrev pub forwarded : TextLib → List HeaderLine → List HeaderLine
forwarded lib headers =
    keep (λ h. should_forward_header lib h.name) headers ++ connection_close ∷ []

abbrev line_of : HeaderLine → Bytes
line_of h = h.name ++ (codes ": " ++ h.value)

null-append : (a b : Bytes) → null a ≡ false → null (a ++ b) ≡ false
null-append [] b h = cc
null-append (c ∷ a) b h = refl

abbrev request_line : Bytes → Bytes → Bytes → Bytes
request_line method path version = method ++ b' ' ∷ (path ++ b' ' ∷ version)

module _ (lib : TextLib) where
  forward_headers-lined :
      (headers : List HeaderLine)
      → forward_headers lib headers (codes "Connection: close" ++ (crlf ++ crlf))
        ≡ lined (map line_of (forwarded lib headers)) ++ crlf
  unfolding forward_headers append_header_line
  forward_headers-lined [] = refl
  forward_headers-lined (h ∷ headers) = elim (Bool-cases (should_forward_header lib h.name)) [
    | inr e ↦ rw e (forward_headers-lined headers)
    | inl e ↦ rw (e, forward_headers-lined headers) (simp (append_assoc))
  ]

  make_forward_request-lined :
      (req : ParsedRequest) (path : Bytes)
      → make_forward_request lib req path
        ≡ lined (request_line req.method path req.version ∷ map line_of (forwarded lib req.headers))
          ++ crlf
  unfolding make_forward_request
  make_forward_request-lined req path = rw (forward_headers-lined req.headers) (simp (append_assoc))

  module _ (laws : TrimLaws lib) where
    parse_headers-step :
        (fuel : ℕ) (l rest : Bytes)
        → null l ≡ false
        → Misses crlf l
        → parse_headers lib (suc fuel) (l ++ (crlf ++ rest))
          ≡ (parse_headers lib fuel rest >>= λ headers. some (push_header lib (cut b':' l) headers))
    unfolding parse_headers take_crlf_line
    parse_headers-step fuel [] rest n m = cc
    parse_headers-step fuel (c ∷ l) rest n m = rw (around_line (c ∷ l) rest m) refl

    push_header_lem :
        (h : HeaderLine) (headers : List HeaderLine)
        → IsHeader lib h
        → push_header lib (cut b':' (line_of h)) headers ≡ h ∷ headers
    unfolding push_header
    push_header_lem h headers k =
        rw (cut-append b':' h.name (b' ' ∷ h.value) k.plain, k.named, laws.blank h.value, k.trimmed)
          refl

    line_of-IsHeaderLine : (h : HeaderLine) → IsHeader lib h → IsHeaderLine (line_of h)
    line_of-IsHeaderLine h k = (
      null-append h.name (codes ": " ++ h.value) k.named,
      Misses-join h.name (b' ' ∷ h.value) b':' refl refl k.name_line (refl, k.value_line),
    )

    parse_headers-lined :
        (headers : List HeaderLine) (fuel : ℕ)
        → All (IsHeader lib) headers
        → length (lined (map line_of headers) ++ crlf) ≤ fuel
        → parse_headers lib fuel (lined (map line_of headers) ++ crlf) ≡ some headers
    parse_headers-lined headers zero h l =
        absurd (omega (arith, length-append (lined (map line_of headers)) crlf))
    parse_headers-lined [] (suc fuel) h l = unfold parse_headers take_crlf_line around in refl
    parse_headers-lined (x ∷ headers) (suc fuel) h l =
        let whole = lined_lem (line_of x) (map line_of headers) in
        let line = line_of-IsHeaderLine x h.0 in
        let shorter : length (lined (map line_of headers) ++ crlf) ≤ fuel = omega (
          arith,
          ap length whole,
          length-append (line_of x) (crlf ++ (lined (map line_of headers) ++ crlf)),
        ) in
        ap (parse_headers lib (suc fuel)) whole
        ∙ parse_headers-step fuel (line_of x) (lined (map line_of headers) ++ crlf) line.0 line.1
        ∙ ap
            (λ (o : Option (List HeaderLine)).
              o >>= λ hs. some (push_header lib (cut b':' (line_of x)) hs))
            (parse_headers-lined headers fuel h.1 shorter)
        ∙ ap some (push_header_lem x headers h.0)

    parse_request_line_lem :
        (method path version : Bytes)
        → IsWord method
        → IsWord path
        → null version ≡ false
        → ◌≡◌ {A = Option (Bytes × Bytes × Bytes)}
            (parse_request_line (request_line method path version))
            (some (method, path, version))
    unfolding parse_request_line
    parse_request_line_lem method path version m p v =
        rw
          (
            cut-append b' ' method (path ++ b' ' ∷ version) m.plain,
            cut-append b' ' path version p.plain,
            m.filled,
            p.filled,
            v,
          )
          refl

    request_line-Misses :
        (method path version : Bytes)
        → IsWord method
        → IsWord path
        → Misses crlf version
        → Misses crlf (request_line method path version)
    request_line-Misses method path version m p v =
        Misses-join method (path ++ b' ' ∷ version) b' ' refl refl m.one_line
          (Misses-join path version b' ' refl refl p.one_line v)

    header_lines :
        (headers : List HeaderLine)
        → All (IsHeader lib) headers
        → All IsHeaderLine (map line_of headers)
    header_lines [] h = tt
    header_lines (x ∷ headers) h = (line_of-IsHeaderLine x h.0, header_lines headers h.1)

    forwarded-IsHeader :
        (headers : List HeaderLine)
        → All (IsHeader lib) headers
        → All (IsHeader lib) (forwarded lib headers)
    forwarded-IsHeader headers h =
        All-append (IsHeader lib) (keep (λ x. should_forward_header lib x.name) headers)
          (connection_close ∷ [])
          (All-keep (IsHeader lib) (λ x. should_forward_header lib x.name) headers h)
          (
            record {
              named = refl;
              plain = omega arith;
              name_line = ground arith;
              value_line = ground arith;
              trimmed = laws.close;
            },
            tt,
          )

    parse_header_part_lem :
        (req : ParsedRequest) (path : Bytes)
        → IsWellFormed lib req
        → IsWord path
        → parse_header_part lib (make_forward_request lib req path)
          ≡ some (record {
            method = req.method;
            target = path;
            version = req.version;
            headers = forwarded lib req.headers;
            header_bytes = length (make_forward_request lib req path);
          })
    unfolding parse_header_part take_crlf_line
    parse_header_part_lem req path w p =
        let line = request_line req.method path req.version in
        let headers = lined (map line_of (forwarded lib req.headers)) ++ crlf in
        rw
          (
            make_forward_request-lined req path
                ∙ lined_lem line (map line_of (forwarded lib req.headers)),
            around_line line headers
                (request_line-Misses req.method path req.version w.method p w.version_line),
            parse_request_line_lem req.method path req.version w.method p w.version_filled,
            parse_headers-lined (forwarded lib req.headers) (length headers)
                (forwarded-IsHeader req.headers w.headers) (omega arith),
          )
          refl

    parse_header_block_lem :
        (req : ParsedRequest) (path : Bytes)
        → IsWellFormed lib req
        → IsWord path
        → parse_header_block lib (make_forward_request lib req path)
          ≡ parse_header_part lib (make_forward_request lib req path)
    unfolding parse_header_block
    parse_header_block_lem req path w p =
        let line = request_line req.method path req.version in
        let whole = make_forward_request-lined req path in
        let (part, found, again) =
          around2_block line (map line_of (forwarded lib req.headers))
            (request_line-Misses req.method path req.version w.method p w.version_line)
            (header_lines (forwarded lib req.headers) (forwarded-IsHeader req.headers w.headers)) in
        ap (parse_header_block lib) whole
        ∙ ap (λ (o : Option (Bytes × Bytes)). o >>= λ t. parse_header_part lib (t.0 ++ crlf2)) found
        ∙ ap (parse_header_part lib) (again ∙ sym whole)

module _ (lib : TextLib) where
  -- With a `TrimView` that cuts blanks: for a request that was parsed, and a target found in it, the
  -- text that is forwarded is read back by the same parser as the request with its method, the
  -- target's path, its version, and its headers without those of the proxy and of the connection,
  -- with `Connection: close` behind them.
  pub parse_header_block-make_forward_request :
      TrimLaws lib
      → (bytes : Bytes) (req : ParsedRequest) (t : HttpRequestTarget)
      → parse_header_block lib bytes ≡ some req
      → parse_http_request_target lib req ≡ ok t
      → parse_header_block lib (make_forward_request lib req t.path)
        ≡ some (record {
          method = req.method;
          target = t.path;
          version = req.version;
          headers = forwarded lib req.headers;
          header_bytes = length (make_forward_request lib req t.path);
        })
  parse_header_block-make_forward_request laws bytes req t p h =
      let w = parse_header_block-IsWellFormed lib laws bytes req p in
      let path = path-IsWord lib req t w.target h in
      parse_header_block_lem lib laws req t.path w path
      ∙ parse_header_part_lem lib laws req t.path w path
