-- ===== src/Proxy/Request/Shape.antt =====
-- What holds of every request that the parser returns.
use webshot.Base.{
  ℕ, zero, suc, ◌≡◌, refl, ap, sym, false, Bool-cases, Option-cases, null, List, [], ◌∷◌, ◌++◌,
  Option, none, some, length, All, inl, inr, arith,
}
use webshot.Base.Bytes.{Bytes, codes}
use webshot.Base.Splitting.{cut, Lacks, cut-some}
use webshot.Proxy.Request.{
  TextLib, HeaderLine, ParsedRequest, crlf, crlf2, around, take_crlf_line, parse_request_line,
  push_header, parse_headers, parse_header_part, parse_header_block,
}
use webshot.Proxy.Request.Lines.{Misses, Misses-append, around-crlf}

-- What the code relies on of `TrimView`: it cuts blanks off both ends.
pub record TrimLaws (lib : TextLib) : Type 0 where
  pub again : (v : Bytes) → lib.trim (lib.trim v) ≡ lib.trim v
  pub blank : (v : Bytes) → lib.trim (b' ' ∷ v) ≡ lib.trim v
  pub part : (v : Bytes) → (a : Bytes) × (b : Bytes) × (v ≡ a ++ (lib.trim v ++ b))
  pub close : lib.trim (codes "close") ≡ codes "close"

pub record IsHeader (lib : TextLib) (h : HeaderLine) : Type 0 where
  pub named : null h.name ≡ false
  pub plain : Lacks b':' h.name
  pub name_line : Misses crlf h.name
  pub value_line : Misses crlf h.value
  pub trimmed : lib.trim h.value ≡ h.value

pub record IsWord (w : Bytes) : Type 0 where
  pub filled : null w ≡ false
  pub plain : Lacks b' ' w
  pub one_line : Misses crlf w

pub record IsWellFormed (lib : TextLib) (req : ParsedRequest) : Type 0 where
  pub method : IsWord req.method
  pub target : IsWord req.target
  pub version_filled : null req.version ≡ false
  pub version_line : Misses crlf req.version
  pub headers : All (IsHeader lib) req.headers

module _ (lib : TextLib) (laws : TrimLaws lib) where
  trim-Misses : (v : Bytes) → Misses crlf v → Misses crlf (lib.trim v)
  trim-Misses v h =
      let (a, b, e) = laws.part v in
      (Misses-append (lib.trim v) b (Misses-append a (lib.trim v ++ b) (rw (← e) h)).1).0

  make-IsHeader :
      (line name value : Bytes)
      → ◌≡◌ {A = Bytes × Option Bytes} (name, some value) (cut b':' line)
      → Misses crlf line
      → null name ≡ false
      → IsHeader lib (record { name = name; value = lib.trim value })
  make-IsHeader line name value e m n =
      let (split_, lacks) =
        cut-some b':' line value (sym (ap (λ (p : Bytes × Option Bytes). p.1) e)) in
      let same : name ≡ (cut b':' line).0 = ap (λ (p : Bytes × Option Bytes). p.0) e in
      let parts = Misses-append name (b':' ∷ value) (rw (same, ← split_) m) in
      record {
        named = n;
        plain = rw same lacks;
        name_line = parts.0;
        value_line = trim-Misses value parts.1.1;
        trimmed = laws.again value;
      }

  push_header-All :
      (line : Bytes) (p : Bytes × Option Bytes) (headers : List HeaderLine)
      → p ≡ cut b':' line
      → Misses crlf line
      → All (IsHeader lib) headers
      → All (IsHeader lib) (push_header lib p headers)
  unfolding push_header
  push_header-All line (name, none) headers e m h = h
  push_header-All line (name, some value) headers e m h = elim (Bool-cases (null name)) [
    | inl n ↦ rw n h
    | inr n ↦ rw n (make-IsHeader line name value e m n, h)
  ]

  parse_headers-All :
      (fuel : ℕ) (s : Bytes) {headers : List HeaderLine}
      → parse_headers lib fuel s ≡ some headers
      → All (IsHeader lib) headers
  unfolding parse_headers take_crlf_line
  parse_headers-All zero s {headers} h = let eq : headers ≡ [] = ground arith in rw eq tt
  parse_headers-All (suc fuel) s {headers} h = elim (Bool-cases (null s)) [
    | inl n ↦ let eq : headers ≡ [] = ground arith in rw eq tt
    | inr n ↦ elim (Option-cases (around crlf s)) [
      | inl f ↦ absurd (ground arith)
      | inr ((line, rest), f) ↦ elim (Bool-cases (null line)) [
        | inl e ↦ let eq : headers ≡ [] = ground arith in rw eq tt
        | inr e ↦ elim (Option-cases (parse_headers lib fuel rest)) [
          | inl g ↦ absurd (ground arith)
          | inr (more, g) ↦
              let eq : headers ≡ push_header lib (cut b':' line) more = ground arith in
              rw eq (
                push_header-All line (cut b':' line) more refl (around-crlf s line rest f).1
                  (parse_headers-All fuel rest g))
        ]
      ]
    ]
  ]

  parse_request_line-IsWord :
      (line method target version : Bytes)
      → Misses crlf line
      → ◌≡◌ {A = Option (Bytes × Bytes × Bytes)}
          (parse_request_line line)
          (some (method, target, version))
      → IsWord method × IsWord target × (null version ≡ false) × Misses crlf version
  unfolding parse_request_line
  parse_request_line-IsWord line method target version m h = elim (Option-cases (cut b' ' line).1) [
    | inl f ↦ absurd (ground arith)
    | inr (rest, f) ↦ elim (Option-cases (cut b' ' rest).1) [
      | inl g ↦ absurd (ground arith)
      | inr (v, g) ↦
          let (line_split, line_lacks) = cut-some b' ' line rest f in
          let (rest_split, rest_lacks) = cut-some b' ' rest v g in
          let a : method ≡ (cut b' ' line).0 = ground arith in
          let b : target ≡ (cut b' ' rest).0 = ground arith in
          let c : version ≡ v = ground arith in
          let words = Misses-append (cut b' ' line).0 (b' ' ∷ rest) (rw (← line_split) m) in
          let tail = Misses-append (cut b' ' rest).0 (b' ' ∷ v) (rw (← rest_split) words.1.1) in
          (
            record { filled = ground arith; plain = rw a line_lacks; one_line = rw a words.0 },
            record { filled = ground arith; plain = rw b rest_lacks; one_line = rw b tail.0 },
            ground arith,
            rw c tail.1.1,
          )
    ]
  ]

  parse_header_part-IsWellFormed :
      (part : Bytes) (req : ParsedRequest)
      → parse_header_part lib part ≡ some req
      → IsWellFormed lib req
  unfolding parse_header_part take_crlf_line
  parse_header_part-IsWellFormed part req h = elim (Option-cases (around crlf part)) [
    | inl f ↦ absurd (ground arith)
    | inr ((line, rest), f) ↦ elim (Option-cases (parse_request_line line)) [
      | inl g ↦ absurd (ground arith)
      | inr ((method, target, version), g) ↦
          elim (Option-cases (parse_headers lib (length rest) rest)) [
            | inl k ↦ absurd (ground arith)
            | inr (headers, k) ↦
                let (a, b, c, d) =
                  parse_request_line-IsWord line method target version
                    (around-crlf part line rest f).1 g in
                let eq : req ≡ record {
                  method = method;
                  target = target;
                  version = version;
                  headers = headers;
                  header_bytes = length part;
                } =
                  ground arith in
                rw eq (record {
                  method = a;
                  target = b;
                  version_filled = c;
                  version_line = d;
                  headers = parse_headers-All (length rest) rest k;
                })
          ]
    ]
  ]

  -- A request that the parser returns has words without blanks for its method and its target, and
  -- headers with trimmed values and names without a colon; none of them breaks the line.
  pub parse_header_block-IsWellFormed :
      (bytes : Bytes) (req : ParsedRequest)
      → parse_header_block lib bytes ≡ some req
      → IsWellFormed lib req
  unfolding parse_header_block
  parse_header_block-IsWellFormed bytes req h = elim (Option-cases (around crlf2 bytes)) [
    | inl f ↦ absurd (ground arith)
    | inr (part, f) ↦ parse_header_part-IsWellFormed (part.0 ++ crlf2) req (ground arith)
  ]
