-- ===== src/Proxy/Forward/Paths.antt =====
-- The path of a forwarded request is one word.

use webshot.Base.{
  ℕ, zero, suc, ◌≡◌, refl, Bool-cases, [], ◌∷◌, ◌++◌, drop, Option, none, some, ok, inl, inr, arith,
}
use webshot.Base.Bytes.{Bytes, codes, starts_with}
use webshot.Base.Splitting.{cut, Lacks, cut-some}
use webshot.Proxy.Request.{TextLib, ParsedRequest, HttpRequestTarget, crlf}
use webshot.Proxy.Request.Lines.{Misses, Misses-append}
use webshot.Proxy.Request.Shape.{IsWord}
use webshot.Proxy.Forward.{parse_http_request_target, path_after, parse_absolute, parse_origin}

Misses-drop : (n : ℕ) (s : Bytes) → Misses crlf s → Misses crlf (drop n s)
Misses-drop zero s h = h
Misses-drop (suc n) [] h = tt
Misses-drop (suc n) (c ∷ s) h = Misses-drop n s h.1

Lacks-drop : (sep n : ℕ) (s : Bytes) → Lacks sep s → Lacks sep (drop n s)
Lacks-drop sep zero s h = h
Lacks-drop sep (suc n) [] h = tt
Lacks-drop sep (suc n) (c ∷ s) h = Lacks-drop sep n s h.1

Lacks-after : (sep : ℕ) (a b : Bytes) → Lacks sep (a ++ b) → Lacks sep b
Lacks-after sep [] b h = h
Lacks-after sep (c ∷ a) b h = Lacks-after sep a b h.1

path_after-IsWord :
    (lib : TextLib) (rest : Bytes)
    → Lacks b' ' rest
    → Misses crlf rest
    → (o : Option Bytes) → (cut b'/' rest).1 ≡ o
    → IsWord (path_after lib o)
path_after-IsWord lib rest p m none e = record {
  filled = refl;
  plain = ground arith;
  one_line = ground arith;
}
path_after-IsWord lib rest p m (some path) e =
    let (whole, _) = cut-some b'/' rest path e in
    record {
      filled = refl;
      plain = Lacks-after b' ' (cut b'/' rest).0 (b'/' ∷ path) (rw (← whole) p);
      one_line = (Misses-append (cut b'/' rest).0 (b'/' ∷ path) (rw (← whole) m)).1;
    }

module _ (lib : TextLib) where
  absolute-path :
      (rest : Bytes) (t : HttpRequestTarget)
      → parse_absolute lib rest ≡ ok t
      → t.path ≡ path_after lib (cut b'/' rest).1
  unfolding parse_absolute
  absolute-path rest t h = ground arith

  origin-path :
      (req : ParsedRequest) (t : HttpRequestTarget)
      → parse_origin lib req ≡ ok t
      → t.path ≡ req.target
  unfolding parse_origin
  origin-path req t h = ground arith

  pub path-IsWord :
      (req : ParsedRequest) (t : HttpRequestTarget)
      → IsWord req.target
      → parse_http_request_target lib req ≡ ok t
      → IsWord t.path
  unfolding parse_http_request_target
  path-IsWord req t w h = elim (Bool-cases (starts_with (codes "http://") req.target)) [
    | inl e ↦
        let eq = absolute-path (drop 7 req.target) t (rw e at h) in
        rw eq (
          path_after-IsWord lib (drop 7 req.target) (Lacks-drop b' ' 7 req.target w.plain)
            (Misses-drop 7 req.target w.one_line) (cut b'/' (drop 7 req.target)).1 refl)
    | inr e ↦ elim (Bool-cases (starts_with (codes "/") req.target)) [
      | inl f ↦ let eq = origin-path req t (rw (e, f) at h) in rw eq w
      | inr f ↦ absurd (ground (arith, rw (e, f) at h))
    ]
  ]
