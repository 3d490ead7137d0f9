-- ===== src/Proxy/Request/Lines.antt =====
-- Texts made of lines that end in CR LF: how the searches of the parser take them apart.
use mathlib.Core.List.{append_assoc, append-nil}
use webshot.Base.{
  ℕ, ◌≡◌, refl, ap, sym, ◌∙◌, ◌==◌, ◌&&◌, Bool, true, false, Bool-cases, Option-cases, null, List,
  [], ◌∷◌, ◌++◌, Option, some, All, inl, inr, arith,
}
use webshot.Base.Bytes.{Bytes, starts_with}
use webshot.Proxy.Request.{crlf, crlf2, put_front, around}

-- The text does not occur at any place.
abbrev pub Misses : Bytes → Bytes → Type 0
Misses text [] = Unit
Misses text (c ∷ cs) = (starts_with text (c ∷ cs) ≡ false) × Misses text cs

abbrev pub prepend : Bytes → Option (Bytes × Bytes) → Option (Bytes × Bytes)
prepend [] o = o
prepend (c ∷ cs) o = put_front c (prepend cs o)

pub prepend_lem :
    (l before after : Bytes) → prepend l (some (before, after)) ≡ some (l ++ before, after)
prepend_lem [] before after = refl
prepend_lem (c ∷ l) before after = ap (put_front c) (prepend_lem l before after)

pub around_line :
    (l rest : Bytes) → Misses crlf l → around crlf (l ++ (crlf ++ rest)) ≡ some (l, rest)
unfolding around
around_line [] rest h = refl
around_line (c ∷ []) rest h = ground arith
around_line (c ∷ d ∷ l) rest h = rw (h.0, around_line (d ∷ l) rest h.1) refl

abbrev IsLine : Bytes → Bytes → Bytes → Type 0
IsLine s before after = (s ≡ before ++ (crlf ++ after)) × Misses crlf before

cons-IsLine :
    (c : ℕ) (s before after : Bytes)
    → starts_with crlf (c ∷ s) ≡ false
    → IsLine s before after
    → IsLine (c ∷ s) (c ∷ before) after
cons-IsLine c s [] after h (e, m) = (ap (◌∷◌ c) e, (ground arith, tt))
cons-IsLine c [] (d ∷ before) after h (e, m) = cc
cons-IsLine c (x ∷ s) (d ∷ before) after h (e, m) = (ap (◌∷◌ c) e, (ground arith, m))

-- What the search for a line finds.
pub around-crlf :
    (s before after : Bytes) → around crlf s ≡ some (before, after) → IsLine s before after
unfolding around
around-crlf [] before after h = cc
around-crlf (c ∷ []) before after h = ground arith
around-crlf (c ∷ d ∷ s) before after h = elim (Bool-cases (starts_with crlf (c ∷ d ∷ s))) [
  | inl e ↦ ground arith
  | inr e ↦ elim (Option-cases (around crlf (d ∷ s))) [
    | inl n ↦ ground arith
    | inr ((b, a), f) ↦
        let p : before ≡ c ∷ b = ground arith in
        let q : after ≡ a = ground arith in
        rw (p, q) (cons-IsLine c (d ∷ s) b a e (around-crlf (d ∷ s) b a f))
  ]
]

pub Misses-append : (a b : Bytes) → Misses crlf (a ++ b) → Misses crlf a × Misses crlf b
Misses-append [] b h = (tt, h)
Misses-append (c ∷ []) b h = ((ground arith, tt), h.1)
Misses-append (c ∷ d ∷ a) b h = let (l, r) = Misses-append (d ∷ a) b h.1 in ((h.0, l), r)

-- Pieces joined by a byte that is neither CR nor LF.
pub Misses-join :
    (a b : Bytes) (c : ℕ)
    → (c == 13) ≡ false
    → (c == 10) ≡ false
    → Misses crlf a
    → Misses crlf b
    → Misses crlf (a ++ c ∷ b)
Misses-join [] b c hc hd ha hb = (ground arith, hb)
Misses-join (d ∷ []) b c hc hd ha hb = (ground arith, (ground arith, hb))
Misses-join (d ∷ e ∷ a) b c hc hd ha hb = (ha.0, Misses-join (e ∷ a) b c hc hd ha.1 hb)

no_break :
    (c d : ℕ) (x : Bool)
    → (13 == c && (10 == d && true)) ≡ false
    → (13 == c && (10 == d && x)) ≡ false
no_break c d x h = ground arith

-- The search for an empty line passes over a line,
around2_line :
    (l rest : Bytes)
    → Misses crlf l
    → around crlf2 (l ++ (crlf ++ rest)) ≡ prepend l (around crlf2 (crlf ++ rest))
unfolding around
around2_line [] rest h = refl
around2_line (c ∷ []) rest h = ground arith
around2_line (c ∷ d ∷ l) rest h =
    rw (no_break c d (starts_with crlf (l ++ (crlf ++ rest))) h.0)
      (ap (put_front c) (around2_line (d ∷ l) rest h.1))

-- and over a line break that no empty line follows.
around2_break :
    (c : ℕ) (l rest : Bytes)
    → Misses crlf (c ∷ l)
    → around crlf2 (crlf ++ ((c ∷ l) ++ (crlf ++ rest)))
      ≡ prepend crlf (around crlf2 ((c ∷ l) ++ (crlf ++ rest)))
unfolding around
around2_break c [] rest h = ground arith
around2_break c (d ∷ l) rest h = rw h.0 refl

-- Lines, each with its line break.
abbrev pub lined : List Bytes → Bytes
lined [] = []
lined (l ∷ ls) = l ++ (crlf ++ lined ls)

abbrev pub IsHeaderLine : Bytes → Type 0
IsHeaderLine l = (null l ≡ false) × Misses crlf l

-- Lines with line breaks between them.
abbrev between : Bytes → List Bytes → Bytes
between l [] = l
between l (m ∷ ls) = l ++ (crlf ++ between m ls)

pub lined_lem :
    (l : Bytes) (ls : List Bytes) → lined (l ∷ ls) ++ crlf ≡ l ++ (crlf ++ (lined ls ++ crlf))
lined_lem l ls = append_assoc l (crlf ++ lined ls) crlf

around2_lined :
    (l : Bytes) (ls : List Bytes)
    → Misses crlf l
    → All IsHeaderLine ls
    → around crlf2 (lined (l ∷ ls) ++ crlf) ≡ some (between l ls, [])
unfolding around
around2_lined l [] h hs =
    ap (around crlf2) (lined_lem l [])
    ∙ around2_line l crlf h
    ∙ prepend_lem l [] []
    ∙ ap (λ (b : Bytes). some (b, [])) (append-nil l)
around2_lined l ([] ∷ ls) h hs = cc
around2_lined l ((c ∷ m) ∷ ls) h hs =
    ap (around crlf2)
      (lined_lem l ((c ∷ m) ∷ ls) ∙ ap (λ (t : Bytes). l ++ (crlf ++ t)) (lined_lem (c ∷ m) ls))
    ∙ around2_line l ((c ∷ m) ++ (crlf ++ (lined ls ++ crlf))) h
    ∙ ap (prepend l) (
        around2_break c m (lined ls ++ crlf) hs.0.1
        ∙ ap (λ (t : Bytes). prepend crlf (around crlf2 t)) (sym (lined_lem (c ∷ m) ls))
        ∙ ap (prepend crlf) (around2_lined (c ∷ m) ls hs.0.1 hs.1))
    ∙ prepend_lem l (crlf ++ between (c ∷ m) ls) []

between-lined : (l : Bytes) (ls : List Bytes) → between l ls ++ crlf2 ≡ lined (l ∷ ls) ++ crlf
between-lined l [] = sym (append_assoc l crlf crlf)
between-lined l (m ∷ ls) =
    append_assoc l (crlf ++ between m ls) crlf2
    ∙ ap (λ (t : Bytes). l ++ (crlf ++ t)) (between-lined m ls)
    ∙ sym (lined_lem l (m ∷ ls))

-- Lines with an empty line behind them are one header block, with nothing behind it.
pub around2_block :
    (l : Bytes) (ls : List Bytes)
    → Misses crlf l
    → All IsHeaderLine ls
    → (part : Bytes) × (around crlf2 (lined (l ∷ ls) ++ crlf) ≡ some (part, []))
      × (part ++ crlf2 ≡ lined (l ∷ ls) ++ crlf)
around2_block l ls h hs = (between l ls, around2_lined l ls h hs, between-lined l ls)
