-- ===== src/Base/Splitting.antt =====
-- Splitting text at a separator and joining it again, as the loops over `std::string::find` do.
use mathlib.Core.List.{append_assoc}
use Prim.Native.Nat.{ℕ}
use mathlib.Core.Path.{◌≡◌, refl, ap}
use mathlib.Core.Logic.{◌≢◌}
use mathlib.Core.Option.{Option, none, some}
use mathlib.Core.List.{List, [], ◌∷◌, ◌++◌}
use native.Mathlib.Omega.{arith}
use webshot.Base.Tests.{◌==◌, if◌then◌else◌}
use webshot.Base.Lists.{All}
use webshot.Base.Bytes.{Bytes}

abbrev pub push_front : ℕ → List Bytes → List Bytes
push_front c [] = (c ∷ []) ∷ []
push_front c (w ∷ ws) = (c ∷ w) ∷ ws

-- All pieces between separators; one piece, the whole, where there is no separator.
unfoldable pub split : ℕ → Bytes → List Bytes
split sep [] = [] ∷ []
split sep (c ∷ cs) = if c == sep then [] ∷ split sep cs else push_front c (split sep cs)

-- The text in front of the first separator, and what follows it, if there is one.
unfoldable pub cut : ℕ → Bytes → Bytes × Option Bytes
cut sep [] = ([], none)
cut sep (c ∷ cs) = if c == sep then ([], some cs) else (c ∷ (cut sep cs).0, (cut sep cs).1)

unfoldable pub join : ℕ → List Bytes → Bytes
join sep [] = []
join sep (w ∷ []) = w
join sep (w ∷ v ∷ ws) = w ++ sep ∷ join sep (v ∷ ws)

abbrev pub Lacks : ℕ → Bytes → Type 0
Lacks sep = All (λ c. c ≢ sep)

-- Each piece behind a separator.
unfoldable pub led : ℕ → List Bytes → Bytes
led sep [] = []
led sep (w ∷ ws) = sep ∷ (w ++ led sep ws)

pub split-led :
    (sep : ℕ) (w : Bytes) (ws : List Bytes)
    → Lacks sep w
    → All (Lacks sep) ws
    → split sep (w ++ led sep ws) ≡ w ∷ ws
unfolding split led
split-led sep [] [] h hs = refl
split-led sep [] (v ∷ ws) h hs = ground (arith, split-led sep v ws hs.0 hs.1)
split-led sep (c ∷ w) ws h hs = ground (arith, split-led sep w ws h.1 hs)

pub led-append : (sep : ℕ) (a b : List Bytes) → led sep (a ++ b) ≡ led sep a ++ led sep b
unfolding led
led-append sep [] b = refl
led-append sep (w ∷ a) b = ap (◌∷◌ sep) (simp (led-append sep a b, append_assoc))

pub split_plain : (sep : ℕ) (w : Bytes) → Lacks sep w → split sep w ≡ w ∷ []
unfolding split
split_plain sep [] h = refl
split_plain sep (c ∷ w) h = ground (arith, split_plain sep w h.1)

pub split-append :
    (sep : ℕ) (w rest : Bytes) → Lacks sep w → split sep (w ++ sep ∷ rest) ≡ w ∷ split sep rest
unfolding split
split-append sep [] rest h = ground arith
split-append sep (c ∷ w) rest h = ground (arith, split-append sep w rest h.1)

pub cut-append :
    (sep : ℕ) (w rest : Bytes) → Lacks sep w → cut sep (w ++ sep ∷ rest) ≡ (w, some rest)
unfolding cut
cut-append sep [] rest h = ground arith
cut-append sep (c ∷ w) rest h = ground (arith, cut-append sep w rest h.1)

-- Where a separator is found, the text is put together again from the two parts.
pub cut-some :
    (sep : ℕ) (s rest : Bytes)
    → (cut sep s).1 ≡ some rest
    → (s ≡ (cut sep s).0 ++ sep ∷ rest) × Lacks sep (cut sep s).0
unfolding cut
cut-some sep [] rest h = cc
cut-some sep (c ∷ cs) rest h = ground (arith, cut-some sep cs rest)
