-- ===== src/Crawl/Logs.antt =====
-- `RetainLogHeadAndTail` of webshotd/src/crawler/error.cpp: the output of a process, cut in the middle.

use webshot.Base.{
  ℕ, zero, suc, ◌+◌, ◌-◌, ◌/◌, ◌≤◌, ◌<◌, ◌≡◌, ◌==◌, false, refl, sym, ap, ◌∙◌, Bool-cases,
  if◌then◌else◌, leb, leb→le, [], ◌∷◌, ◌++◌, length, length-take, length-drop, take, drop,
  take-append-drop, ◌⊎◌, inl, inr, arith,
}
use webshot.Base.Bytes.{Bytes, codes}
use webshot.Crawl.Fallback.{ℤ, pos, negsuc}

abbrev pub skipped_marker : Bytes
skipped_marker = codes "\n...skipped...\n"

long : (a b : ℕ) → leb a b ≡ false → b < a
long a b h = ground arith

drop-nil : (m : ℕ) → drop {A = ℕ} m [] ≡ []
drop-nil zero = refl
drop-nil (suc m) = refl

drop-drop : (n m k : ℕ) (bytes : Bytes) → n + m ≡ k → drop m (drop n bytes) ≡ drop k bytes
drop-drop zero m k bytes h = ap (λ i. drop i bytes) (let e : m ≡ k = omega arith in e)
drop-drop (suc n) m zero bytes h = absurd (omega arith)
drop-drop (suc n) m (suc k) [] h = drop-nil m
drop-drop (suc n) m (suc k) (b ∷ bytes) h = drop-drop n m k bytes (omega arith)

whole :
    (n k : ℕ) (bytes : Bytes)
    → n ≤ k
    → bytes ≡ take n bytes ++ (take (k - n) (drop n bytes) ++ drop k bytes)
whole n k bytes h = rw⁻¹ (drop-drop n (k - n) k bytes (omega arith)) (
    sym (
      ap (◌++◌ (take n bytes)) (take-append-drop (k - n) (drop n bytes))
      ∙ take-append-drop n bytes))

unfoldable pub retain_log_head_and_tail : Bytes → ℤ → Bytes
retain_log_head_and_tail bytes (negsuc n) = []
retain_log_head_and_tail bytes (pos limit) =
    if limit == 0
    then []
    else if leb (length bytes) limit
    then bytes
    else (take (limit / 2) bytes ++ skipped_marker)
      ++ drop (length bytes - (limit - limit / 2)) bytes

-- The log is whole, or it lost a middle part that is marked, and kept as many bytes as the limit.
abbrev pub Retains : Bytes → ℕ → Bytes → Type 0
Retains bytes limit r =
    ((length bytes ≤ limit) × (r ≡ bytes))
    ⊎ ((head_part : Bytes) × (middle : Bytes) × (tail_part : Bytes) × (bytes
          ≡ head_part ++ (middle ++ tail_part))
        × (r ≡ (head_part ++ skipped_marker) ++ tail_part)
        × (length head_part + length tail_part ≡ limit)
        × (limit < length bytes))

-- A log is kept whole if it is within the limit, which is above zero. Otherwise its first and its last
-- bytes are kept, as many as the limit together, around a marker for what is left out between them.
pub retain_log_head_and_tail-Retains :
    (bytes : Bytes) (limit : ℕ)
    → 0 < limit
    → Retains bytes limit (retain_log_head_and_tail bytes (pos limit))
unfolding retain_log_head_and_tail
retain_log_head_and_tail-Retains bytes limit h = elim (Bool-cases (leb (length bytes) limit)) [
  | inl e ↦ inl (leb→le (length bytes) limit e, ground arith)
  | inr e ↦
      let n = limit / 2 in
      let k = length bytes - (limit - limit / 2) in
      inr (
        take n bytes,
        take (k - n) (drop n bytes),
        drop k bytes,
        whole n k bytes (let l = long (length bytes) limit e in omega arith),
        ground arith,
        omega (arith, length-take n bytes, length-drop k bytes, long (length bytes) limit e),
        long (length bytes) limit e,
      )
]
