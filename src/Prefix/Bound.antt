-- ===== src/Prefix/Bound.antt =====
-- `UpperExclusiveBound` of webshotd/src/prefix_pagination.cpp: the range scan
-- `link >= prefix and link < bound` of the prefix queries.
use mathlib.Core.List.{reverse-cons, append_assoc, reverse-reverse}
use webshot.Base.{
  ℕ, ◌+◌, ◌<◌, ◌≡◌, refl, ◌∙◌, sym, false, not, ◌&&◌, ltb, if◌then◌else◌, Bool-cases, [], ◌∷◌, ◌++◌,
  reverse, Option, none, some, All, All-append, inl, inr, arith,
}
use webshot.Base.Sorting.{All-reverse}
use webshot.Base.Bytes.{Bytes, lex, starts_with}

-- The loop runs from the last byte down; here the list is reversed.
unfoldable pub bump : Bytes → Option Bytes
bump [] = none
bump (c ∷ cs) = if ltb c 255 then some ((c + 1) ∷ cs) else bump cs

unfoldable pub upper_exclusive_bound : Bytes → Bytes
unfolding bump
upper_exclusive_bound s = elim (bump (reverse s)) [ none ↦ s | some r ↦ reverse r ]

abbrev pub IsBytes : Bytes → Type 0
IsBytes = All (λ c. c < 256)

abbrev pub IsTop : Bytes → Type 0
IsTop = All (λ c. c ≡ 255)

starts_with-IsTop : (f : Bytes) (t : Bytes) → IsTop f → IsBytes t → not (lex t f) ≡ starts_with f t
starts_with-IsTop [] [] h b = refl
starts_with-IsTop [] (y ∷ t) h b = refl
starts_with-IsTop (x ∷ f) [] h b = refl
starts_with-IsTop (x ∷ f) (y ∷ t) h b = ground (arith, starts_with-IsTop f t h.1 b.1)

lex-nil : (t : Bytes) → lex t [] ≡ false
lex-nil [] = refl
lex-nil (y ∷ t) = refl

in_range :
    (a : Bytes) (c : ℕ) (f : Bytes) (t : Bytes)
    → IsTop f
    → IsBytes t
    → (not (lex t (a ++ c ∷ f)) && lex t (a ++ (c + 1) ∷ [])) ≡ starts_with (a ++ c ∷ f) t
in_range [] c f [] h b = refl
in_range [] c f (y ∷ t) h b = ground (arith, starts_with-IsTop f t h b.1, lex-nil t)
in_range (x ∷ a) c f [] h b = refl
in_range (x ∷ a) c f (y ∷ t) h b = ground (arith, in_range a c f t h b.1)

bump-split :
    (r r' : Bytes)
    → IsBytes r
    → bump r ≡ some r'
    → (a : Bytes) × (c : ℕ) × (f : Bytes) × (reverse r ≡ a ++ c ∷ f)
      × IsTop f
      × (reverse r' ≡ a ++ (c + 1) ∷ [])
unfolding bump
bump-split [] r' b e = cc
bump-split (c ∷ cs) r' b e = elim (Bool-cases (ltb c 255)) [
  | inl low ↦
      let same : (c + 1) ∷ cs ≡ r' = ground arith in
      (reverse cs, c, [], reverse-cons c cs, tt, rw (← same) (reverse-cons (c + 1) cs))
  | inr top ↦
      let (a, d, f, whole, all_top, bumped) = bump-split cs r' b.1 (rw top at e) in
      (
        a,
        d,
        f ++ c ∷ [],
        rw (reverse-cons c cs, whole) (append_assoc a (d ∷ f) (c ∷ [])),
        All-append (λ x. x ≡ 255) f (c ∷ []) all_top (ground arith, tt),
        bumped,
      )
]

bump-none : (r : Bytes) → IsBytes r → bump r ≡ none → IsTop r
unfolding bump
bump-none [] b e = tt
bump-none (c ∷ cs) b e = ground (arith, bump-none cs b.1)

upper-some : (s r : Bytes) → bump (reverse s) ≡ some r → upper_exclusive_bound s ≡ reverse r
unfolding upper_exclusive_bound
upper-some s r e = rw (e, upper_exclusive_bound)

in_bound :
    (s t r a : Bytes) (c : ℕ) (f : Bytes)
    → bump (reverse s) ≡ some r
    → reverse (reverse s) ≡ a ++ c ∷ f
    → IsTop f
    → IsBytes t
    → reverse r ≡ a ++ (c + 1) ∷ []
    → (not (lex t s) && lex t (upper_exclusive_bound s)) ≡ starts_with s t
in_bound s t r a c f e whole top bt bumped =
    rw (upper-some s r e ∙ bumped, sym (reverse-reverse s) ∙ whole) (in_range a c f t top bt)

-- The bound is the end of the prefix: of all byte strings, exactly those that start with `s` are not
-- below `s` and below the bound, if some byte of `s` is not 0xFF.
upper_exclusive_bound-starts_with :
    (s t : Bytes)
    → IsBytes s
    → IsBytes t
    → ¬ IsTop s
    → (not (lex t s) && lex t (upper_exclusive_bound s)) ≡ starts_with s t
upper_exclusive_bound-starts_with s t bs bt below = go (bump (reverse s)) refl
  where
    go :
        (o : Option Bytes)
        → bump (reverse s) ≡ o
        → (not (lex t s) && lex t (upper_exclusive_bound s)) ≡ starts_with s t
    go none e = absurd (
        below (
          rw reverse-reverse at (
            All-reverse (λ c. c ≡ 255) (reverse s)
              (bump-none (reverse s) (All-reverse (λ c. c < 256) s bs) e))))
    go (some r) e =
        let (a, c, f, whole, top, bumped) =
          bump-split (reverse s) r (All-reverse (λ c. c < 256) s bs) e in
        in_bound s t r a c f e whole top bt bumped
