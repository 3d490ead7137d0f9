-- ===== src/Base/Reordering.antt =====
-- Lists with the same items, each as often, in another order.
use mathlib.Core.Path.{◌≡◌, refl, ap, ◌∙◌}
use mathlib.Core.List.{List, [], ◌∷◌, map, Permᴰ}
use mathlib.Core.List.Permᴰ
use mathlib.Core.List.Permᴰ.{nil, cons, swap, trans}
use mathlib.Core.Logic.{inl, inr}
use webshot.Base.Tests.{Bool-cases}
use webshot.Base.Sorting.{StrictOrder, sort, insert, insert-insert}

module _ {ℓ} {A : Type ℓ} (o : StrictOrder A) where
  insert-Permᴰ : (x : A) (s : List A) → Permᴰ (x ∷ s) (insert o x s)
  insert-Permᴰ x [] = Permᴰ.refl (x ∷ [])
  insert-Permᴰ x (y ∷ ys) = elim (Bool-cases (o.before x y)) [
    | inl e ↦ rw e (Permᴰ.refl (x ∷ y ∷ ys))
    | inr e ↦ rw e (trans (swap refl refl) (cons refl (insert-Permᴰ x ys)))
  ]

  pub sort-Permᴰ : (xs : List A) → Permᴰ xs (sort o xs)
  sort-Permᴰ [] = nil
  sort-Permᴰ (x ∷ xs) = trans (cons refl (sort-Permᴰ xs)) (insert-Permᴰ x (sort o xs))

  -- Sorting forgets the order.
  pub Permᴰ-sort : {xs ys : List A} → Permᴰ xs ys → sort o xs ≡ sort o ys
  Permᴰ-sort nil = refl
  Permᴰ-sort (cons {a = a} {l₂ = l} e r) =
      ap (insert o a) (Permᴰ-sort r) ∙ ap (λ x. insert o x (sort o l)) e
  Permᴰ-sort (swap {a = a} {b = b} {a' = a'} {l = l} e f) =
      insert-insert o a b (sort o l)
      ∙ ap (λ x. insert o x (insert o a (sort o l))) f
      ∙ ap (λ x. insert o a' (insert o x (sort o l))) e
  Permᴰ-sort (trans r s) = Permᴰ-sort r ∙ Permᴰ-sort s

module _ {ℓ κ} {A : Type ℓ} {B : Type κ} (f : A → B) where
  -- A reordering of images is the image of a reordering.
  pub Permᴰ-map_inverse :
      {bs cs : List B}
      → Permᴰ bs cs
      → (xs : List A) → bs ≡ map f xs
      → (ys : List A) × Permᴰ xs ys × (cs ≡ map f ys)
  Permᴰ-map_inverse nil [] h = ([], nil, refl)
  Permᴰ-map_inverse nil (x ∷ xs) h = absurd (cc)
  Permᴰ-map_inverse (cons e r) [] h = absurd (cc)
  Permᴰ-map_inverse (cons e r) (x ∷ xs) h =
      let (ys, q, k) = Permᴰ-map_inverse r xs (cc) in (x ∷ ys, cons refl q, cc)
  Permᴰ-map_inverse (swap e g) [] h = absurd (cc)
  Permᴰ-map_inverse (swap e g) (x ∷ []) h = absurd (cc)
  Permᴰ-map_inverse (swap e g) (x ∷ y ∷ xs) h = (y ∷ x ∷ xs, swap refl refl, cc)
  Permᴰ-map_inverse (trans r s) xs h =
      let (ys, q, e) = Permᴰ-map_inverse r xs h in
      let (zs, t, e') = Permᴰ-map_inverse s ys e in (zs, trans q t, e')
