-- ===== src/Base/Sorting.antt =====
-- Sorting by a strict total order, as `std::ranges::sort` and SQL's `order by` do where no two keys
-- are equal.
use mathlib.Core.Path.{◌≡◌, refl, sym, ap, ◌∙◌}
use mathlib.Core.Bool.{Bool, true, false, false≢true}
use mathlib.Core.List.{List, [], ◌∷◌, ◌++◌, reverse, reverse-cons}
use mathlib.Core.Logic.{inl, inr}
use native.Mathlib.Omega.{arith}
use webshot.Base.Tests.{if◌then◌else◌, Bool-cases}
use webshot.Base.Lists.{keep, All, All-append, All-keep}

pub record StrictOrder {ℓ} (A : Type ℓ) : Type ℓ where
  pub before : A → A → Bool
  pub irrefl : (a : A) → before a a ≡ false
  pub trans : (a b c : A) → before a b ≡ true → before b c ≡ true → before a c ≡ true
  pub total : (a b : A) → before a b ≡ false → before b a ≡ false → a ≡ b

-- The same order read backwards, as `desc` for `asc`.
abbrev pub flip {ℓ} : {A : Type ℓ} → StrictOrder A → StrictOrder A
flip o = record {
  before = λ a b. o.before b a;
  irrefl = o.irrefl;
  trans = λ a b c p q. o.trans c b a q p;
  total = λ a b p q. o.total a b q p;
}

module _ {ℓ} {A : Type ℓ} (o : StrictOrder A) where
  abbrev pub insert : A → List A → List A
  insert x [] = x ∷ []
  insert x (y ∷ ys) = if o.before x y then x ∷ y ∷ ys else y ∷ insert x ys

  abbrev pub sort : List A → List A
  sort [] = []
  sort (x ∷ xs) = insert x (sort xs)

  -- Each item stands before all that follow it.
  abbrev pub IsSorted : List A → Type ℓ
  IsSorted [] = Unit
  IsSorted (x ∷ xs) = All (λ y. o.before x y ≡ true) xs × IsSorted xs

  -- No two items are equal.
  abbrev pub IsDistinct : List A → Type ℓ
  IsDistinct [] = Unit
  IsDistinct (x ∷ xs) = All (λ y. x ≡ y → ⊥) xs × IsDistinct xs

  All-insert {κ} : (P : A → Type κ) (x : A) (s : List A) → P x → All P s → All P (insert x s)
  All-insert P x [] px h = (px, tt)
  All-insert P x (y ∷ ys) px h = elim (Bool-cases (o.before x y)) [
    | inl e ↦ rw e (px, h)
    | inr e ↦ rw e (h.0, All-insert P x ys px h.1)
  ]

  pub All-sort {κ} : (P : A → Type κ) (l : List A) → All P l → All P (sort l)
  All-sort P [] h = tt
  All-sort P (x ∷ xs) h = All-insert P x (sort xs) h.0 (All-sort P xs h.1)

  pub before-All :
      (x y : A) (s : List A)
      → o.before x y ≡ true
      → All (λ z. o.before y z ≡ true) s
      → All (λ z. o.before x z ≡ true) s
  before-All x y [] e h = tt
  before-All x y (z ∷ s) e h = (o.trans x y z e h.0, before-All x y s e h.1)

  before_flip : (x y : A) → o.before x y ≡ false → (x ≡ y → ⊥) → o.before y x ≡ true
  before_flip x y e ne = elim (Bool-cases (o.before y x)) [
    | inl h ↦ h
    | inr h ↦ absurd (ne (o.total x y e h))
  ]

  insert-IsSorted :
      (x : A) (s : List A) → All (λ y. x ≡ y → ⊥) s → IsSorted s → IsSorted (insert x s)
  insert-IsSorted x [] ne h = (tt, tt)
  insert-IsSorted x (y ∷ ys) ne h = elim (Bool-cases (o.before x y)) [
    | inl e ↦ rw e ((e, before-All x y ys e h.0), h)
    | inr e ↦ rw e (
      All-insert (λ z. o.before y z ≡ true) x ys (before_flip x y e ne.0) h.0,
      insert-IsSorted x ys ne.1 h.1,
    )
  ]

  pub before_asym : (x y : A) → o.before x y ≡ true → o.before y x ≡ false
  before_asym x y h = elim (Bool-cases (o.before y x)) [
    | inl e ↦ absurd (false≢true (sym (o.irrefl x) ∙ o.trans x y x h e))
    | inr e ↦ e
  ]

  insert_after :
      (x y : A) (s : List A) → o.before x y ≡ true → insert x (insert y s) ≡ insert y (insert x s)
  insert_after x y [] h = rw (h, before_asym x y h) refl
  insert_after x y (z ∷ s) h = elim (Bool-cases (o.before y z)) [
    | inl b ↦ rw (b, o.trans x y z h b) (rw (h, before_asym x y h) (rw b refl))
    | inr b ↦ elim (Bool-cases (o.before x z)) [
      | inl a ↦ rw (b, a) (rw (before_asym x y h) (rw b refl))
      | inr a ↦ rw (b, a) (rw b (ap (◌∷◌ z) (insert_after x y s h)))
    ]
  ]

  -- Insertions may change places.
  pub insert-insert : (x y : A) (s : List A) → insert x (insert y s) ≡ insert y (insert x s)
  insert-insert x y s = elim (Bool-cases (o.before x y)) [
    | inl h ↦ insert_after x y s h
    | inr h ↦ elim (Bool-cases (o.before y x)) [
      | inl k ↦ sym (insert_after y x s k)
      | inr k ↦
          let e = o.total x y h k in
          ap (λ u. insert u (insert y s)) e ∙ ap (λ u. insert y (insert u s)) (sym e)
    ]
  ]

  -- Sorting distinct items gives a strictly sorted list.
  pub sort-IsSorted : (l : List A) → IsDistinct l → IsSorted (sort l)
  sort-IsSorted [] d = tt
  sort-IsSorted (x ∷ xs) d =
      insert-IsSorted x (sort xs) (All-sort (λ y. x ≡ y → ⊥) xs d.0) (sort-IsSorted xs d.1)

  insert-least : (x : A) (s : List A) → All (λ y. o.before x y ≡ true) s → insert x s ≡ x ∷ s
  insert-least x [] h = refl
  insert-least x (y ∷ ys) h = rw h.0

  keep-insert :
      (p : A → Bool) (x : A) (s : List A)
      → IsSorted s
      → keep p (insert x s) ≡ (if p x then insert x (keep p s) else keep p s)
  keep-insert p x [] h = refl
  keep-insert p x (y ∷ ys) h = elim (Bool-cases (o.before x y)) [
    | inl e ↦
        let low = All-keep (λ z. o.before x z ≡ true) p (y ∷ ys) (e, before-All x y ys e h.0) in
        ground (arith, insert-least x (keep p (y ∷ ys)) low)
    | inr e ↦ ground (arith, keep-insert p x ys h.1)
  ]

  pub IsDistinct-keep : (p : A → Bool) (l : List A) → IsDistinct l → IsDistinct (keep p l)
  IsDistinct-keep p [] d = tt
  IsDistinct-keep p (x ∷ xs) d = elim (Bool-cases (p x)) [
    | inl e ↦ rw e (All-keep (λ y. x ≡ y → ⊥) p xs d.0, IsDistinct-keep p xs d.1)
    | inr e ↦ rw e (IsDistinct-keep p xs d.1)
  ]

  -- `where` and `order by` commute.
  pub sort-keep : (p : A → Bool) (l : List A) → IsDistinct l → sort (keep p l) ≡ keep p (sort l)
  sort-keep p [] d = refl
  sort-keep p (x ∷ xs) d =
      ground (arith, sort-keep p xs d.1, keep-insert p x (sort xs) (sort-IsSorted xs d.1))

module _ {ℓ} {A : Type ℓ} (o : StrictOrder A) where
  insert-greatest :
      (x : A) (s : List A) → All (λ y. o.before x y ≡ false) s → insert o x s ≡ s ++ x ∷ []
  insert-greatest x [] h = refl
  insert-greatest x (y ∷ ys) h = rw h.0 (ap (◌∷◌ y) (insert-greatest x ys h.1))

  insert-concat :
      (x y : A) (s : List A)
      → o.before x y ≡ true
      → insert o x (s ++ y ∷ []) ≡ insert o x s ++ y ∷ []
  insert-concat x y [] e = rw e
  insert-concat x y (z ∷ s) e = elim (Bool-cases (o.before x z)) [
    | inl h ↦ rw h
    | inr h ↦ rw h (ap (◌∷◌ z) (insert-concat x y s e))
  ]

  before-flip : (x y : A) → o.before x y ≡ true → o.before y x ≡ false
  before-flip x y e = elim (Bool-cases (o.before y x)) [
    | inl h ↦ absurd (false≢true (sym (o.irrefl x) ∙ o.trans x y x e h))
    | inr h ↦ h
  ]

  All-flip :
      (x : A) (s : List A) → All (λ y. o.before x y ≡ true) s → All (λ y. o.before y x ≡ false) s
  All-flip x [] h = tt
  All-flip x (y ∷ s) h = (before-flip x y h.0, All-flip x s h.1)

pub All-reverse {ℓ κ} : {A : Type ℓ} (P : A → Type κ) (l : List A) → All P l → All P (reverse l)
All-reverse P [] h = tt
All-reverse P (x ∷ xs) h =
    rw (reverse-cons x xs) (All-append P (reverse xs) (x ∷ []) (All-reverse P xs h.1) (h.0, tt))

module _ {ℓ} {A : Type ℓ} (o : StrictOrder A) where
  insert-flip :
      (x : A) (s : List A)
      → All (λ y. x ≡ y → ⊥) s
      → IsSorted o s
      → insert (flip o) x (reverse s) ≡ reverse (insert o x s)
  insert-flip x [] ne h = refl
  insert-flip x (y ∷ ys) ne h = elim (Bool-cases (o.before x y)) [
    | inl e ↦
        rw (e, reverse-cons x (y ∷ ys))
          (insert-greatest (flip o) x (reverse (y ∷ ys)) (
            All-reverse (λ z. o.before z x ≡ false) (y ∷ ys)
              (All-flip o x (y ∷ ys) (e, before-All o x y ys e h.0))))
    | inr e ↦
        rw (e, reverse-cons y ys, reverse-cons y (insert o x ys))
          (insert-concat (flip o) x y (reverse ys) (before_flip o x y e ne.0)
            ∙ ap (λ l. l ++ y ∷ []) (insert-flip x ys ne.1 h.1))
  ]

  -- `order by` with every direction turned round gives the same rows, last first.
  pub sort-flip : (l : List A) → IsDistinct o l → sort (flip o) l ≡ reverse (sort o l)
  sort-flip [] d = refl
  sort-flip (x ∷ xs) d =
      ap (insert (flip o) x) (sort-flip xs d.1)
      ∙ insert-flip x (sort o xs) (All-sort o (λ y. x ≡ y → ⊥) xs d.0) (sort-IsSorted o xs d.1)

  -- What stands behind an item of a sorted list, and what stands before it.
  pub keep-after : (c : A) (s : List A) → All (λ y. o.before c y ≡ true) s → keep (o.before c) s ≡ s
  keep-after c [] h = refl
  keep-after c (x ∷ xs) h = rw h.0 (ap (◌∷◌ x) (keep-after c xs h.1))

  keep-none :
      (c : A) (s : List A) → All (λ y. o.before c y ≡ true) s → keep (λ x. o.before x c) s ≡ []
  keep-none c [] h = refl
  keep-none c (x ∷ xs) h = rw (before-flip o c x h.0) (keep-none c xs h.1)

  pub keep-split_after :
      (a : List A) (c : A) (b : List A)
      → IsSorted o (a ++ c ∷ b)
      → keep (o.before c) (a ++ c ∷ b) ≡ b
  keep-split_after [] c b h = rw (o.irrefl c) (keep-after c b h.0)
  keep-split_after (x ∷ a) c b h =
      rw (before-flip o x c (middle x a c b h.0)) (keep-split_after a c b h.1)
    where
      middle :
          (x : A) (a : List A) (c : A) (b : List A)
          → All (λ y. o.before x y ≡ true) (a ++ c ∷ b)
          → o.before x c ≡ true
      middle x [] c b h = h.0
      middle x (y ∷ a) c b h = middle x a c b h.1

  pub keep-split_before :
      (a : List A) (c : A) (b : List A)
      → IsSorted o (a ++ c ∷ b)
      → keep (λ x. o.before x c) (a ++ c ∷ b) ≡ a
  keep-split_before [] c b h = rw (o.irrefl c) (keep-none c b h.0)
  keep-split_before (x ∷ a) c b h =
      rw (middle x a c b h.0) (ap (◌∷◌ x) (keep-split_before a c b h.1))
    where
      middle :
          (x : A) (a : List A) (c : A) (b : List A)
          → All (λ y. o.before x y ≡ true) (a ++ c ∷ b)
          → o.before x c ≡ true
      middle x [] c b h = h.0
      middle x (y ∷ a) c b h = middle x a c b h.1
