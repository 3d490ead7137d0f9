-- ===== src/Crawl/Store/Purge/Rows.antt =====
-- The rows that one round of the purge selects, and the rows that it leaves.
use webshot.Base.{
  ℕ, zero, suc, ◌≤◌, ◌<◌, ◌≡◌, refl, ap, Bool, true, false, not, ◌==◌, if◌then◌else◌, Bool-cases,
  List, [], ◌∷◌, map, any, keep, take, length, All, All-keep, inl, inr, arith,
}
use webshot.Base.Bytes.{Bytes}
use webshot.Base.Sorting.{sort, All-sort}
use webshot.Captures.{Capture, to_row}
use webshot.Captures.Rows.{Row, newest_first}
use webshot.Crawl.Store.Purge.{is_below}

-- The primary key.
abbrev pub HasUniqueIds : List Capture → Type 0
HasUniqueIds [] = Unit
HasUniqueIds (c ∷ t) = All (λ d. (c.uuid == d.uuid) ≡ false) t × HasUniqueIds t

-- Whichever row has the id is below the prefix.
abbrev pub IsPurgeable : List Bytes → List Capture → ℕ → Type 0
IsPurgeable tree t id = All (λ c. (c.uuid == id) ≡ true → is_below tree c ≡ true) t

abbrev pub spared : List Bytes → List Capture → List Capture
spared tree t = keep (λ c. not (is_below tree c)) t

abbrev pub others : ℕ → List Capture → List Capture
others id t = keep (λ c. not (any (λ i. c.uuid == i) (id ∷ []))) t

pub spared-others :
    (tree : List Bytes) (id : ℕ) (t : List Capture)
    → IsPurgeable tree t id
    → spared tree (others id t) ≡ spared tree t
spared-others tree id [] h = refl
spared-others tree id (c ∷ t) h = elim (Bool-cases (c.uuid == id)) [
  | inl e ↦ rw (e, h.0 e) (spared-others tree id t h.1)
  | inr e ↦ rw e (elim (Bool-cases (is_below tree c)) [
    | inl b ↦ rw b (spared-others tree id t h.1)
    | inr b ↦ rw b (ap (◌∷◌ c) (spared-others tree id t h.1))
  ])
]

pub HasUniqueIds-keep :
    (p : Capture → Bool) (t : List Capture) → HasUniqueIds t → HasUniqueIds (keep p t)
HasUniqueIds-keep p [] h = tt
HasUniqueIds-keep p (c ∷ t) h = elim (Bool-cases (p c)) [
  | inl e ↦ rw e (All-keep (λ d. (c.uuid == d.uuid) ≡ false) p t h.0, HasUniqueIds-keep p t h.1)
  | inr e ↦ rw e (HasUniqueIds-keep p t h.1)
]

rows-other :
    (p : Capture → Bool) (id : ℕ) (t : List Capture)
    → All (λ d. (id == d.uuid) ≡ false) t
    → All (λ r. (id == r.uuid) ≡ false) (map to_row (keep p t))
rows-other p id [] h = tt
rows-other p id (c ∷ t) h = elim (Bool-cases (p c)) [
  | inl e ↦ rw e (h.0, rows-other p id t h.1)
  | inr e ↦ rw e (rows-other p id t h.1)
]

IsPurgeable-cons :
    (tree : List Bytes) (c : Capture) (t : List Capture) (rs : List Row)
    → All (λ r. (c.uuid == r.uuid) ≡ false) rs
    → All (λ r. IsPurgeable tree t r.uuid) rs
    → All (λ r. IsPurgeable tree (c ∷ t) r.uuid) rs
IsPurgeable-cons tree c t [] n h = tt
IsPurgeable-cons tree c t (r ∷ rs) n h =
    (((λ e. ground arith), h.0), IsPurgeable-cons tree c t rs n.1 h.1)

IsPurgeable-same :
    (tree : List Bytes) (id : ℕ) (t : List Capture)
    → All (λ d. (id == d.uuid) ≡ false) t
    → IsPurgeable tree t id
IsPurgeable-same tree id [] h = tt
IsPurgeable-same tree id (c ∷ t) h = ((λ e. ground (arith, h.0, e)), IsPurgeable-same tree id t h.1)

All-rows_cons :
    (b : Bool) (P : Row → Type 0) (c : Capture) (ks : List Capture)
    → (b ≡ true → P (to_row c))
    → All P (map to_row ks)
    → All P (map to_row (if b then c ∷ ks else ks))
All-rows_cons true P c ks h hs = (h refl, hs)
All-rows_cons false P c ks h hs = hs

rows-IsPurgeable :
    (tree : List Bytes) (t : List Capture)
    → HasUniqueIds t
    → All (λ r. IsPurgeable tree t r.uuid) (map to_row (keep (is_below tree) t))
rows-IsPurgeable tree [] u = tt
rows-IsPurgeable tree (c ∷ t) u =
    All-rows_cons (is_below tree c) (λ r. IsPurgeable tree (c ∷ t) r.uuid) c
      (keep (is_below tree) t) (λ e. ((λ _. e), IsPurgeable-same tree c.uuid t u.0))
      (IsPurgeable-cons tree c t (map to_row (keep (is_below tree) t))
        (rows-other (is_below tree) c.uuid t u.0) (rows-IsPurgeable tree t u.1))

All-take {κ} : {A : Type 0} (P : A → Type κ) (n : ℕ) (xs : List A) → All P xs → All P (take n xs)
All-take P zero xs h = tt
All-take P (suc n) [] h = tt
All-take P (suc n) (x ∷ xs) h = (h.0, All-take P n xs h.1)

All-ids : (P : ℕ → Type 0) (rs : List Row) → All (λ r. P r.uuid) rs → All P (map (λ r. r.uuid) rs)
All-ids P [] h = tt
All-ids P (r ∷ rs) h = (h.0, All-ids P rs h.1)

-- The ids that one query finds.
abbrev pub ids_below : List Bytes → ℕ → List Capture → List ℕ
ids_below tree limit t =
    map (λ r. r.uuid) (take limit (sort newest_first (map to_row (keep (is_below tree) t))))

pub ids_below-IsPurgeable :
    (tree : List Bytes) (limit : ℕ) (t : List Capture)
    → HasUniqueIds t
    → All (IsPurgeable tree t) (ids_below tree limit t)
ids_below-IsPurgeable tree limit t u =
    All-ids (IsPurgeable tree t)
      (take limit (sort newest_first (map to_row (keep (is_below tree) t))))
      (All-take (λ r. IsPurgeable tree t r.uuid) limit
        (sort newest_first (map to_row (keep (is_below tree) t)))
        (All-sort newest_first (λ r. IsPurgeable tree t r.uuid)
          (map to_row (keep (is_below tree) t)) (rows-IsPurgeable tree t u)))

-- The first id is in the table.
abbrev pub is_present : List Capture → ℕ → Bool
is_present t id = any (λ c. c.uuid == id) t

is_present-cons :
    (c : Capture) (t : List Capture) (rs : List Row)
    → All (λ r. is_present t r.uuid ≡ true) rs
    → All (λ r. is_present (c ∷ t) r.uuid ≡ true) rs
is_present-cons c t [] h = tt
is_present-cons c t (r ∷ rs) h = (ground (arith, h.0), is_present-cons c t rs h.1)

rows-is_present :
    (p : Capture → Bool) (t : List Capture)
    → All (λ r. is_present t r.uuid ≡ true) (map to_row (keep p t))
rows-is_present p [] = tt
rows-is_present p (c ∷ t) =
    All-rows_cons (p c) (λ r. is_present (c ∷ t) r.uuid ≡ true) c (keep p t) (λ e. ground arith)
      (is_present-cons c t (map to_row (keep p t)) (rows-is_present p t))

pub ids_below-is_present :
    (tree : List Bytes) (limit : ℕ) (t : List Capture)
    → All (λ id. is_present t id ≡ true) (ids_below tree limit t)
ids_below-is_present tree limit t =
    All-ids (λ id. is_present t id ≡ true)
      (take limit (sort newest_first (map to_row (keep (is_below tree) t))))
      (All-take (λ r. is_present t r.uuid ≡ true) limit
        (sort newest_first (map to_row (keep (is_below tree) t)))
        (All-sort newest_first (λ r. is_present t r.uuid ≡ true)
          (map to_row (keep (is_below tree) t)) (rows-is_present (is_below tree) t)))

pub length-keep : (p : Capture → Bool) (t : List Capture) → length (keep p t) ≤ length t
length-keep p [] = omega arith
length-keep p (c ∷ t) = elim (Bool-cases (p c)) [
  | inl e ↦ rw e (let h = length-keep p t in omega arith)
  | inr e ↦ rw e (let h = length-keep p t in omega arith)
]

pub length-others :
    (id : ℕ) (t : List Capture) → is_present t id ≡ true → length (others id t) < length t
length-others id [] h = ground arith
length-others id (c ∷ t) h = elim (Bool-cases (c.uuid == id)) [
  | inl e ↦
      rw e (let k = length-keep (λ d. not (any (λ i. d.uuid == i) (id ∷ []))) t in omega arith)
  | inr e ↦ rw e (let k = length-others id t (rw e at h) in omega arith)
]

-- Where the query finds nothing, no row is below the prefix.
pub keep-none_below :
    (tree : List Bytes) (t : List Capture)
    → map to_row (keep (is_below tree) t) ≡ []
    → spared tree t ≡ t
keep-none_below tree [] h = refl
keep-none_below tree (c ∷ t) h = elim (Bool-cases (is_below tree c)) [
  | inl e ↦ ground (arith, rw e at h)
  | inr e ↦ rw e (ap (◌∷◌ c) (keep-none_below tree t (rw e at h)))
]
