-- ===== src/Artifacts/Digest/Same.antt =====
-- When two captures have the same fingerprint.
use mathlib.Core.Path.{subst}
use mathlib.Core.List.{Permᴰ}
use mathlib.Core.List.Permᴰ
use mathlib.Core.List.Permᴰ.{nil, cons, swap, trans}
use webshot.Base.{
  All-mono, ◌≡◌, ◌≢◌, refl, sym, ap, ◌∙◌, ◌⊎◌, inl, inr, List, [], ◌∷◌, ◌++◌, map, length, take,
  drop, length-append, take-append, drop-append, All, Bool-cases, arith,
}
use webshot.Base.Bytes.{Bytes, ◌=?◌, =?_iff, byte_order}
use webshot.Base.Sorting.{sort, All-sort}
use webshot.Base.Reordering.{sort-Permᴰ, Permᴰ-sort, Permᴰ-map_inverse}
use webshot.Crawl.Fallback.{ℤ}
use webshot.Artifacts.{CapturedExchange}
use webshot.Artifacts.Digest.Contents.{contents_of, item_of, map-injective, items_of-contents_of}
use webshot.Artifacts.Digest.{
  Kind, main, redirect, resource, kind_text, concat, Item, item_domain, capture_domain, items_of,
  item_digest, combined, compute_content_sha256,
}

-- SHA-256 gives 32 bytes.
pub record Sha256Lib (sha256_bytes : Bytes → Bytes) : Type 0 where
  pub length_lem : (s : Bytes) → length (sha256_bytes s) ≡ 32

abbrev pub In : Bytes → List Bytes → Type 0
In a [] = ⊥
In a (x ∷ xs) = (a ≡ x) ⊎ In a xs

all-In : (xs : List Bytes) → All (λ a. In a xs) xs
all-In [] = tt
all-In (x ∷ xs) = (inl refl, All-mono (λ a h. inr h) xs (all-In xs))

All-Permᴰ {ℓ κ} : {A : Type ℓ} (P : A → Type κ) {xs ys : List A} → Permᴰ xs ys → All P xs → All P ys
All-Permᴰ P nil h = h
All-Permᴰ P (cons e r) h = (subst P e h.0, All-Permᴰ P r h.1)
All-Permᴰ P (swap e f) h = (subst P f h.1.0, (subst P e h.0, h.1.1))
All-Permᴰ P (trans r t) h = All-Permᴰ P t (All-Permᴰ P r h)

all_parts {ℓ κ} :
    {A : Type ℓ} (P : A → Type κ) (xs ys : List A) → All P (xs ++ ys) → All P xs × All P ys
all_parts P [] ys h = (tt, h)
all_parts P (x ∷ xs) ys h = let (a, b) = all_parts P xs ys h.1 in ((h.0, a), b)

-- Two different texts with one hash, one of these and one of those.
abbrev pub Collision : (Bytes → Bytes) → List Bytes → List Bytes → Type 0
Collision sha256_bytes these those =
    (a : Bytes) × (b : Bytes) × In a these
    × In b those
    × (a ≢ b)
    × (sha256_bytes a ≡ sha256_bytes b)

module _ (sha256_bytes : Bytes → Bytes) (sha : Sha256Lib sha256_bytes) where
  -- Texts of 32 bytes each can be told apart where they are joined.
  abbrev AreDigests : List Bytes → Type 0
  AreDigests = All (λ d. length d ≡ 32)

  concat_split :
      (ds es : List Bytes) → AreDigests ds → AreDigests es → concat ds ≡ concat es → ds ≡ es
  concat_split [] [] h k e = refl
  concat_split [] (d ∷ es) h k e =
      absurd (omega (arith, k.0, ap length e, length-append d (concat es)))
  concat_split (d ∷ ds) [] h k e =
      absurd (omega (arith, h.0, ap length e, length-append d (concat ds)))
  concat_split (c ∷ ds) (d ∷ es) h k e =
      let first : c ≡ d =
        sym (take-append 32 c (concat ds) (sym h.0))
        ∙ ap (take 32) e
        ∙ take-append 32 d (concat es) (sym k.0) in
      let rest : concat ds ≡ concat es =
        sym (drop-append 32 c (concat ds) (sym h.0))
        ∙ ap (drop 32) e
        ∙ drop-append 32 d (concat es) (sym k.0) in
      ap (λ x. x ∷ ds) first ∙ ap (◌∷◌ d) (concat_split ds es h.1 k.1 rest)

  map-AreDigests : (xs : List Bytes) → AreDigests (map sha256_bytes xs)
  map-AreDigests [] = tt
  map-AreDigests (a ∷ xs) = (sha.length_lem a, map-AreDigests xs)

append-cancel : (a b c : Bytes) → a ++ b ≡ a ++ c → b ≡ c
append-cancel [] b c h = h
append-cancel (x ∷ a) b c h = append-cancel a b c (cc)

same_kind : (k l : Kind) (a b : Bytes) → kind_text k ++ a ≡ kind_text l ++ b → (k ≡ l) × (a ≡ b)
same_kind main main a b h = (refl, append-cancel (kind_text main) a b h)
same_kind redirect redirect a b h = (refl, append-cancel (kind_text redirect) a b h)
same_kind resource resource a b h = (refl, append-cancel (kind_text resource) a b h)
same_kind main redirect a b h = absurd (ground (arith, h))
same_kind main resource a b h = absurd (ground (arith, h))
same_kind redirect main a b h = absurd (ground (arith, h))
same_kind redirect resource a b h = absurd (ground (arith, h))
same_kind resource main a b h = absurd (ground (arith, h))
same_kind resource redirect a b h = absurd (ground (arith, h))

module _ (sha256_bytes : Bytes → Bytes) (sha : Sha256Lib sha256_bytes) where
  -- The text that is hashed of an item, and all texts that are hashed of items.
  abbrev pub item_text : Item → Bytes
  item_text i = item_domain ++ (kind_text i.kind ++ concat (map sha256_bytes i.fields))

  abbrev pub item_texts : List Item → List Bytes
  item_texts [] = []
  item_texts (i ∷ is) = item_text i ∷ (i.fields ++ item_texts is)

  abbrev pub capture_text : List Item → Bytes
  capture_text is = capture_domain ++ concat (sort byte_order (map (item_digest sha256_bytes) is))

  -- All texts that are hashed for a capture.
  abbrev pub hashed_texts : (ℤ → Bytes) → CapturedExchange → List Bytes
  hashed_texts format x = capture_text (items_of format x) ∷ item_texts (items_of format x)

  module _ (these those : List Bytes) where
    abbrev Clash : Type 0
    Clash = Collision sha256_bytes these those

    same_text :
        (a b : Bytes) → In a these → In b those → sha256_bytes a ≡ sha256_bytes b → (a ≡ b) ⊎ Clash
    same_text a b m n h = elim (Bool-cases (a =? b)) [
      | inl e ↦ inl ((=?_iff a b).0 e)
      | inr e ↦ inr (a, b, m, n, (λ q. ground (arith, e, (=?_iff a b).1 q)), h)
    ]

    same_texts :
        (xs ys : List Bytes)
        → All (λ a. In a these) xs
        → All (λ b. In b those) ys
        → map sha256_bytes xs ≡ map sha256_bytes ys
        → (xs ≡ ys) ⊎ Clash
    same_texts [] [] m n h = inl refl
    same_texts [] (b ∷ ys) m n h = absurd (cc)
    same_texts (a ∷ xs) [] m n h = absurd (cc)
    same_texts (a ∷ xs) (b ∷ ys) m n h = elim (same_text a b m.0 n.0 (cc)) [
      | inr c ↦ inr c
      | inl e ↦ elim (same_texts xs ys m.1 n.1 (cc)) [ inr c ↦ inr c | inl e' ↦ inl (cc) ]
    ]

    abbrev ItemIn : List Bytes → Item → Type 0
    ItemIn texts i = In (item_text i) texts × All (λ a. In a texts) i.fields

    same_item :
        (i j : Item)
        → ItemIn these i
        → ItemIn those j
        → item_digest sha256_bytes i ≡ item_digest sha256_bytes j
        → (i ≡ j) ⊎ Clash
    unfolding item_digest
    same_item i j m n h = elim (same_text _ _ m.0 n.0 h) [
      | inr c ↦ inr c
      | inl e ↦
          let (k, r) = same_kind i.kind j.kind _ _ (append-cancel item_domain _ _ e) in
          let d =
            concat_split sha256_bytes sha _ _ (map-AreDigests sha256_bytes sha i.fields)
              (map-AreDigests sha256_bytes sha j.fields) r in
          elim (same_texts i.fields j.fields m.1 n.1 d) [
            | inr c ↦ inr c
            | inl f ↦ inl (ground (arith, k, f))
          ]
    ]

    same_items :
        (is js : List Item)
        → All (ItemIn these) is
        → All (ItemIn those) js
        → map (item_digest sha256_bytes) is ≡ map (item_digest sha256_bytes) js
        → (is ≡ js) ⊎ Clash
    same_items [] [] m n h = inl refl
    same_items [] (j ∷ js) m n h = absurd (cc)
    same_items (i ∷ is) [] m n h = absurd (cc)
    same_items (i ∷ is) (j ∷ js) m n h = elim (same_item i j m.0 n.0 (cc)) [
      | inr c ↦ inr c
      | inl e ↦ elim (same_items is js m.1 n.1 (cc)) [ inr c ↦ inr c | inl e' ↦ inl (cc) ]
    ]

    items-ItemIn :
        (texts : List Bytes) (is : List Item)
        → All (λ a. In a texts) (item_texts is)
        → All (ItemIn texts) is
    items-ItemIn texts [] h = tt
    items-ItemIn texts (i ∷ is) h =
        let (f, r) = all_parts (λ a. In a texts) i.fields (item_texts is) h.1 in
        ((h.0, f), items-ItemIn texts is r)

    item_digest-AreDigests :
        (is : List Item) → All (λ d. length d ≡ 32) (map (item_digest sha256_bytes) is)
    unfolding item_digest
    item_digest-AreDigests [] = tt
    item_digest-AreDigests (i ∷ is) = (sha.length_lem _, item_digest-AreDigests is)

    digests-Permᴰ :
        (is js : List Item)
        → In (capture_text is) these
        → In (capture_text js) those
        → combined sha256_bytes (map (item_digest sha256_bytes) is)
          ≡ combined sha256_bytes (map (item_digest sha256_bytes) js)
        → Permᴰ (map (item_digest sha256_bytes) is) (map (item_digest sha256_bytes) js) ⊎ Clash
    unfolding combined
    digests-Permᴰ is js m n e =
        let xs = map (item_digest sha256_bytes) is in
        let ys = map (item_digest sha256_bytes) js in
        elim (same_text _ _ m n e) [
          | inr c ↦ inr c
          | inl q ↦
              let t =
                concat_split sha256_bytes sha (sort byte_order xs) (sort byte_order ys)
                  (All-sort byte_order _ xs (item_digest-AreDigests is))
                  (All-sort byte_order _ ys (item_digest-AreDigests js))
                  (append-cancel capture_domain _ _ q) in
              inl (
                trans (sort-Permᴰ byte_order xs)
                  (subst (λ l. Permᴰ l ys) (sym t) (Permᴰ.symm (sort-Permᴰ byte_order ys))))
        ]

    items-Permᴰ :
        (is js : List Item)
        → All (λ a. In a these) (capture_text is ∷ item_texts is)
        → All (λ b. In b those) (capture_text js ∷ item_texts js)
        → combined sha256_bytes (map (item_digest sha256_bytes) is)
          ≡ combined sha256_bytes (map (item_digest sha256_bytes) js)
        → Permᴰ is js ⊎ Clash
    items-Permᴰ is js m n e = elim (digests-Permᴰ is js m.0 n.0 e) [
      | inr c ↦ inr c
      | inl p ↦
          let (ks, q, f) = Permᴰ-map_inverse (item_digest sha256_bytes) p is refl in
          let k = All-Permᴰ (ItemIn these) q (items-ItemIn these is m.1) in
          elim (same_items ks js k (items-ItemIn those js n.1) (sym f)) [
            | inr c ↦ inr c
            | inl t ↦ inl (subst (Permᴰ is) t q)
          ]
    ]

-- Two captures have the same fingerprint exactly when they tell the same of their responses, in any
-- order: the URL, the method of a resource, the status, the type of a resource, the content type or the
-- location, and the body of each; or when two different texts that are hashed, one for each capture,
-- have the same SHA-256 hash. Times, ids, status texts, other headers, titles and the chain of
-- redirects are left out.
pub compute_content_sha256-Permᴰ :
    (sha256_bytes : Bytes → Bytes) (sha : Sha256Lib sha256_bytes) (format : ℤ → Bytes)
    (x y : CapturedExchange)
    → (Permᴰ (contents_of format x) (contents_of format y)
        → compute_content_sha256 sha256_bytes format x
          ≡ compute_content_sha256 sha256_bytes format y)
      × (compute_content_sha256 sha256_bytes format x ≡ compute_content_sha256 sha256_bytes format y
          → Permᴰ (contents_of format x) (contents_of format y)
            ⊎ Collision sha256_bytes
                (hashed_texts sha256_bytes sha format x)
                (hashed_texts sha256_bytes sha format y))
unfolding compute_content_sha256 combined
compute_content_sha256-Permᴰ sha256_bytes sha format x y = (
  (λ p.
      let q : Permᴰ (items_of format x) (items_of format y) =
        subst (λ l. Permᴰ l (items_of format y)) (sym (items_of-contents_of format x))
          (subst (Permᴰ (map item_of (contents_of format x))) (sym (items_of-contents_of format y))
            (Permᴰ.map item_of p)) in
      ap (λ l. sha256_bytes (capture_domain ++ concat l))
        (Permᴰ-sort byte_order (Permᴰ.map (item_digest sha256_bytes) q))),
  λ e.
      elim (items-Permᴰ sha256_bytes sha (hashed_texts sha256_bytes sha format x)
        (hashed_texts sha256_bytes sha format y) (items_of format x) (items_of format y)
        (all-In (hashed_texts sha256_bytes sha format x))
        (all-In (hashed_texts sha256_bytes sha format y)) e) [
          | inr c ↦ inr c
          | inl p ↦
              let (cs, q, m) =
                Permᴰ-map_inverse item_of p (contents_of format x)
                  (items_of-contents_of format x) in
              let same =
                map-injective (contents_of format y) cs (sym (items_of-contents_of format y) ∙ m) in
              inl (subst (Permᴰ (contents_of format x)) (sym same) q)
        ],
)
