-- ===== src/Policy/Laws.antt =====
-- What the access policy decides, and what an insertion brings about.
use mathlib.Core.Path.{subst}
use mathlib.Core.Bool.{false≢true}
use webshot.Base.{
  Bool, true, false, not, ◌&&◌, ◌||◌, if◌then◌else◌, Bool-cases, List, [], ◌∷◌, any, keep, All, ok,
  ◌≡◌, refl, sym, ap, ◌∙◌, ◌⊎◌, inl, inr, arith,
}
use webshot.Base.Bytes.{Bytes, ◌=?◌, =?_iff, =?_refl}
use webshot.Prefix.{make_prefix_tree}
use webshot.Prefix.Labels.{HexLib}
use webshot.Prefix.Ancestors.{is_ancestor, covers, IsShortKey, is_ancestor-covers}
use webshot.Policy.{
  Entry, Table, text2ltree, AccessPolicyMode, regular, allowlist_only, allowed, denylisted,
  not_allowlisted, changed, is_denied_prefix, is_allowlisted_prefix, evaluate_prefix, insert_prefix,
  insert_allowlist_prefix, remove_allowlist_prefix, insert_row,
}

-- Regular mode: an allowlisted prefix is allowed whatever the denylist says. Allowlist-only mode: a
-- prefix has to be allowlisted, and not denied.
abbrev pub permits : AccessPolicyMode → Bool → Bool → Bool
permits regular listed denied = listed || not denied
permits allowlist_only listed denied = listed && not denied

module _ (to_hex : Bytes → Bytes) (allowlist denylist : Table) (key : Bytes) where
  -- With both tables readable the mode decides, and a refusal names the denylist exactly where the
  -- prefix is denied.
  evaluate_prefix-permits :
      (mode : AccessPolicyMode) (listed denied : Bool)
      → is_allowlisted_prefix to_hex allowlist key ≡ ok listed
      → is_denied_prefix to_hex denylist key ≡ ok denied
      → evaluate_prefix to_hex allowlist denylist key mode
        ≡ ok (record {
          allowed = permits mode listed denied;
          reason =
              if permits mode listed denied
              then allowed
              else if denied
              then denylisted
              else not_allowlisted;
        })
  unfolding evaluate_prefix
  evaluate_prefix-permits regular listed denied a d = ground arith
  evaluate_prefix-permits allowlist_only listed denied a d = ground arith

  -- What an answer of `EvaluatePrefix` rests on. In regular mode the key is on the allowlist, or it is
  -- looked for on both lists and found on neither; in the other mode it is on the allowlist and not on
  -- the denylist.
  abbrev pub Permits : AccessPolicyMode → Type 0
  Permits regular =
      (is_allowlisted_prefix to_hex allowlist key ≡ ok true)
      ⊎ ((is_allowlisted_prefix to_hex allowlist key ≡ ok false)
          × (is_denied_prefix to_hex denylist key ≡ ok false))
  Permits allowlist_only =
      (is_allowlisted_prefix to_hex allowlist key ≡ ok true)
      × (is_denied_prefix to_hex denylist key ≡ ok false)

  -- It is on the denylist, or, in the other mode, on neither list.
  abbrev pub Forbids : AccessPolicyMode → Type 0
  Forbids regular =
      (is_allowlisted_prefix to_hex allowlist key ≡ ok false)
      × (is_denied_prefix to_hex denylist key ≡ ok true)
  Forbids allowlist_only =
      (is_denied_prefix to_hex denylist key ≡ ok true)
      ⊎ ((is_denied_prefix to_hex denylist key ≡ ok false)
          × (is_allowlisted_prefix to_hex allowlist key ≡ ok false))

  abbrev pub RestsOn : AccessPolicyMode → Bool → Type 0
  RestsOn mode true = Permits mode
  RestsOn mode false = Forbids mode

-- Every row holds the tree of its key.
abbrev pub HasTrees : (Bytes → Bytes) → List Entry → Type 0
HasTrees to_hex = All (λ e. e.prefix_tree ≡ text2ltree (make_prefix_tree to_hex e.prefix_key))

-- An insertion that succeeds finds the key, or adds a row in front.
insert_row-cases :
    (t : List Entry) (key tree reason : Bytes) (t' : List Entry)
    → insert_row (ok t) key tree reason ≡ ok t'
    → ((t ≡ t') × (any (λ e. e.prefix_key =? key) t ≡ true))
      ⊎ (record { prefix_key = key; prefix_tree = text2ltree tree; reason = reason } ∷ t ≡ t')
unfolding insert_row
insert_row-cases t key tree reason t' h = ground arith

any-is_ancestor :
    (to_hex : Bytes → Bytes) (t : List Entry) (key : Bytes) (tree : List Bytes)
    → HasTrees to_hex t
    → any (λ e. e.prefix_key =? key) t ≡ true
    → is_ancestor (text2ltree (make_prefix_tree to_hex key)) tree ≡ true
    → any (λ e. is_ancestor e.prefix_tree tree) t ≡ true
any-is_ancestor to_hex [] key tree w h c = h
any-is_ancestor to_hex (e ∷ t) key tree w h c = elim (Bool-cases (e.prefix_key =? key)) [
  | inl hit ↦ rw (w.0, (=?_iff e.prefix_key key).0 hit, c)
  | inr miss ↦ ground (arith, any-is_ancestor to_hex t key tree w.1 (rw miss at h) c)
]

module _ {to_hex : Bytes → Bytes} (lib : HexLib to_hex) (t : List Entry) (key reason : Bytes)
    (t' : List Entry) (w : HasTrees to_hex t) where
  inserted_row :
      insert_prefix to_hex (ok t) key reason ≡ changed t'
      → insert_row (ok t) key (make_prefix_tree to_hex key) reason ≡ ok t'
  unfolding insert_prefix
  inserted_row e = ground arith

  -- An insertion into the denylist keeps in every row the tree of its key.
  pub insert_prefix-HasTrees :
      insert_prefix to_hex (ok t) key reason ≡ changed t' → HasTrees to_hex t'
  insert_prefix-HasTrees e =
      elim (insert_row-cases t key (make_prefix_tree to_hex key) reason t' (inserted_row e)) [
        | inl (s, _) ↦ subst (HasTrees to_hex) s w
        | inr s ↦ subst (HasTrees to_hex) s (refl, w)
      ]

  -- Once a prefix is on the denylist, every key that it covers is denied: its subdomains, or the
  -- paths below its path. Parts of the keys have at most 127 bytes.
  pub insert_prefix-is_denied_prefix :
      (key' : Bytes)
      → insert_prefix to_hex (ok t) key reason ≡ changed t'
      → IsShortKey key
      → IsShortKey key'
      → covers key key' ≡ true
      → is_denied_prefix to_hex (ok t') key' ≡ ok true
  unfolding is_denied_prefix
  insert_prefix-is_denied_prefix key' e h h' c =
      elim (insert_row-cases t key (make_prefix_tree to_hex key) reason t' (inserted_row e)) [
        | inl (s, found) ↦ rw (← s) (
            rw (
              any-is_ancestor to_hex t key (text2ltree (make_prefix_tree to_hex key')) w found
                (is_ancestor-covers lib key key' h h' ∙ c)))
        | inr s ↦ rw (← s) (rw (is_ancestor-covers lib key key' h h' ∙ c))
      ]

keep-absent :
    (t : List Entry) (key : Bytes)
    → any (λ e. e.prefix_key =? key) t ≡ false
    → keep (λ e. not (e.prefix_key =? key)) t ≡ t
keep-absent [] key h = refl
keep-absent (e ∷ t) key h = elim (Bool-cases (e.prefix_key =? key)) [
  | inl hit ↦ absurd (false≢true (sym (rw hit at h)))
  | inr miss ↦ rw miss (ap (◌∷◌ e) (keep-absent t key (rw miss at h)))
]

-- Taking a new allowlist entry off again restores the table.
remove_allowlist_prefix-insert_allowlist_prefix :
    (to_hex : Bytes → Bytes) (t : List Entry) (key reason : Bytes) (t' : List Entry)
    → any (λ e. e.prefix_key =? key) t ≡ false
    → insert_allowlist_prefix to_hex (ok t) key reason ≡ changed t'
    → remove_allowlist_prefix (ok t') key ≡ changed t
unfolding insert_allowlist_prefix remove_allowlist_prefix
remove_allowlist_prefix-insert_allowlist_prefix to_hex t key reason t' absent e =
    elim (insert_row-cases t key (make_prefix_tree to_hex key) reason t' (ground arith)) [
      | inl (_, found) ↦ absurd (false≢true (sym absent ∙ found))
      | inr s ↦ rw (← s) (rw (=?_refl key) (ap changed (keep-absent t key absent)))
    ]
