-- ===== src/Merkle/Diff/Spec.antt =====
-- Diff against its specification: what it reports of each key.
use spexmachina.Prelude.{
  String, List, [], ◌∷◌, ◌++◌, Option, none, some, ◌==◌, eq_iff, eq_refl, Option-cases,
  if◌then◌else◌, fetch, str_lt_ne, sort_by, insert_by, Bool, keep, HasKeysOnce, ◌≡◌, refl, ◌∙◌, ap,
  sym, arith, inl, inr,
}
use spexmachina.Merkle.Tree.Hashing.{flatten_leaves-HasKeysOnce}
use spexmachina.Merkle.Tree.{Node, LeafInfo, LeafMap, flatten_leaves}
use spexmachina.Merkle.Diff.{
  Change, by_key, added_leaf, modified_leaf, removed_leaf, changed_leaves, removed_leaves,
  diff_maps, diff, snapshot_leaves,
}

abbrev pub with_key : String → Change → Bool
with_key k c = c.key == k

keep-insert_by :
    (k : String) (c : Change) (l : List Change)
    → keep (with_key k) (insert_by by_key c l)
      ≡ (if c.key == k then c ∷ keep (with_key k) l else keep (with_key k) l)
unfolding insert_by
keep-insert_by k c [] = refl
keep-insert_by k c (d ∷ l) = ground (
  arith,
  keep-insert_by k c l,
  eq_iff c.key k,
  eq_iff d.key k,
  str_lt_ne d.key c.key,
  eq_iff d.key c.key,
)

-- Sorting keeps the changes of one key, in their order.
pub keep-sort_by :
    (k : String) (l : List Change) → keep (with_key k) (sort_by by_key l) ≡ keep (with_key k) l
unfolding sort_by
keep-sort_by k [] = refl
keep-sort_by k (c ∷ l) = ground (arith, keep-insert_by k c (sort_by by_key l), keep-sort_by k l)

keep-append {ℓ} :
    {A : Type ℓ} (p : A → Bool) (xs ys : List A) → keep p (xs ++ ys) ≡ keep p xs ++ keep p ys
keep-append p [] ys = refl
keep-append p (x ∷ xs) ys = ground (arith, keep-append p xs ys)

-- What the diff of one key is: nothing, an addition, a removal, or a modification if the hashes differ.
abbrev pub expected : String → Option LeafInfo → Option LeafInfo → List Change
expected k none none = []
expected k (some cur) none = added_leaf k cur ∷ []
expected k none (some old) = removed_leaf k old ∷ []
expected k (some cur) (some old) = if cur.hash == old.hash then [] else modified_leaf k cur old ∷ []

expected_now : String → Option LeafInfo → Option LeafInfo → List Change
expected_now k none old = []
expected_now k (some cur) old = expected k (some cur) old

expected_gone : String → Option LeafInfo → Option LeafInfo → List Change
expected_gone k (some cur) old = []
expected_gone k none old = expected k none old

keep-changed_leaves :
    (k : String) (c s : LeafMap)
    → HasKeysOnce c
    → keep (with_key k) (changed_leaves c s) ≡ expected_now k (fetch c k) (fetch s k)
unfolding changed_leaves fetch expected_now
keep-changed_leaves k [] s once = refl
keep-changed_leaves k (entry ∷ c) s once =
    ground (arith, keep-changed_leaves k c s once.1, eq_iff entry.0 k, once.0)

keep-removed_leaves :
    (k : String) (s c : LeafMap)
    → HasKeysOnce s
    → keep (with_key k) (removed_leaves s c) ≡ expected_gone k (fetch c k) (fetch s k)
unfolding removed_leaves fetch expected_gone
keep-removed_leaves k [] c once = elim (Option-cases (fetch c k)) [
  | inl e ↦ rw (e, expected_gone) refl
  | inr e ↦ rw (e.1, expected_gone) refl
]
keep-removed_leaves k (entry ∷ s) c once =
    ground (arith, keep-removed_leaves k s c once.1, eq_iff entry.0 k, once.0)

expected-split :
    (k : String) (cur old : Option LeafInfo)
    → expected_now k cur old ++ expected_gone k cur old ≡ expected k cur old
unfolding expected_now expected_gone
expected-split k none none = refl
expected-split k none (some old) = refl
expected-split k (some cur) none = refl
expected-split k (some cur) (some old) = ground arith

pub keep-diff_maps :
    (current snapshot : LeafMap) (k : String)
    → HasKeysOnce current
    → HasKeysOnce snapshot
    → keep (with_key k) (diff_maps current snapshot)
      ≡ expected k (fetch current k) (fetch snapshot k)
unfolding diff_maps
keep-diff_maps c s k once once' =
    keep-sort_by k (changed_leaves c s ++ removed_leaves s c)
    ∙ keep-append (with_key k) (changed_leaves c s) (removed_leaves s c)
    ∙ ap (λ l. l ++ keep (with_key k) (removed_leaves s c)) (keep-changed_leaves k c s once)
    ∙ ap (λ l. expected_now k (fetch c k) (fetch s k) ++ l) (keep-removed_leaves k s c once')
    ∙ expected-split k (fetch c k) (fetch s k)

snapshot_leaves-HasKeysOnce : (snapshot : Option Node) → HasKeysOnce (snapshot_leaves snapshot)
snapshot_leaves-HasKeysOnce none = tt
snapshot_leaves-HasKeysOnce (some s) = flatten_leaves-HasKeysOnce s

-- For any current tree, any snapshot or none, and any key, the changes of Diff with that key are:
-- none if neither tree has a leaf with the key or both have one with the same hash, otherwise
-- exactly one, which is added, removed or modified as the leaf is new, gone or has another hash,
-- with the metadata and hashes of the two leaves.
pub keep-diff :
    (current : Node) (snapshot : Option Node) (k : String)
    → keep (with_key k) (diff current snapshot)
      ≡ expected k (fetch (flatten_leaves current []) k) (fetch (snapshot_leaves snapshot) k)
unfolding diff
keep-diff current snapshot k =
    keep-diff_maps (flatten_leaves current []) (snapshot_leaves snapshot) k
      (flatten_leaves-HasKeysOnce current) (snapshot_leaves-HasKeysOnce snapshot)

expected_same : (k : String) (leaf : Option LeafInfo) → expected k leaf leaf ≡ []
expected_same k none = refl
expected_same k (some l) = rw (eq_refl l.hash) refl

none_left : (l : List Change) → ((k : String) → keep (with_key k) l ≡ []) → l ≡ []
none_left [] h = refl
none_left (c ∷ l) h = ground (arith, h c.key, eq_refl c.key)

-- The diff of a tree with itself is empty.
pub diff_self : (tree : Node) → diff tree (some tree) ≡ []
diff_self tree =
    none_left (diff tree (some tree))
      (λ k. keep-diff tree (some tree) k ∙ expected_same k (fetch (flatten_leaves tree []) k))

-- The hash of a leaf, if there is one.
abbrev pub hash_of : Option LeafInfo → Option String
hash_of none = none
hash_of (some leaf) = some leaf.hash

same_hash :
    (k : String) (cur old : Option LeafInfo) → expected k cur old ≡ [] → hash_of cur ≡ hash_of old
same_hash k none none h = refl
same_hash k (some cur) none h = cc
same_hash k none (some old) h = cc
same_hash k (some cur) (some old) h = ground (arith, eq_iff cur.hash old.hash)

-- If Diff reports nothing, the two trees have leaves under the same keys, with the same hashes.
pub diff_empty :
    (current snapshot : Node) (k : String)
    → diff current (some snapshot) ≡ []
    → hash_of (fetch (flatten_leaves current []) k) ≡ hash_of (fetch (flatten_leaves snapshot []) k)
diff_empty current snapshot k e =
    same_hash k (fetch (flatten_leaves current []) k) (fetch (flatten_leaves snapshot []) k)
      (sym (keep-diff current (some snapshot) k) ∙ ap (keep (with_key k)) e)
