-- ===== src/Merkle/Tree/Hashing.antt =====
-- The hash of an interior node, and the leaves that a tree flattens to.
use mathlib.Core.List.{Permᴰ}
use spexmachina.Prelude.{
  String, List, [], ◌≡◌, ap, ◌==◌, Bool-cases, inl, inr, sort_strings-Permᴰ, HasKeysOnce,
  store-HasKeysOnce,
}
use spexmachina.Merkle.Tree.{
  Node, Nodes, node, nil, cons, LeafMap, flatten_leaves, flatten_children, hash_children, concat,
}

-- HashChildren gives one hash for the same child hashes in any order.
pub hash_children-Permᴰ :
    (sha : String → String) {xs ys : List String}
    → Permᴰ xs ys
    → hash_children sha xs ≡ hash_children sha ys
unfolding hash_children
hash_children-Permᴰ sha p = ap (λ l. sha (concat l)) (sort_strings-Permᴰ p)

mutual
  unfolding flatten_leaves flatten_children

  leaves_once : (n : Node) (m : LeafMap) → HasKeysOnce m → HasKeysOnce (flatten_leaves n m)
  leaves_once (node key hash type node_type module_hash children module_name) m once =
      elim (Bool-cases (type == "leaf")) [
        | inl leaf ↦ rw leaf (
            store-HasKeysOnce m key
              (record { hash = hash; node_type = node_type; module_hash = module_hash }) once)
        | inr inner ↦ rw inner (children_once children m once)
      ]

  children_once : (ns : Nodes) (m : LeafMap) → HasKeysOnce m → HasKeysOnce (flatten_children ns m)
  children_once nil m once = once
  children_once (cons n ns) m once = children_once ns (flatten_leaves n m) (leaves_once n m once)

-- The leaf map of a tree holds each key once.
pub flatten_leaves-HasKeysOnce : (n : Node) → HasKeysOnce (flatten_leaves n [])
flatten_leaves-HasKeysOnce n = leaves_once n [] tt
