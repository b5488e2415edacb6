-- ===== src/Merkle/Tree.antt =====
-- merkle/tree_builder.go (Node, ModuleNames), merkle/hasher.go (HashChildren),
-- merkle/empty_tree.go, and flattenLeaves of merkle/diff_engine.go. SHA-256 with its hex encoding
-- is the argument `sha`.
pub mod Hashing
use spexmachina.Prelude.{
  String, List, [], ◌∷◌, Option, none, some, ◌==◌, if◌then◌else◌, ◌⊕◌, fetch, store, sort_strings,
}

-- The list `Children` is the second type of the block.
mutual
  pub data Node : Type 0 where
    node :
        (key hash type node_type module_hash : String) (children : Nodes) (module_name : String)
        → Node

  pub data Nodes : Type 0 where
    nil : Nodes
    cons : Node → Nodes → Nodes

pub record LeafInfo : Type 0 where
  pub hash : String
  pub node_type : String
  pub module_hash : String

abbrev pub LeafMap : Type 0
LeafMap = List (String × LeafInfo)

unfoldable mutual
  pub flatten_leaves : Node → LeafMap → LeafMap
  flatten_leaves (node key hash type node_type module_hash children module_name) leaves =
      let below = flatten_children children leaves in
      if type == "leaf"
      then store leaves key
          (record { hash = hash; node_type = node_type; module_hash = module_hash })
      else below

  pub flatten_children : Nodes → LeafMap → LeafMap
  flatten_children nil leaves = leaves
  flatten_children (cons child rest) leaves = flatten_children rest (flatten_leaves child leaves)

-- The names of the modules directly below the root.
unfoldable pub names_of : Nodes → List (String × String) → List (String × String)
names_of nil names = names
names_of (cons (node key hash type node_type module_hash children module_name) rest) names =
    names_of rest (if type == "module" then store names module_hash module_name else names)

unfoldable pub module_names : Option Node → List (String × String)
unfolding names_of
module_names none = []
module_names (some (node key hash type node_type module_hash children module_name)) =
    names_of children []

-- h.Write for each hash in turn.
unfoldable pub concat : List String → String
concat [] = ""
concat (h ∷ hs) = h ⊕ concat hs

unfoldable pub hash_children : (String → String) → List String → String
unfolding concat sort_strings
hash_children sha child_hashes = sha (concat (sort_strings child_hashes))

unfoldable pub collect_hashes : Nodes → List String
collect_hashes nil = []
collect_hashes (cons (node key hash type node_type module_hash children module_name) rest) =
    hash ∷ collect_hashes rest

unfoldable pub empty_tree : (String → String) → Node
unfolding hash_children
empty_tree sha = node "project" (hash_children sha []) "project" "" "" nil ""
