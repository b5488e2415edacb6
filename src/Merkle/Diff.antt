-- ===== src/Merkle/Diff.antt =====
-- Diff of merkle/diff_engine.go. The two leaf maps are association lists, in the order in which
-- Go happens to range over them.
pub mod Spec
mod AnyOrder
mod Samples
use spexmachina.Prelude.{
  String, List, [], ◌∷◌, ◌++◌, Option, none, some, ◌==◌, if◌then◌else◌, fetch, str_lt, sort_by,
  Bool,
}
use spexmachina.Merkle.Tree.{Node, LeafInfo, LeafMap, flatten_leaves}

pub data ChangeType : Type 0 where
  added removed modified : ChangeType

-- Go's `Type` and `Module` fields are `type` and `module_hash`.
pub record Change : Type 0 where
  pub key : String
  pub type : ChangeType
  pub node_type : String
  pub module_hash : String
  pub old_hash : String
  pub new_hash : String

abbrev pub added_leaf : String → LeafInfo → Change
added_leaf key cur = record {
  key = key;
  type = added;
  node_type = cur.node_type;
  module_hash = cur.module_hash;
  old_hash = "";
  new_hash = cur.hash;
}

abbrev pub modified_leaf : String → LeafInfo → LeafInfo → Change
modified_leaf key cur old = record {
  key = key;
  type = modified;
  node_type = cur.node_type;
  module_hash = cur.module_hash;
  old_hash = old.hash;
  new_hash = cur.hash;
}

abbrev pub removed_leaf : String → LeafInfo → Change
removed_leaf key old = record {
  key = key;
  type = removed;
  node_type = old.node_type;
  module_hash = old.module_hash;
  old_hash = old.hash;
  new_hash = "";
}

-- The first loop: the current leaves that the snapshot lacks or holds with another hash.
unfoldable pub changed_leaves : LeafMap → LeafMap → List Change
changed_leaves [] snapshot = []
changed_leaves (entry ∷ current) snapshot =
    let rest = changed_leaves current snapshot in
    elim (fetch snapshot entry.0) [
      | none ↦ added_leaf entry.0 entry.1 ∷ rest
      | some old ↦
          if entry.1.hash == old.hash then rest else modified_leaf entry.0 entry.1 old ∷ rest
    ]

-- The second loop: the snapshot's leaves that are gone.
unfoldable pub removed_leaves : LeafMap → LeafMap → List Change
removed_leaves [] current = []
removed_leaves (entry ∷ snapshot) current =
    let rest = removed_leaves snapshot current in
    elim (fetch current entry.0) [ some cur ↦ rest | none ↦ removed_leaf entry.0 entry.1 ∷ rest ]

abbrev pub by_key : Change → Change → Bool
by_key a b = str_lt a.key b.key

unfoldable pub diff_maps : LeafMap → LeafMap → List Change
unfolding changed_leaves removed_leaves
diff_maps current snapshot =
    sort_by by_key (changed_leaves current snapshot ++ removed_leaves snapshot current)

-- A nil snapshot has no leaves.
abbrev pub snapshot_leaves : Option Node → LeafMap
snapshot_leaves none = []
snapshot_leaves (some snapshot) = flatten_leaves snapshot []

unfoldable pub diff : Node → Option Node → List Change
unfolding diff_maps
diff current snapshot = diff_maps (flatten_leaves current []) (snapshot_leaves snapshot)
