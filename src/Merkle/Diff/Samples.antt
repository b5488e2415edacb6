-- ===== src/Merkle/Diff/Samples.antt =====
-- Diff and HashChildren on small trees.
use mathlib.Core.List.{Permᴰ}
use spexmachina.Prelude.{
  String, [], ◌∷◌, some, ◌≡◌, refl, keep, fetch, ◌⊕◌, str_lt, sort_by, store, insert_by,
}
use spexmachina.Merkle.Tree.{LeafInfo, Node, node, nil, cons, hash_children, flatten_leaves}
use spexmachina.Merkle.Tree.Hashing.{hash_children-Permᴰ}
use spexmachina.Merkle.Diff.{
  diff, diff_maps, added_leaf, modified_leaf, removed_leaf, snapshot_leaves,
}
use spexmachina.Merkle.Diff.AnyOrder.{diff_maps-Permᴰ}
use spexmachina.Merkle.Diff.Spec.{with_key, expected, hash_of, keep-diff, diff_self, diff_empty}

abbrev leaf : String → String → Node
leaf key hash = node key hash "leaf" "component" "m1" nil ""

abbrev current_tree : Node
current_tree =
    node "project" "p" "project" "" ""
      (cons
        (node "m1" "m" "module" "" "m1" (cons (leaf "c1" "h1") (cons (leaf "c3" "h3") nil))
          "parser")
        nil)
      ""

abbrev old_tree : Node
old_tree =
    node "project" "p" "project" "" ""
      (cons
        (node "m1" "m" "module" "" "m1" (cons (leaf "c3" "g3") (cons (leaf "a2" "h2") nil))
          "parser")
        nil)
      ""

abbrev info : String → LeafInfo
info hash = record { hash = hash; node_type = "component"; module_hash = "m1" }

diff-trees :
    diff current_tree (some old_tree)
    ≡ removed_leaf "a2" (info "h2")
      ∷ added_leaf "c1" (info "h1")
      ∷ modified_leaf "c3" (info "h3") (info "g3")
      ∷ []
unfolding diff flatten_leaves fetch str_lt sort_by store insert_by
diff-trees = refl

keep-diff_example :
    keep (with_key "c3") (diff current_tree (some old_tree))
    ≡ expected "c3"
        (fetch (flatten_leaves current_tree []) "c3")
        (fetch (snapshot_leaves (some old_tree)) "c3")
keep-diff_example = keep-diff current_tree (some old_tree) "c3"

diff_self_example : diff current_tree (some current_tree) ≡ []
diff_self_example = diff_self current_tree

-- The same leaf below another module.
abbrev moved_tree : Node
moved_tree =
    node "project" "p" "project" "" "" (cons (leaf "c1" "h1") (cons (leaf "c3" "h3") nil)) ""

moved_empty : diff moved_tree (some current_tree) ≡ []
unfolding diff flatten_leaves fetch sort_by store
moved_empty = refl

diff_empty_example :
    hash_of (fetch (flatten_leaves moved_tree []) "c3")
    ≡ hash_of (fetch (flatten_leaves current_tree []) "c3")
diff_empty_example = diff_empty moved_tree current_tree "c3" moved_empty

diff_maps-Permᴰ_example :
    diff_maps (("c1", info "h1") ∷ []) (("c3", info "g3") ∷ ("a2", info "h2") ∷ [])
    ≡ diff_maps (("c1", info "h1") ∷ []) (("a2", info "h2") ∷ ("c3", info "g3") ∷ [])
unfolding fetch
diff_maps-Permᴰ_example =
    diff_maps-Permᴰ (refl, tt) (refl, (refl, tt)) (Permᴰ.cons refl Permᴰ.nil) (Permᴰ.swap refl refl)

hash_children-Permᴰ_example :
    hash_children (λ s. "#" ⊕ s) ("b" ∷ "a" ∷ []) ≡ hash_children (λ s. "#" ⊕ s) ("a" ∷ "b" ∷ [])
hash_children-Permᴰ_example = hash_children-Permᴰ (λ s. "#" ⊕ s) (Permᴰ.swap refl refl)
