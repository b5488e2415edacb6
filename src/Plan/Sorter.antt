-- ===== src/Plan/Sorter.antt =====
-- Sort of plan/sorter.go: a batch's creates in layers (the proposal epic, one layer for each
-- plan-relevant node type, the cleanups), each layer in the order of kahnSort.
mod Samples
mod Layers
mod Batch
pub mod Correct
pub mod Rising
use spexmachina.Prelude.{
  ℕ, zero, suc, ◌+◌, String, List, [], ◌∷◌, ◌++◌, Bool, Option, none, some, ◌==◌, if◌then◌else◌,
  ◌⊕◌, ltb, nat_eq, length, keep, update, sort_strings, Result, ok, err, ◌>>=◌, false,
}
use spexmachina.Plan.Types.{Action, kind_proposal_epic}
use spexmachina.Plan.Labeler.{is_cleanup}
use spexmachina.Plan.Kahn.{SortError, no_layer, later_layer, kahn_sort}

-- `for i, t := range planRelevant { layerIndex[t] = i + 1 }`, from index `i` on.
unfoldable pub layer_index : ℕ → List String → (String → Option ℕ) → String → Option ℕ
layer_index i [] m = m
layer_index i (t ∷ ts) m = layer_index (suc i) ts (update m t (some (suc i)))

unfoldable pub layer_for : Action → (String → Option ℕ) → ℕ → Result SortError ℕ
unfolding is_cleanup
layer_for a index cleanup_layer =
    if a.node_type == kind_proposal_epic
    then ok 0
    else if is_cleanup a
    then ok cleanup_layer
    else elim (index a.node_type) [
      | some l ↦ ok l
      | none ↦ err (no_layer a.spec_node_id a.node_type)
    ]

-- The loop that fills `layerOf`.
unfoldable pub assign :
    (String → Option ℕ)
    → ℕ
    → List Action
    → (String → Option ℕ)
    → Result SortError (String → Option ℕ)
unfolding layer_for
assign index cleanup_layer [] layer_of = ok layer_of
assign index cleanup_layer (a ∷ rest) layer_of = do
  l ← layer_for a index cleanup_layer
  assign index cleanup_layer rest (update layer_of a.spec_node_id (some l))

-- layerOf[id], which Go reads as 0 for a missing id.
abbrev pub layer_or_zero : (String → Option ℕ) → String → ℕ
layer_or_zero layer_of id = elim (layer_of id) [ some l ↦ l | none ↦ 0 ]

unfoldable pub is_forward : (String → Option ℕ) → String → String → Bool
is_forward layer_of id dep = elim (layer_of dep) [
  | none ↦ false
  | some dep_layer ↦ ltb (layer_or_zero layer_of id) dep_layer
]

-- The messages that checkNoForwardLayerDeps collects for one action.
unfoldable pub forward_deps : (String → Option ℕ) → String → List String → List String
unfolding is_forward
forward_deps layer_of id [] = []
forward_deps layer_of id (dep ∷ deps) =
    let rest = forward_deps layer_of id deps in
    if is_forward layer_of id dep then (id ⊕ (" depends on later-layer " ⊕ dep)) ∷ rest else rest

unfoldable pub all_forward_deps : (String → Option ℕ) → List Action → List String
unfolding forward_deps
all_forward_deps layer_of [] = []
all_forward_deps layer_of (b ∷ rest) =
    forward_deps layer_of b.spec_node_id b.dep_spec_node_ids ++ all_forward_deps layer_of rest

unfoldable pub check_no_forward_layer_deps :
    List Action → (String → Option ℕ) → Result {0, 0} SortError (Unit {0})
unfolding all_forward_deps sort_strings
check_no_forward_layer_deps actions layer_of = elim (all_forward_deps layer_of actions) [
  | [] ↦ ok tt
  | bad ∷ more ↦ err (later_layer (sort_strings (bad ∷ more)))
]

-- byLayer[layer]
abbrev pub in_layer : List Action → (String → Option ℕ) → ℕ → List Action
in_layer actions layer_of layer =
    keep (λ a. nat_eq (layer_or_zero layer_of a.spec_node_id) layer) actions

-- `for layer := ...; layer <= cleanupLayer; layer++`, with `rounds` layers left from `layer` on.
unfoldable pub sort_layers :
    List Action → (String → Option ℕ) → ℕ → ℕ → List Action → Result SortError (List Action)
unfolding kahn_sort
sort_layers actions layer_of zero layer ordered = ok ordered
sort_layers actions layer_of (suc rounds) layer ordered = elim (in_layer actions layer_of layer) [
  | [] ↦ sort_layers actions layer_of rounds (suc layer) ordered
  | n ∷ ns ↦ do
    layer_order ← kahn_sort (n ∷ ns)
    sort_layers actions layer_of rounds (suc layer) (ordered ++ layer_order)
]

unfoldable pub sort : List Action → List String → Result SortError (List Action)
unfolding layer_index assign check_no_forward_layer_deps sort_layers
sort actions plan_relevant = do
  let cleanup_layer = length plan_relevant + 1
  layer_of ← assign (layer_index 0 plan_relevant (λ t. none)) cleanup_layer actions (λ id. none)
  _ ← check_no_forward_layer_deps actions layer_of
  sort_layers actions layer_of (cleanup_layer + 1) 0 []
