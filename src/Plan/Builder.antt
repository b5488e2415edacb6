-- ===== src/Plan/Builder.antt =====
-- plan/builder.go: the changeset of a batch of classified actions. filepath.Join is the argument
-- `join_path`.
pub mod Compose
pub mod Refs
pub mod Earlier
pub mod Ordered
pub mod Answer
pub mod Union
mod Samples
use spexmachina.Prelude.{
  String, ℕ, zero, suc, ◌+◌, Bool, List, [], ◌∷◌, ◌++◌, map, Option, none, some, ◌==◌, ◌⊕◌,
  if◌then◌else◌, ltb, nat_eq, keep, length, fetch, store, sort_by, sort_strings, Result, ok, err,
  ◌>>=◌,
}
use spexmachina.Schema.Spec.{Component, DataFlow, TestSection}
use spexmachina.Schema.Profile.{append_new}
use spexmachina.Plan.Types.{
  Action, Ref, task, op, Op, AbsorbedEntry, Changeset, kind_proposal_epic, kind_cleanup,
  action_create, action_retarget, action_obsolete, op_create, op_retarget, op_close,
}
use spexmachina.Plan.Graph.{
  SpecGraph, ModuleEntry, module_by_name, plan_relevant_of, find_component, find_data_flow,
  find_test_section,
}
use spexmachina.Plan.Labeler.{
  Registration, RemovalEntry, Labeler, LabelError, is_cleanup, label_for,
}
use spexmachina.Plan.Resolver.{
  Fold, Batch, ResolveError, resolve_deps, resolve_epic_action, resolve_parent, resolve_priority,
  fallback_priority,
}
use spexmachina.Plan.Kahn.{SortError}
use spexmachina.Plan.Sorter.{layer_index, layer_for, sort}

-- The combined fold is `lookup` and `removal`.
pub record Builder : Type 0 where
  pub spec_graph : SpecGraph
  pub lookup : Fold
  pub removal : String → Option RemovalEntry
  pub registration : Registration
  pub git_head : String
  pub proposal : String
  pub absorbed : List AbsorbedEntry

pub data BuilderError : Type 0 where
  resolve_error : ResolveError → BuilderError
  sort_error : SortError → BuilderError
  label_error : LabelError → BuilderError

-- An error of a part as an error of the builder.
abbrev pub wrap {ℓ} :
    {E : Type 0} {A : Type ℓ} → (E → BuilderError) → Result E A → Result BuilderError A
wrap f (ok a) = ok a
wrap f (err e) = err (f e)

abbrev pub actions_of_type : String → List Action → List Action
actions_of_type type = keep (λ a. a.type == type)

unfoldable pub create_op_id : Action → String
unfolding is_cleanup
create_op_id a =
    if a.node_type == kind_proposal_epic
    then "op-" ⊕ (kind_proposal_epic ⊕ ("-" ⊕ a.spec_node_id))
    else if is_cleanup a
    then "op-" ⊕ (kind_cleanup ⊕ ("-" ⊕ a.spec_node_id))
    else "op-" ⊕ (a.node_type ⊕ ("-" ⊕ a.spec_node_id))

unfoldable pub retarget_op_id : Action → String
retarget_op_id a = "op-" ⊕ (op_retarget ⊕ ("-" ⊕ a.spec_node_id))

unfoldable pub close_op_id : Action → String
close_op_id a = "op-" ⊕ (op_close ⊕ ("-" ⊕ a.task_id))

-- The maps that Build fills from the sorted creates.
unfoldable pub batch_of : List Action → Batch → Batch
unfolding create_op_id
batch_of [] batch = batch
batch_of (a ∷ sorted) batch = batch_of sorted (store batch a.spec_node_id (create_op_id a))

unfoldable pub index_of : ℕ → List String → List (String × ℕ) → List (String × ℕ)
index_of i [] index = index
index_of i (id ∷ ids) index = index_of (suc i) ids (store index id i)

-- A layer group is its layer with the op ids of its run, in place of their indices.
abbrev pub LayerGroup : Type 0
LayerGroup = ℕ × List String

abbrev pub cons_group : ℕ → String → List LayerGroup → List LayerGroup
cons_group layer id [] = (layer, id ∷ []) ∷ []
cons_group layer id (g ∷ groups) =
    if nat_eq g.0 layer then (layer, id ∷ g.1) ∷ groups else (layer, id ∷ []) ∷ g ∷ groups

unfoldable pub layer_groups :
    (String → Option ℕ) → ℕ → List Action → Result SortError (List LayerGroup)
unfolding layer_for create_op_id
layer_groups index cleanup_layer [] = ok []
layer_groups index cleanup_layer (a ∷ sorted) = do
  layer ← layer_for a index cleanup_layer
  groups ← layer_groups index cleanup_layer sorted
  ok (cons_group layer (create_op_id a) groups)

-- The second loop of layerEdgesFor: one entry for each create, in order.
unfoldable pub edges_of_groups : List String → List LayerGroup → List (List String)
edges_of_groups previous [] = []
edges_of_groups previous (g ∷ groups) =
    if nat_eq g.0 0
    then map (λ id. []) g.1 ++ edges_of_groups previous groups
    else map (λ id. previous) g.1 ++ edges_of_groups g.1 groups

unfoldable pub layer_edges_for : List Action → List String → Result SortError (List (List String))
unfolding layer_index layer_groups edges_of_groups
layer_edges_for sorted plan_relevant = do
  groups ← layer_groups (layer_index 0 plan_relevant (λ t. none)) (length plan_relevant + 1) sorted
  ok (edges_of_groups [] groups)

abbrev pub ops_of : List Ref → List String
ops_of [] = []
ops_of (op op_id ∷ refs) = op_id ∷ ops_of refs
ops_of (task task_id ∷ refs) = ops_of refs

abbrev pub tasks_of : List Ref → List String
tasks_of [] = []
tasks_of (op op_id ∷ refs) = tasks_of refs
tasks_of (task task_id ∷ refs) = task_id ∷ tasks_of refs

-- opIndex[id], which Go reads as 0 for a missing id.
abbrev pub index_or_zero : List (String × ℕ) → String → ℕ
index_or_zero index id = elim (fetch index id) [ none ↦ 0 | some i ↦ i ]

-- What composeDeps makes of the resolved deps.
unfoldable pub order_deps : List Ref → List (String × ℕ) → List String → List String → List Ref
unfolding append_new sort_by sort_strings
order_deps spec_deps op_index layer_edges extra_tasks =
    let op_refs = append_new (append_new [] (ops_of spec_deps)) layer_edges in
    let task_refs = append_new (append_new [] (tasks_of spec_deps)) extra_tasks in
    map op (sort_by (λ a b. ltb (index_or_zero op_index a) (index_or_zero op_index b)) op_refs)
    ++ map task (sort_strings task_refs)

unfoldable pub compose_deps :
    Action
    → Fold
    → Batch
    → List (String × ℕ)
    → List String
    → List String
    → Result BuilderError (List Ref)
unfolding resolve_deps order_deps
compose_deps a fold batch op_index layer_edges extra_tasks =
    elim (resolve_deps a.dep_spec_node_ids batch fold) [
      | err e ↦ err (resolve_error e)
      | ok spec_deps ↦ ok (order_deps spec_deps op_index layer_edges extra_tasks)
    ]
