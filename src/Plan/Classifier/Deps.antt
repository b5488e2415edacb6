-- ===== src/Plan/Classifier/Deps.antt =====
-- The deps of an action in plan/action_classifier.go. A Go set (map[string]bool) is the list of its
-- keys, each once; the loops that sort its keys do not depend on their order.
use spexmachina.Prelude.{
  String, ℕ, zero, suc, ◌+◌, not, ◌&&◌, List, [], ◌∷◌, ◌++◌, map, Option, none, some, ◌==◌,
  if◌then◌else◌, length, fetch, contains, keep, sort_strings, store,
}
use spexmachina.Schema.Spec.{Component}
use spexmachina.Schema.Profile.{append_new}
use spexmachina.Merkle.Impact.{ClassifiedChange}
use spexmachina.Plan.Types.{Action, action_create}
use spexmachina.Plan.Graph.{
  SpecGraph, ModuleEntry, module_by_name, module_by_id, find_component, find_data_flow,
}
use spexmachina.Plan.Matcher.{Match, Unmatched}
use spexmachina.Plan.Classifier.Lookups.{section_of}

unfoldable pub collect_describes : ClassifiedChange → SpecGraph → List String
unfolding section_of append_new sort_strings
collect_describes change graph = elim (section_of change graph) [
  | none ↦ []
  | some section ↦ sort_strings (append_new [] section.describes)
]

-- The direct uses of a component, without itself.
abbrev pub uses_of : ModuleEntry → String → List String
uses_of entry id = elim (find_component entry.spec id) [
  | none ↦ []
  | some comp ↦ keep (λ u. not (u == id)) comp.uses
]

abbrev pub component_ids : ModuleEntry → List String
component_ids entry = map (λ (c : Component). c.id) entry.spec.components

-- The loop over the queue of required modules, on fuel; what it gives for a queue that the fuel does
-- not empty is none.
unfoldable pub walk : ℕ → List String → List String → List String → SpecGraph → Option (List String)
unfolding append_new contains
walk fuel [] visited deps graph = some deps
walk zero (id ∷ queue) visited deps graph = none
walk (suc fuel) (id ∷ queue) visited deps graph =
    let skipped = walk fuel queue visited deps graph in
    let unknown_id = walk fuel queue (id ∷ visited) deps graph in
    if contains visited id then skipped else elim (module_by_id graph id) [
      | none ↦ unknown_id
      | some entry ↦
          walk fuel (queue ++ entry.module_decl.requires_module) (id ∷ visited)
            (append_new deps (component_ids entry)) graph
    ]

-- Each module's requires_module is put on the queue once at most.
abbrev pub edge_count : List (String × ModuleEntry) → ℕ
edge_count [] = 0
edge_count (entry ∷ modules) = length entry.1.module_decl.requires_module + edge_count modules

abbrev pub or_empty : Option (List String) → List String
or_empty none = []
or_empty (some deps) = deps

unfoldable pub collect_deps : ClassifiedChange → SpecGraph → List String
unfolding walk append_new sort_strings
collect_deps change graph = elim (module_by_name graph change.module_name) [
  | none ↦ []
  | some entry ↦ sort_strings (
      or_empty (
        walk (length entry.module_decl.requires_module + edge_count graph.by_id)
          entry.module_decl.requires_module (entry.module_decl.id ∷ [])
          (append_new [] (uses_of entry change.change.key)) graph))
]

unfoldable pub deps_for : ClassifiedChange → SpecGraph → List String
unfolding collect_deps collect_describes
deps_for change graph =
    if change.change.node_type == "component"
    then collect_deps change graph
    else if change.change.node_type == "test_section"
    then collect_describes change graph
    else []

-- result[comp_id]; a missing component has no flows.
abbrev pub flows_of : List (String × List String) → String → List String
flows_of result comp_id = elim (fetch result comp_id) [ none ↦ [] | some flows ↦ flows ]

unfoldable pub add_uses :
    List String → String → List (String × List String) → List (String × List String)
add_uses [] flow result = result
add_uses (comp_id ∷ uses) flow result =
    add_uses uses flow (store result comp_id (flows_of result comp_id ++ flow ∷ []))

-- The closure `add` of changedDataFlowUses.
unfoldable pub add_flow :
    ClassifiedChange → SpecGraph → List (String × List String) → List (String × List String)
unfolding add_uses
add_flow change graph result =
    if change.change.node_type == "data_flow"
    then elim (module_by_name graph change.module_name) [
      | none ↦ result
      | some entry ↦ elim (find_data_flow entry.spec change.change.key) [
        | none ↦ result
        | some flow ↦ add_uses flow.uses change.change.key result
      ]
    ]
    else result

unfoldable pub add_flows :
    List ClassifiedChange → SpecGraph → List (String × List String) → List (String × List String)
unfolding add_flow
add_flows [] graph result = result
add_flows (c ∷ changes) graph result = add_flows changes graph (add_flow c graph result)

unfoldable pub changed_data_flow_uses :
    List Match → List Unmatched → SpecGraph → List (String × List String)
unfolding add_flows
changed_data_flow_uses matches unmatched graph =
    add_flows (map (λ (m : Match). m.change) matches ++ map (λ (u : Unmatched). u.change) unmatched)
      graph []

abbrev pub with_deps : Action → List String → Action
with_deps a deps = record {
  type = a.type;
  task_id = a.task_id;
  module_name = a.module_name;
  node = a.node;
  node_type = a.node_type;
  spec_node_id = a.spec_node_id;
  spec_hash = a.spec_hash;
  dep_spec_node_ids = deps;
  change_type = a.change_type;
  reason = a.reason;
}

unfoldable pub add_on : Action → List String → Action
unfolding append_new sort_strings
add_on a [] = a
add_on a (f ∷ flows) =
    with_deps a (sort_strings (append_new (append_new [] a.dep_spec_node_ids) (f ∷ flows)))

unfoldable pub apply_data_flow_add_on : List Action → List (String × List String) → List Action
unfolding add_on
apply_data_flow_add_on [] flow_uses = []
apply_data_flow_add_on (a ∷ actions) flow_uses =
    let rest = apply_data_flow_add_on actions flow_uses in
    if (a.type == action_create) && ((a.node_type == "component") && not (a.spec_hash == ""))
    then add_on a (flows_of flow_uses a.spec_node_id) ∷ rest
    else a ∷ rest
