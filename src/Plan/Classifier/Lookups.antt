-- ===== src/Plan/Classifier/Lookups.antt =====
-- What plan/action_classifier.go reads of the spec graph for one change: the fold-back of a test
-- section, the node-type gate and the node's name.
use spexmachina.Prelude.{
  String, Bool, true, false, Option, none, some, ◌==◌, if◌then◌else◌, length, nat_eq, leb, contains,
}
use spexmachina.Schema.Spec.{ModuleSpec, TestSection}
use spexmachina.Merkle.Impact.{ClassifiedChange}
use spexmachina.Plan.Graph.{
  SpecGraph, module_by_name, find_component, find_data_flow, find_test_section, plan_relevant_of,
}

-- The test section of a change, if the graph has it.
unfoldable pub section_of : ClassifiedChange → SpecGraph → Option TestSection
section_of change graph = elim (module_by_name graph change.module_name) [
  | none ↦ none
  | some entry ↦ find_test_section entry.spec change.change.key
]

unfoldable pub is_test_section_foldback : ClassifiedChange → SpecGraph → Bool
unfolding section_of
is_test_section_foldback change graph =
    if change.change.node_type == "test_section"
    then elim (section_of change graph) [
      | none ↦ false
      | some section ↦ nat_eq (length section.describes) 1
    ]
    else false

-- planRelevant with the graph's profile
unfoldable pub plan_relevant : SpecGraph → String → Bool
unfolding plan_relevant_of contains
plan_relevant graph node_type = contains (plan_relevant_of graph) node_type

unfoldable pub gate_admits : ClassifiedChange → SpecGraph → Bool
unfolding plan_relevant section_of
gate_admits change graph =
    if change.change.node_type == "module"
    then true
    else if plan_relevant graph change.change.node_type
    then (if change.change.node_type == "test_section"
        then elim (section_of change graph) [
          | none ↦ true
          | some section ↦ leb 2 (length section.describes)
        ]
        else true)
    else false

abbrev pub or_id : Option String → String → String
or_id none id = id
or_id (some name) id = name

unfoldable pub name_in : ModuleSpec → String → String → Option String
name_in spec id node_type =
    if node_type == "component"
    then elim (find_component spec id) [ none ↦ none | some c ↦ some c.name ]
    else if node_type == "data_flow"
    then elim (find_data_flow spec id) [ none ↦ none | some f ↦ some f.name ]
    else if node_type == "test_section"
    then elim (find_test_section spec id) [ none ↦ none | some t ↦ some t.name ]
    else none

unfoldable pub node_name : String → String → String → SpecGraph → String
unfolding name_in
node_name module_name id node_type graph = elim (module_by_name graph module_name) [
  | none ↦ id
  | some entry ↦ or_id (name_in entry.spec id node_type) id
]

unfoldable pub matched_node_name : ClassifiedChange → SpecGraph → String
unfolding node_name
matched_node_name change graph =
    node_name change.module_name change.change.key change.change.node_type graph
