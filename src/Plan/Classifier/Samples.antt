-- ===== src/Plan/Classifier/Samples.antt =====
-- ClassifyActions on a small run: a component whose task is open, one whose task is gone, a removed
-- one, and a new data flow that the second uses.
use mathlib.Core.List.{Pairwise, Permᴰ, Forall₂, Pairwise-pair}
use spexmachina.Prelude.{
  arith, String, ◌+◌, List, [], ◌∷◌, none, some, ◌≡◌, refl, ok, err, contains, length, fetch,
  sort_strings, sort_by, insert_by, store, str_lt, IsSorted,
}
use spexmachina.Schema.Spec.{Component, DataFlow}
use spexmachina.Schema.Profile.{append_new}
use spexmachina.Merkle.Diff.{ChangeType, added, modified}
use spexmachina.Merkle.Impact.{ClassifiedChange, contract}
use spexmachina.Plan.Types.{Action}
use spexmachina.Plan.Graph.{SpecGraph, ModuleEntry, first_with}
use spexmachina.Plan.Matcher.{Pairing, Match, Unmatched, Orphaned}
use spexmachina.Plan.Classifier.Deps.{
  walk, edge_count, apply_data_flow_add_on, changed_data_flow_uses,
}
use spexmachina.Plan.Classifier.Actions.{close_action, matched_create_action}
use spexmachina.Plan.Classifier.Order.{sort_actions}
use spexmachina.Plan.Classifier.AnyOrder.{AreDistinct, same_fields, by_fields, sort_actions-Permᴰ}
use spexmachina.Plan.Classifier.Walk.{walk_total}
use spexmachina.Plan.Classifier.Claims.{claims, refused, refusal, refused-classify_actions}
use spexmachina.Plan.Classifier.Tally.{tally}
use spexmachina.Plan.Classifier.Moves.{moves_task, open_due, is_open_orphan, classify_actions-moves}
use spexmachina.Plan.Classifier.Creates.{
  creates_for, absent_due, is_absent_orphan, is_admitted, classify_actions-creates,
}
use spexmachina.Plan.Classifier.AddOn.{AddsFlows, changes_of, apply_data_flow_add_on-AddsFlows}
use spexmachina.Plan.Classifier.{claimed_tasks, classify_actions, accepted_actions}

abbrev change : String → String → ChangeType → ClassifiedChange
change key node_type type = record {
  change = record {
    key = key;
    type = type;
    node_type = node_type;
    module_hash = "m1";
    old_hash = "h";
    new_hash = "g";
  };
  impact = contract;
  module_name = "m";
}

abbrev pairing : String → String → String → Pairing
pairing key task_id status = record {
  spec_node_id = key;
  task_id = task_id;
  node_type = "component";
  module_name = "m";
  name = key;
  bead_status = status;
  after = "h";
}

abbrev component : String → Component
component id = record {
  id = id;
  name = id;
  description = "";
  content = "";
  implements = [];
  uses = "c1" ∷ [];
}

abbrev flow : DataFlow
flow = record { id = "f1"; name = "f1"; description = ""; content = ""; uses = "c2" ∷ [] }

abbrev entry : ModuleEntry
entry = record {
  module_decl = record {
    id = "m1";
    name = "m";
    path = "m";
    description = "";
    requires_module = "m1" ∷ "m9" ∷ [];
  };
  spec = record {
    name = "m";
    description = "";
    requirements = [];
    components = component "c1" ∷ component "c2" ∷ [];
    data_flows = flow ∷ [];
    test_sections = [];
    apis = [];
  };
}

abbrev graph : SpecGraph
graph = record {
  by_name = ("m", entry) ∷ [];
  by_id = ("m1", entry) ∷ [];
  project_reqs = [];
  profile = none;
}

abbrev matches_with : String → List Match
matches_with status =
    record { change = change "c1" "component" modified; records = pairing "c1" "t1" status ∷ [] }
    ∷ record { change = change "c2" "component" modified; records = pairing "c2" "t2" "" ∷ [] }
    ∷ []

abbrev unmatched : List Unmatched
unmatched = record { change = change "f1" "data_flow" added } ∷ []

abbrev orphaned : List Orphaned
orphaned = record { pairing = pairing "c3" "t3" "open"; node_type = "component" } ∷ []

refused_run :
    classify_actions (matches_with "in_progress") unmatched orphaned graph
    ≡ err (claimed_tasks ("t1" ∷ []))
unfolding classify_actions sort_strings sort_by insert_by
refused_run = refl

accepted_run :
    classify_actions (matches_with "open") unmatched orphaned graph
    ≡ ok (accepted_actions (matches_with "open") unmatched orphaned graph)
unfolding classify_actions
accepted_run = refl

number_of_actions : length (accepted_actions (matches_with "open") unmatched orphaned graph) ≡ 4
unfolding accepted_actions contains fetch sort_by insert_by store first_with sort_strings append_new
    str_lt close_action
number_of_actions = refl

refused-classify_actions_example :
    refused (classify_actions (matches_with "in_progress") unmatched orphaned graph)
    ≡ refusal (claims (matches_with "in_progress") orphaned graph)
refused-classify_actions_example =
    refused-classify_actions (matches_with "in_progress") unmatched orphaned graph

classify_actions-moves_example :
    tally (moves_task "t1") (accepted_actions (matches_with "open") unmatched orphaned graph)
    ≡ open_due (matches_with "open") graph "t1" + tally (is_open_orphan "t1") orphaned
classify_actions-moves_example =
    classify_actions-moves (matches_with "open") unmatched orphaned graph
      (accepted_actions (matches_with "open") unmatched orphaned graph) accepted_run "t1"

classify_actions-creates_example :
    tally (creates_for "c2") (accepted_actions (matches_with "open") unmatched orphaned graph)
    ≡ absent_due (matches_with "open") graph "c2"
      + tally (is_absent_orphan "c2") orphaned
      + tally (is_admitted graph "c2") unmatched
classify_actions-creates_example =
    classify_actions-creates (matches_with "open") unmatched orphaned graph
      (accepted_actions (matches_with "open") unmatched orphaned graph) accepted_run "c2"

abbrev create_c2 : Action
create_c2 = matched_create_action (change "c2" "component" modified) graph

apply_data_flow_add_on-AddsFlows_example :
    Forall₂ (AddsFlows graph (changes_of (matches_with "open") unmatched)) (create_c2 ∷ []) (
      apply_data_flow_add_on
        (create_c2 ∷ [])
        (changed_data_flow_uses (matches_with "open") unmatched graph))
apply_data_flow_add_on-AddsFlows_example =
    apply_data_flow_add_on-AddsFlows (matches_with "open") unmatched graph (create_c2 ∷ [])

abbrev create_c3 : Action
create_c3 = matched_create_action (change "c3" "component" modified) graph

two_creates-Pairwise : Pairwise AreDistinct (create_c2 ∷ create_c3 ∷ [])
unfolding matched_create_action same_fields
two_creates-Pairwise = (Pairwise-pair (λ a b. hlevel)).1 (ground arith)

sort_actions-Permᴰ_example :
    IsSorted by_fields (sort_actions (create_c2 ∷ create_c3 ∷ []))
    × (sort_actions (create_c2 ∷ create_c3 ∷ []) ≡ sort_actions (create_c3 ∷ create_c2 ∷ []))
sort_actions-Permᴰ_example = sort_actions-Permᴰ (Permᴰ.swap refl refl) two_creates-Pairwise

walk_total_example :
    (found : List String) × (walk
        (length entry.module_decl.requires_module + edge_count graph.by_id)
        entry.module_decl.requires_module
        ("m1" ∷ [])
        ("c1" ∷ [])
        graph
      ≡ some found)
walk_total_example = walk_total entry ("m1" ∷ []) ("c1" ∷ []) graph
