-- ===== src/Plan/Classifier/Actions.antt =====
-- The action builders of plan/action_classifier.go.
use spexmachina.Prelude.{String, [], ◌==◌, if◌then◌else◌, ◌⊕◌}
use spexmachina.Merkle.Diff.{ChangeType, added, removed, modified}
use spexmachina.Merkle.Impact.{ClassifiedChange}
use spexmachina.Plan.Types.{Action, action_create, action_obsolete, action_retarget}
use spexmachina.Plan.Graph.{SpecGraph}
use spexmachina.Plan.Matcher.{Pairing}
use spexmachina.Plan.Classifier.Lookups.{matched_node_name}
use spexmachina.Plan.Classifier.Deps.{deps_for}

-- fmt.Sprintf(prefix + "%s/%s", module, node)
abbrev pub reason_for : String → String → String → String
reason_for prefix module_name node = prefix ⊕ (module_name ⊕ ("/" ⊕ node))

unfoldable pub close_action : String → String → String → String → String → String → Action
close_action module_name node node_type spec_node_id task_id change_type = record {
  type = action_obsolete;
  task_id = task_id;
  module_name = module_name;
  node = node;
  node_type = node_type;
  spec_node_id = spec_node_id;
  spec_hash = "";
  dep_spec_node_ids = [];
  change_type = change_type;
  reason =
      reason_for
        (if change_type == "removed" then "Spec node removed: " else "Spec node modified: ")
        module_name node;
}

-- A create for a change, with a reason that starts with the prefix.
abbrev pub create_action : String → ClassifiedChange → SpecGraph → Action
create_action prefix change graph = record {
  type = action_create;
  task_id = "";
  module_name = change.module_name;
  node = matched_node_name change graph;
  node_type = change.change.node_type;
  spec_node_id = change.change.key;
  spec_hash = change.change.new_hash;
  dep_spec_node_ids = deps_for change graph;
  change_type = "";
  reason = reason_for prefix change.module_name (matched_node_name change graph);
}

unfoldable pub matched_create_action : ClassifiedChange → SpecGraph → Action
unfolding matched_node_name deps_for
matched_create_action = create_action "Spec node modified (new): "

abbrev pub new_prefix : ChangeType → String
new_prefix modified = "Spec node modified (new): "
new_prefix added = "New spec node: "
new_prefix removed = "New spec node: "

-- The create that classifyUnmatched returns.
unfoldable pub unmatched_action : ClassifiedChange → SpecGraph → Action
unfolding matched_node_name deps_for
unmatched_action change graph = create_action (new_prefix change.change.type) change graph

unfoldable pub cleanup_action : Pairing → String → Action
cleanup_action rec node_type = record {
  type = action_create;
  task_id = "";
  module_name = rec.module_name;
  node = rec.name;
  node_type = node_type;
  spec_node_id = rec.spec_node_id;
  spec_hash = "";
  dep_spec_node_ids = [];
  change_type = "";
  reason = reason_for "Code cleanup: " rec.module_name rec.name;
}

unfoldable pub retarget_action : ClassifiedChange → Pairing → SpecGraph → Action
unfolding matched_node_name deps_for
retarget_action change rec graph = record {
  type = action_retarget;
  task_id = rec.task_id;
  module_name = change.module_name;
  node = matched_node_name change graph;
  node_type = change.change.node_type;
  spec_node_id = change.change.key;
  spec_hash = change.change.new_hash;
  dep_spec_node_ids = deps_for change graph;
  change_type = "";
  reason =
      reason_for "Spec node modified (retarget): " change.module_name
        (matched_node_name change graph);
}
