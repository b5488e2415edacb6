-- ===== src/Plan/Matcher/Samples.antt =====
-- MatchNodes on a small diff: a node moved to another identity while its task stays, a node removed,
-- a new node, and a structural change.
use spexmachina.Prelude.{
  String, true, not, ◌&&◌, List, [], ◌∷◌, ◌≡◌, refl, keep, map, contains, sort_strings, str_lt,
  store, fetch, sort_by, insert_by,
}
use spexmachina.Merkle.Diff.{ChangeType, added, removed, modified}
use spexmachina.Merkle.Impact.{ClassifiedChange, ImpactLevel, structural, contract}
use spexmachina.Plan.Matcher.{Pairing, match_nodes}
use spexmachina.Plan.Matcher.Routing.{
  reaches_task, goes_to_matches, goes_to_orphans, goes_to_unmatched,
}
use spexmachina.Plan.Matcher.Lists.{
  match_nodes-matches, match_nodes-unmatched, match_of, unmatched_of,
}
use spexmachina.Plan.Matcher.Orphans.{orphans_task, orphans_task-match_nodes}
use spexmachina.Plan.Matcher.Tasks.{task_ids, orphaned_tasks, task_ids-match_nodes}

abbrev change : String → ChangeType → ImpactLevel → ClassifiedChange
change key type impact = record {
  change = record {
    key = key;
    type = type;
    node_type = "component";
    module_hash = "m1";
    old_hash = "h";
    new_hash = "g";
  };
  impact = impact;
  module_name = "parser";
}

abbrev pairing : String → String → Pairing
pairing key task_id = record {
  spec_node_id = key;
  task_id = task_id;
  node_type = "component";
  module_name = "parser";
  name = key;
  bead_status = "open";
  after = "h";
}

abbrev changes : List ClassifiedChange
changes =
    change "old" removed contract
    ∷ change "gone" removed contract
    ∷ change "new" added contract
    ∷ change "fresh" added contract
    ∷ change "meta" modified structural
    ∷ []

abbrev pairings : List Pairing
pairings = pairing "old" "t1" ∷ pairing "gone" "t2" ∷ pairing "new" "t1" ∷ pairing "meta" "t3" ∷ []

orphans-changes : orphans_task (match_nodes changes pairings).2 "t2" ≡ true
unfolding orphans_task match_nodes contains store fetch str_lt sort_by insert_by
orphans-changes = refl

orphans_task-match_nodes_example : orphans_task (match_nodes changes pairings).2 "t1" ≡ (
    reaches_task (goes_to_orphans pairings) pairings "t1" changes
    && not (reaches_task (goes_to_matches pairings) pairings "t1" changes))
orphans_task-match_nodes_example = orphans_task-match_nodes changes pairings "t1"

match_nodes-matches_example :
    (match_nodes changes pairings).0
    ≡ map (match_of pairings) (keep (goes_to_matches pairings) changes)
match_nodes-matches_example = match_nodes-matches changes pairings

match_nodes-unmatched_example :
    (match_nodes changes pairings).1 ≡ map unmatched_of (keep (goes_to_unmatched pairings) changes)
match_nodes-unmatched_example = match_nodes-unmatched changes pairings

task_ids-match_nodes_example :
    task_ids (match_nodes changes pairings).2 ≡ sort_strings (orphaned_tasks changes pairings)
task_ids-match_nodes_example = task_ids-match_nodes changes pairings
