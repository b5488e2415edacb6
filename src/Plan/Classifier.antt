-- ===== src/Plan/Classifier.antt =====
-- ClassifyActions of plan/action_classifier.go: how the three lists of the matcher become actions.
-- The action builders are in the child module Actions, what they read of the spec graph in
-- Lookups and Deps.
pub mod Lookups
pub mod Deps
pub mod Walk
pub mod Actions
pub mod Order
mod AnyOrder
pub mod Claims
pub mod Tally
pub mod Moves
pub mod Creates
pub mod AddOn
mod Samples
use spexmachina.Prelude.{
  String, Bool, true, false, not, ◌&&◌, List, [], ◌∷◌, ◌++◌, Option, none, some, ◌==◌,
  if◌then◌else◌, fetch, sort_strings, sort_by, Result, ok, err,
}
use spexmachina.Merkle.Impact.{ClassifiedChange}
use spexmachina.Plan.Types.{Action}
use spexmachina.Plan.Graph.{SpecGraph}
use spexmachina.Plan.Matcher.{Pairing, Match, Unmatched, Orphaned, is_removed}
use spexmachina.Plan.Classifier.Lookups.{is_test_section_foldback, gate_admits, matched_node_name}
use spexmachina.Plan.Classifier.Deps.{changed_data_flow_uses, apply_data_flow_add_on}
use spexmachina.Plan.Classifier.Actions.{
  close_action, matched_create_action, cleanup_action, retarget_action, unmatched_action,
}
use spexmachina.Plan.Classifier.Order.{sort_actions}

pub data ClassifyError : Type 0 where
  claimed_tasks : (tasks : List String) → ClassifyError

-- The actions and the claimed tasks of one step.
abbrev pub Outcome : Type 0
Outcome = List Action × List String

abbrev pub join : Outcome → Outcome → Outcome
join a b = (a.0 ++ b.0, a.1 ++ b.1)

-- The body of classifyMatch's loop.
unfoldable pub classify_record : ClassifiedChange → Pairing → SpecGraph → Outcome
unfolding is_test_section_foldback matched_node_name retarget_action matched_create_action
classify_record change rec graph =
    if is_test_section_foldback change graph
    then (if rec.bead_status == "open"
        then (
          close_action change.module_name (matched_node_name change graph) change.change.node_type
                change.change.key rec.task_id "modified"
              ∷ [],
          [],
        )
        else if rec.bead_status == "in_progress"
        then ([], rec.task_id ∷ [])
        else ([], []))
    else if not (rec.after == "") && (rec.after == change.change.new_hash)
    then ([], [])
    else if rec.bead_status == "open"
    then (retarget_action change rec graph ∷ [], [])
    else if rec.bead_status == "in_progress"
    then ([], rec.task_id ∷ [])
    else (matched_create_action change graph ∷ [], [])

unfoldable pub classify_records : ClassifiedChange → List Pairing → SpecGraph → Outcome
unfolding classify_record
classify_records change [] graph = ([], [])
classify_records change (rec ∷ records) graph =
    join (classify_record change rec graph) (classify_records change records graph)

abbrev pub classify_match : Match → SpecGraph → Outcome
classify_match m graph = classify_records m.change m.records graph

unfoldable pub classify_matches : List Match → SpecGraph → Outcome
unfolding classify_records
classify_matches [] graph = ([], [])
classify_matches (m ∷ matches) graph =
    join (classify_match m graph) (classify_matches matches graph)

-- An empty id of a claimed task is no claim, as in the caller.
unfoldable pub classify_orphaned : Orphaned → Outcome
classify_orphaned o =
    if o.pairing.bead_status == "open"
    then (
      close_action o.pairing.module_name o.pairing.name o.node_type o.pairing.spec_node_id
            o.pairing.task_id "removed"
          ∷ [],
      [],
    )
    else if o.pairing.bead_status == "in_progress"
    then ([], if o.pairing.task_id == "" then [] else o.pairing.task_id ∷ [])
    else (cleanup_action o.pairing o.node_type ∷ [], [])

unfoldable pub classify_orphans : List Orphaned → Outcome
unfolding classify_orphaned
classify_orphans [] = ([], [])
classify_orphans (o ∷ orphaned) = join (classify_orphaned o) (classify_orphans orphaned)

unfoldable pub classify_unmatched : Unmatched → SpecGraph → Option Action
unfolding gate_admits unmatched_action
classify_unmatched u graph =
    if is_removed u.change.change.type
    then none
    else if gate_admits u.change graph
    then some (unmatched_action u.change graph)
    else none

unfoldable pub classify_all_unmatched : List Unmatched → SpecGraph → List Action
unfolding classify_unmatched
classify_all_unmatched [] graph = []
classify_all_unmatched (u ∷ unmatched) graph =
    let rest = classify_all_unmatched unmatched graph in
    elim (classify_unmatched u graph) [ none ↦ rest | some a ↦ a ∷ rest ]

-- The claim check.
abbrev pub refuse_claims : List String → List Action → Result ClassifyError (List Action)
refuse_claims [] actions = ok actions
refuse_claims (t ∷ claimed) actions = err (claimed_tasks (sort_strings (t ∷ claimed)))

-- The actions of a run without a claimed task.
unfoldable pub accepted_actions :
    List Match → List Unmatched → List Orphaned → SpecGraph → List Action
unfolding classify_matches classify_orphans classify_all_unmatched changed_data_flow_uses
    apply_data_flow_add_on sort_actions
accepted_actions matches unmatched orphaned graph =
    let flow_uses = changed_data_flow_uses matches unmatched graph in
    let actions = (classify_matches matches graph).0 ++ (classify_orphans orphaned).0 in
    sort_actions
      (apply_data_flow_add_on (actions ++ classify_all_unmatched unmatched graph) flow_uses)

unfoldable pub classify_actions :
    List Match → List Unmatched → List Orphaned → SpecGraph → Result ClassifyError (List Action)
unfolding classify_matches classify_orphans accepted_actions
classify_actions matches unmatched orphaned graph =
    refuse_claims ((classify_matches matches graph).1 ++ (classify_orphans orphaned).1)
      (accepted_actions matches unmatched orphaned graph)
