-- ===== src/Plan/Classifier/Moves.antt =====
-- Which tasks the closes and retargets of an accepted run are about.
use spexmachina.Prelude.{
  String, ℕ, ◌+◌, Bool, not, ◌&&◌, List, [], ◌∷◌, ◌++◌, ◌==◌, if◌then◌else◌, ok, arith, ◌≡◌, refl,
  ap, sym, ◌∙◌, Bool-cases, inl, inr,
}
use spexmachina.Merkle.Impact.{ClassifiedChange}
use spexmachina.Plan.Types.{Action, action_create}
use spexmachina.Plan.Graph.{SpecGraph}
use spexmachina.Plan.Matcher.{Pairing, Match, Unmatched, Orphaned}
use spexmachina.Plan.Classifier.Lookups.{is_test_section_foldback, gate_admits}
use spexmachina.Plan.Classifier.Deps.{apply_data_flow_add_on, flows_of, changed_data_flow_uses}
use spexmachina.Plan.Classifier.Actions.{
  close_action, matched_create_action, cleanup_action, retarget_action, unmatched_action,
}
use spexmachina.Plan.Classifier.Order.{sort_actions, action_less}
use spexmachina.Plan.Classifier.Claims.{is_due, already_tracked}
use spexmachina.Plan.Classifier.{
  classify_record, classify_records, classify_match, classify_matches, classify_orphaned,
  classify_orphans, classify_unmatched, classify_all_unmatched, accepted_actions, classify_actions,
}
use spexmachina.Plan.Classifier.Tally.{tally, tally-append, tally-sort_by, add_on-same, accepted}

-- An action that is about a task that the tracker already has, and is the given one.
abbrev pub moves_task : String → Action → Bool
moves_task t a = not (a.type == action_create) && (a.task_id == t)

-- A pairing with an open task that is due.
abbrev pub is_open_due : ClassifiedChange → SpecGraph → String → Pairing → Bool
is_open_due change graph t rec =
    is_due change graph rec && ((rec.bead_status == "open") && (rec.task_id == t))

unfoldable pub open_due : List Match → SpecGraph → String → ℕ
open_due [] graph t = 0
open_due (m ∷ matches) graph t =
    tally (is_open_due m.change graph t) m.records + open_due matches graph t

abbrev pub is_open_orphan : String → Orphaned → Bool
is_open_orphan t o = (o.pairing.bead_status == "open") && (o.pairing.task_id == t)

record-moves :
    (change : ClassifiedChange) (rec : Pairing) (graph : SpecGraph) (t : String)
    → tally (moves_task t) (classify_record change rec graph).0
      ≡ (if is_open_due change graph t rec then 1 else 0)
unfolding classify_record close_action retarget_action matched_create_action
record-moves change rec graph t = elim (Bool-cases (is_test_section_foldback change graph)) [
  | inl e ↦ rw (e, classify_record) (ground arith)
  | inr e ↦ elim (Bool-cases (already_tracked change rec)) [
    | inl f ↦ rw (e, f, classify_record) refl
    | inr f ↦ rw (e, f, classify_record) (ground arith)
  ]
]

records-moves :
    (change : ClassifiedChange) (records : List Pairing) (graph : SpecGraph) (t : String)
    → tally (moves_task t) (classify_records change records graph).0
      ≡ tally (is_open_due change graph t) records
unfolding classify_records
records-moves change [] graph t = refl
records-moves change (rec ∷ records) graph t = omega (
  arith,
  tally-append (moves_task t) (classify_record change rec graph).0
      (classify_records change records graph).0,
  record-moves change rec graph t,
  records-moves change records graph t,
)

matches-moves :
    (matches : List Match) (graph : SpecGraph) (t : String)
    → tally (moves_task t) (classify_matches matches graph).0 ≡ open_due matches graph t
unfolding classify_matches open_due
matches-moves [] graph t = refl
matches-moves (m ∷ matches) graph t = omega (
  arith,
  tally-append (moves_task t) (classify_match m graph).0 (classify_matches matches graph).0,
  records-moves m.change m.records graph t,
  matches-moves matches graph t,
)

orphans-moves :
    (orphaned : List Orphaned) (t : String)
    → tally (moves_task t) (classify_orphans orphaned).0 ≡ tally (is_open_orphan t) orphaned
unfolding classify_orphans classify_orphaned close_action cleanup_action
orphans-moves [] t = refl
orphans-moves (o ∷ orphaned) t = ground (arith, orphans-moves orphaned t)

unmatched-moves :
    (unmatched : List Unmatched) (graph : SpecGraph) (t : String)
    → tally (moves_task t) (classify_all_unmatched unmatched graph) ≡ 0
unfolding classify_all_unmatched classify_unmatched unmatched_action
unmatched-moves [] graph t = refl
unmatched-moves (u ∷ unmatched) graph t = elim (Bool-cases (gate_admits u.change graph)) [
  | inl e ↦ rw (e, classify_all_unmatched) (ground (arith, unmatched-moves unmatched graph t))
  | inr e ↦ rw (e, classify_all_unmatched) (ground (arith, unmatched-moves unmatched graph t))
]

flows-moves :
    (actions : List Action) (uses : List (String × List String)) (t : String)
    → tally (moves_task t) (apply_data_flow_add_on actions uses) ≡ tally (moves_task t) actions
unfolding apply_data_flow_add_on
flows-moves [] uses t = refl
flows-moves (a ∷ actions) uses t =
    ground (arith, flows-moves actions uses t, add_on-same a (flows_of uses a.spec_node_id))

-- In an accepted run, the closes and retargets of a task are as many as the due pairings of the
-- matches with that task open and the orphans with that task open. A pairing is due if it is
-- one of a test section that folds back, or the journal does not already track the change.
pub classify_actions-moves :
    (matches : List Match) (unmatched : List Unmatched) (orphaned : List Orphaned)
    (graph : SpecGraph) (actions : List Action)
    → classify_actions matches unmatched orphaned graph ≡ ok actions
    → (t : String)
    → tally (moves_task t) actions ≡ open_due matches graph t + tally (is_open_orphan t) orphaned
unfolding classify_actions accepted_actions sort_actions
classify_actions-moves matches unmatched orphaned graph actions e t =
    let ms = (classify_matches matches graph).0 in
    let os = (classify_orphans orphaned).0 in
    let us = classify_all_unmatched unmatched graph in
    let uses = changed_data_flow_uses matches unmatched graph in
    let planned = apply_data_flow_add_on (ms ++ os ++ us) uses in
    ap (tally (moves_task t))
      (sym (accepted _ (accepted_actions matches unmatched orphaned graph) actions e))
    ∙ tally-sort_by action_less (moves_task t) planned
    ∙ flows-moves (ms ++ os ++ us) uses t
    ∙ omega (
      arith,
      tally-append (moves_task t) (ms ++ os) us,
      tally-append (moves_task t) ms os,
      matches-moves matches graph t,
      orphans-moves orphaned t,
      unmatched-moves unmatched graph t,
    )
