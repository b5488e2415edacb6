-- ===== src/Plan/Classifier/Creates.antt =====
-- Which spec nodes the creates of an accepted run are for.
use spexmachina.Prelude.{
  String, ℕ, ◌+◌, Bool, not, ◌&&◌, List, [], ◌∷◌, ◌++◌, ◌==◌, if◌then◌else◌, ok, arith, ◌≡◌, refl,
  ap, sym, ◌∙◌, Bool-cases, inl, inr,
}
use spexmachina.Merkle.Impact.{ClassifiedChange}
use spexmachina.Plan.Types.{Action, action_create}
use spexmachina.Plan.Graph.{SpecGraph}
use spexmachina.Plan.Matcher.{Pairing, Match, Unmatched, Orphaned, is_removed}
use spexmachina.Plan.Classifier.Lookups.{is_test_section_foldback, gate_admits}
use spexmachina.Plan.Classifier.Deps.{apply_data_flow_add_on, flows_of, changed_data_flow_uses}
use spexmachina.Plan.Classifier.Actions.{
  close_action, matched_create_action, cleanup_action, retarget_action, unmatched_action,
}
use spexmachina.Plan.Classifier.Order.{sort_actions, action_less}
use spexmachina.Plan.Classifier.Claims.{already_tracked}
use spexmachina.Plan.Classifier.{
  classify_record, classify_records, classify_match, classify_matches, classify_orphaned,
  classify_orphans, classify_unmatched, classify_all_unmatched, accepted_actions, classify_actions,
}
use spexmachina.Plan.Classifier.Tally.{tally, tally-append, tally-sort_by, add_on-same, accepted}

-- A create for the given node.
abbrev pub creates_for : String → Action → Bool
creates_for id a = (a.type == action_create) && (a.spec_node_id == id)

flows-creates :
    (actions : List Action) (uses : List (String × List String)) (id : String)
    → tally (creates_for id) (apply_data_flow_add_on actions uses) ≡ tally (creates_for id) actions
unfolding apply_data_flow_add_on
flows-creates [] uses id = refl
flows-creates (a ∷ actions) uses id =
    ground (arith, flows-creates actions uses id, add_on-same a (flows_of uses a.spec_node_id))

-- A pairing whose task is gone from the tracker and that does not answer for the node's content.
abbrev pub is_absent_due : ClassifiedChange → SpecGraph → String → Pairing → Bool
is_absent_due change graph id rec =
    (not (is_test_section_foldback change graph) && not (already_tracked change rec))
    && ((not (rec.bead_status == "open") && not (rec.bead_status == "in_progress"))
        && (change.change.key == id))

unfoldable pub absent_due : List Match → SpecGraph → String → ℕ
absent_due [] graph id = 0
absent_due (m ∷ matches) graph id =
    tally (is_absent_due m.change graph id) m.records + absent_due matches graph id

abbrev pub is_absent_orphan : String → Orphaned → Bool
is_absent_orphan id o =
    (not (o.pairing.bead_status == "open") && not (o.pairing.bead_status == "in_progress"))
    && (o.pairing.spec_node_id == id)

abbrev pub is_admitted : SpecGraph → String → Unmatched → Bool
is_admitted graph id u =
    (not (is_removed u.change.change.type) && gate_admits u.change graph)
    && (u.change.change.key == id)

record-creates :
    (change : ClassifiedChange) (rec : Pairing) (graph : SpecGraph) (id : String)
    → tally (creates_for id) (classify_record change rec graph).0
      ≡ (if is_absent_due change graph id rec then 1 else 0)
unfolding classify_record close_action retarget_action matched_create_action
record-creates change rec graph id = elim (Bool-cases (is_test_section_foldback change graph)) [
  | inl e ↦ rw (e, classify_record) (ground arith)
  | inr e ↦ elim (Bool-cases (already_tracked change rec)) [
    | inl f ↦ rw (e, f, classify_record) refl
    | inr f ↦ rw (e, f, classify_record) (ground arith)
  ]
]

records-creates :
    (change : ClassifiedChange) (records : List Pairing) (graph : SpecGraph) (id : String)
    → tally (creates_for id) (classify_records change records graph).0
      ≡ tally (is_absent_due change graph id) records
unfolding classify_records
records-creates change [] graph id = refl
records-creates change (rec ∷ records) graph id = omega (
  arith,
  tally-append (creates_for id) (classify_record change rec graph).0
      (classify_records change records graph).0,
  record-creates change rec graph id,
  records-creates change records graph id,
)

matches-creates :
    (matches : List Match) (graph : SpecGraph) (id : String)
    → tally (creates_for id) (classify_matches matches graph).0 ≡ absent_due matches graph id
unfolding classify_matches absent_due
matches-creates [] graph id = refl
matches-creates (m ∷ matches) graph id = omega (
  arith,
  tally-append (creates_for id) (classify_match m graph).0 (classify_matches matches graph).0,
  records-creates m.change m.records graph id,
  matches-creates matches graph id,
)

orphans-creates :
    (orphaned : List Orphaned) (id : String)
    → tally (creates_for id) (classify_orphans orphaned).0 ≡ tally (is_absent_orphan id) orphaned
unfolding classify_orphans classify_orphaned close_action cleanup_action
orphans-creates [] id = refl
orphans-creates (o ∷ orphaned) id = ground (arith, orphans-creates orphaned id)

unmatched-creates :
    (unmatched : List Unmatched) (graph : SpecGraph) (id : String)
    → tally (creates_for id) (classify_all_unmatched unmatched graph)
      ≡ tally (is_admitted graph id) unmatched
unfolding classify_all_unmatched classify_unmatched unmatched_action
unmatched-creates [] graph id = refl
unmatched-creates (u ∷ unmatched) graph id = elim (Bool-cases (gate_admits u.change graph)) [
  | inl e ↦ rw (e, classify_all_unmatched) (ground (arith, unmatched-creates unmatched graph id))
  | inr e ↦ rw (e, classify_all_unmatched) (ground (arith, unmatched-creates unmatched graph id))
]

-- In an accepted run, the creates of a spec node are as many as the matched pairings of the node
-- whose task is neither open nor in progress, that do not track the change's content and whose change
-- is no test section that folds back, the orphans of the node whose task is neither open nor in
-- progress, and the unmatched changes of the node that are not removed and pass the node-type gate.
pub classify_actions-creates :
    (matches : List Match) (unmatched : List Unmatched) (orphaned : List Orphaned)
    (graph : SpecGraph) (actions : List Action)
    → classify_actions matches unmatched orphaned graph ≡ ok actions
    → (id : String)
    → tally (creates_for id) actions
      ≡ absent_due matches graph id
        + tally (is_absent_orphan id) orphaned
        + tally (is_admitted graph id) unmatched
unfolding classify_actions accepted_actions sort_actions
classify_actions-creates matches unmatched orphaned graph actions e id =
    let ms = (classify_matches matches graph).0 in
    let os = (classify_orphans orphaned).0 in
    let us = classify_all_unmatched unmatched graph in
    let uses = changed_data_flow_uses matches unmatched graph in
    let planned = apply_data_flow_add_on (ms ++ os ++ us) uses in
    ap (tally (creates_for id))
      (sym (accepted _ (accepted_actions matches unmatched orphaned graph) actions e))
    ∙ tally-sort_by action_less (creates_for id) planned
    ∙ flows-creates (ms ++ os ++ us) uses id
    ∙ omega (
      arith,
      tally-append (creates_for id) (ms ++ os) us,
      tally-append (creates_for id) ms os,
      matches-creates matches graph id,
      orphans-creates orphaned id,
      unmatched-creates unmatched graph id,
    )
