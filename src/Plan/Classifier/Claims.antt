-- ===== src/Plan/Classifier/Claims.antt =====
-- When ClassifyActions refuses a run, and which tasks the actions of an accepted run touch.
use spexmachina.Prelude.{
  String, Bool, true, false, not, ◌&&◌, ◌||◌, List, Option, none, some, [], ◌∷◌, ◌++◌, map, keep,
  ◌==◌, eq_iff, if◌then◌else◌, sort_strings, Result, ok, err, arith, ◌≡◌, refl, ap, ◌∙◌, Bool-cases,
  inl, inr,
}
use spexmachina.Merkle.Impact.{ClassifiedChange}
use spexmachina.Plan.Types.{Action}
use spexmachina.Plan.Graph.{SpecGraph}
use spexmachina.Plan.Matcher.{Pairing, Match, Unmatched, Orphaned}
use spexmachina.Plan.Classifier.Lookups.{is_test_section_foldback}
use spexmachina.Plan.Classifier.{
  ClassifyError, claimed_tasks, classify_record, classify_records, classify_matches,
  classify_orphaned, classify_orphans, refuse_claims, accepted_actions, classify_actions,
}

-- The pairing's task already answers for this content of the node.
abbrev pub already_tracked : ClassifiedChange → Pairing → Bool
already_tracked change rec = not (rec.after == "") && (rec.after == change.change.new_hash)

-- The pairing still owes something: its section folds back, or its task does not answer for the node.
abbrev pub is_due : ClassifiedChange → SpecGraph → Pairing → Bool
is_due change graph rec = is_test_section_foldback change graph || not (already_tracked change rec)

abbrev pub is_claim : ClassifiedChange → SpecGraph → Pairing → Bool
is_claim change graph rec = is_due change graph rec && (rec.bead_status == "in_progress")

abbrev pub is_orphan_claim : Orphaned → Bool
is_orphan_claim o = (o.pairing.bead_status == "in_progress") && not (o.pairing.task_id == "")

unfoldable pub match_claims : List Match → SpecGraph → List String
match_claims [] graph = []
match_claims (m ∷ matches) graph =
    map (λ (p : Pairing). p.task_id) (keep (is_claim m.change graph) m.records)
    ++ match_claims matches graph

-- The claimed tasks under changed or removed nodes.
unfoldable pub claims : List Match → List Orphaned → SpecGraph → List String
unfolding match_claims
claims matches orphaned graph =
    match_claims matches graph
    ++ map (λ (o : Orphaned). o.pairing.task_id) (keep is_orphan_claim orphaned)

-- No status is both.
open_or_in_progress :
    (status : String) → (status == "open") ≡ true → (status == "in_progress") ≡ false
open_or_in_progress status h = rw ((eq_iff status "open").0 h) refl

record-claim :
    (change : ClassifiedChange) (rec : Pairing) (graph : SpecGraph)
    → (classify_record change rec graph).1
      ≡ (if is_claim change graph rec then rec.task_id ∷ [] else [])
unfolding classify_record
record-claim change rec graph = elim (Bool-cases (is_test_section_foldback change graph)) [
  | inl e ↦ rw (e, classify_record) (ground (arith, open_or_in_progress rec.bead_status))
  | inr e ↦ elim (Bool-cases (already_tracked change rec)) [
    | inl f ↦ rw (e, f, classify_record) refl
    | inr f ↦ rw (e, f, classify_record) (ground (arith, open_or_in_progress rec.bead_status))
  ]
]

kept_append :
    (p : Pairing → Bool) (rec : Pairing) (rest : List Pairing) {own more : List String}
    → own ≡ (if p rec then rec.task_id ∷ [] else [])
    → more ≡ map (λ (p : Pairing). p.task_id) (keep p rest)
    → own ++ more ≡ map (λ (p : Pairing). p.task_id) (keep p (rec ∷ rest))
kept_append p rec rest e f = ground (arith, e, f)

records-claims :
    (change : ClassifiedChange) (records : List Pairing) (graph : SpecGraph)
    → (classify_records change records graph).1
      ≡ map (λ (p : Pairing). p.task_id) (keep (is_claim change graph) records)
unfolding classify_records
records-claims change [] graph = refl
records-claims change (rec ∷ records) graph =
    kept_append (is_claim change graph) rec records (record-claim change rec graph)
      (records-claims change records graph)

matches-claims :
    (matches : List Match) (graph : SpecGraph)
    → (classify_matches matches graph).1 ≡ match_claims matches graph
unfolding classify_matches match_claims
matches-claims [] graph = refl
matches-claims (m ∷ matches) graph =
    cc (records-claims m.change m.records graph, matches-claims matches graph)

orphans-claims :
    (orphaned : List Orphaned)
    → (classify_orphans orphaned).1
      ≡ map (λ (o : Orphaned). o.pairing.task_id) (keep is_orphan_claim orphaned)
unfolding classify_orphans classify_orphaned
orphans-claims [] = refl
orphans-claims (o ∷ orphaned) =
    ground (arith, orphans-claims orphaned, open_or_in_progress o.pairing.bead_status)

-- The claimed tasks of a refusal, none for an accepted run.
abbrev pub refused : Result ClassifyError (List Action) → Option (List String)
refused (ok actions) = none
refused (err (claimed_tasks tasks)) = some tasks

-- The refusal that these claimed tasks call for.
abbrev pub refusal : List String → Option (List String)
refusal [] = none
refusal (t ∷ claimed) = some (sort_strings (t ∷ claimed))

refused-refuse_claims :
    (claimed : List String) (actions : List Action)
    → refused (refuse_claims claimed actions) ≡ refusal claimed
refused-refuse_claims [] actions = refl
refused-refuse_claims (t ∷ claimed) actions = refl

-- ClassifyActions refuses with all claimed tasks at once, sorted, and accepts a run without one: the
-- claimed tasks are those of the in_progress pairings of the matches, except where the pairing
-- already tracks the change's content and the change is no test section that folds back, and of the
-- in_progress orphans that have a task id.
pub refused-classify_actions :
    (matches : List Match) (unmatched : List Unmatched) (orphaned : List Orphaned)
    (graph : SpecGraph)
    → refused (classify_actions matches unmatched orphaned graph)
      ≡ refusal (claims matches orphaned graph)
unfolding classify_actions claims
refused-classify_actions matches unmatched orphaned graph =
    refused-refuse_claims ((classify_matches matches graph).1 ++ (classify_orphans orphaned).1)
      (accepted_actions matches unmatched orphaned graph)
    ∙ ap (λ l. refusal (l ++ (classify_orphans orphaned).1)) (matches-claims matches graph)
    ∙ ap (λ l. refusal (match_claims matches graph ++ l)) (orphans-claims orphaned)
