-- ===== src/Plan/Matcher/Orphans.antt =====
-- The orphans of MatchNodes.
use mathlib.Core.Bool.{◌||◌, ◌&&◌}
use spexmachina.Prelude.{
  String, Bool, true, false, not, List, [], ◌∷◌, ◌==◌, if◌then◌else◌, contains, sort_by, insert_by,
  fetch, arith, ◌≡◌, refl, ◌∙◌,
}
use spexmachina.Merkle.Impact.{ClassifiedChange}
use spexmachina.Plan.Matcher.{
  Pairing, Orphaned, Matching, pairings_of, by_orphan_task, match_loop, orphans_of, nothing_matched,
  match_nodes,
}
use spexmachina.Plan.Matcher.Routing.{
  is_some, candidate, goes_to_matches, goes_to_orphans, reaches_task, route-tasks, route-candidate,
  step, names_task-is_empty,
}
use spexmachina.Plan.Matcher.Keyed.{KeyedByTask, loop-KeyedByTask}

loop-tasks :
    (changes : List ClassifiedChange) (pairings : List Pairing) (st : Matching) (t : String)
    → contains (match_loop changes pairings st).matched_tasks t
      ≡ (contains st.matched_tasks t || reaches_task (goes_to_matches pairings) pairings t changes)
unfolding match_loop reaches_task
loop-tasks [] pairings st t = ground arith
loop-tasks (c ∷ changes) pairings st t = ground (
  arith,
  loop-tasks changes pairings (step c pairings st) t,
  route-tasks c (pairings_of pairings c.change.key) st t,
  names_task-is_empty (pairings_of pairings c.change.key) t,
)

loop-candidate :
    (changes : List ClassifiedChange) (pairings : List Pairing) (st : Matching) (t : String)
    → (contains st.matched_tasks t ≡ true → candidate st t ≡ false)
    → candidate (match_loop changes pairings st) t ≡ (
        if contains st.matched_tasks t || reaches_task (goes_to_matches pairings) pairings t changes
        then false
        else candidate st t || reaches_task (goes_to_orphans pairings) pairings t changes)
unfolding match_loop reaches_task
loop-candidate [] pairings st t inv = ground arith
loop-candidate (c ∷ changes) pairings st t inv = ground (
  arith,
  loop-candidate changes pairings (step c pairings st) t,
  route-tasks c (pairings_of pairings c.change.key) st t,
  route-candidate c (pairings_of pairings c.change.key) st t,
  names_task-is_empty (pairings_of pairings c.change.key) t,
)

unfoldable pub orphans_task : List Orphaned → String → Bool
orphans_task [] t = false
orphans_task (o ∷ orphans) t = (o.pairing.task_id == t) || orphans_task orphans t

pub orphans_task-candidates :
    (candidates : List (String × Orphaned)) (t : String)
    → KeyedByTask candidates
    → orphans_task (orphans_of candidates) t ≡ is_some (fetch candidates t)
unfolding orphans_of orphans_task is_some fetch
orphans_task-candidates [] t h = refl
orphans_task-candidates (entry ∷ candidates) t h =
    ground (arith, orphans_task-candidates candidates t h.1, h.0)

orphans_task-insert_by :
    (o : Orphaned) (l : List Orphaned) (t : String)
    → orphans_task (insert_by by_orphan_task o l) t ≡ orphans_task (o ∷ l) t
unfolding insert_by orphans_task
orphans_task-insert_by o [] t = refl
orphans_task-insert_by o (o' ∷ l) t = ground (arith, orphans_task-insert_by o l t)

pub orphans_task-sort_by :
    (l : List Orphaned) (t : String) → orphans_task (sort_by by_orphan_task l) t ≡ orphans_task l t
unfolding sort_by orphans_task
orphans_task-sort_by [] t = refl
orphans_task-sort_by (o ∷ l) t =
    ground (arith, orphans_task-insert_by o (sort_by by_orphan_task l) t, orphans_task-sort_by l t)

-- A task is orphaned exactly if a removed, non-structural change reaches it through a pairing of its
-- node and no added or modified one does, wherever these changes stand in the list.
pub orphans_task-match_nodes :
    (changes : List ClassifiedChange) (pairings : List Pairing) (t : String)
    → orphans_task (match_nodes changes pairings).2 t ≡ (
        reaches_task (goes_to_orphans pairings) pairings t changes
        && not (reaches_task (goes_to_matches pairings) pairings t changes))
unfolding match_nodes is_some fetch contains
orphans_task-match_nodes changes pairings t =
    let st = match_loop changes pairings nothing_matched in
    orphans_task-sort_by (orphans_of st.orphan_candidates) t
    ∙ orphans_task-candidates st.orphan_candidates t
        (loop-KeyedByTask changes pairings nothing_matched tt)
    ∙ ground (arith, loop-candidate changes pairings nothing_matched t (λ e. refl))
