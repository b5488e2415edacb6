-- ===== src/Plan/Matcher/Tasks.antt =====
-- The task ids of the orphans of MatchNodes.
use spexmachina.Prelude.{
  String, Bool, true, not, ◌&&◌, List, [], ◌∷◌, ◌==◌, if◌then◌else◌, contains, count, count-keep,
  keep, map, sort_by, insert_by, sort_strings, sort_strings_of_count, str_lt, fetch, arith,
  HasKeysOnce, ◌≡◌, refl, ◌∙◌, ap, eq_iff,
}
use spexmachina.Merkle.Impact.{ClassifiedChange}
use spexmachina.Plan.Matcher.{
  Pairing, Orphaned, pairings_of, by_orphan_task, match_loop, orphans_of, nothing_matched,
  match_nodes,
}
use spexmachina.Plan.Matcher.Routing.{
  is_some, names_task, goes_to_matches, goes_to_orphans, reaches_task,
}
use spexmachina.Plan.Matcher.Keyed.{KeyedByTask, loop-KeyedByTask, loop-HasKeysOnce}
use spexmachina.Plan.Matcher.Orphans.{
  orphans_task-candidates, orphans_task-sort_by, orphans_task-match_nodes,
}

-- Each string once.
unfoldable pub distinct : List String → List String
distinct [] = []
distinct (x ∷ xs) = x ∷ keep (λ y. not (y == x)) (distinct xs)

abbrev pub task_ids : List Orphaned → List String
task_ids = map (λ (o : Orphaned). o.pairing.task_id)

-- Whether a removed change reaches the task and no added or modified one does.
abbrev pub only_removed : List ClassifiedChange → List Pairing → String → Bool
only_removed changes pairings t =
    reaches_task (goes_to_orphans pairings) pairings t changes
    && not (reaches_task (goes_to_matches pairings) pairings t changes)

abbrev pub orphaned_tasks : List ClassifiedChange → List Pairing → List String
orphaned_tasks changes pairings =
    keep (only_removed changes pairings) (distinct (map (λ (p : Pairing). p.task_id) pairings))

count-distinct :
    (xs : List String) (t : String) → count t (distinct xs) ≡ (if contains xs t then 1 else 0)
unfolding distinct count contains
count-distinct [] t = refl
count-distinct (x ∷ xs) t = ground (
  arith,
  count-keep (λ (y : String). not (y == x)) t (distinct xs),
  count-distinct xs t,
  eq_iff t x,
  eq_iff x t,
)

task_ids-insert_by :
    (o : Orphaned) (l : List Orphaned)
    → task_ids (insert_by by_orphan_task o l) ≡ insert_by str_lt o.pairing.task_id (task_ids l)
unfolding insert_by
task_ids-insert_by o [] = refl
task_ids-insert_by o (o' ∷ l) = ground (arith, task_ids-insert_by o l)

task_ids-sort_by :
    (l : List Orphaned) → task_ids (sort_by by_orphan_task l) ≡ sort_strings (task_ids l)
unfolding sort_by sort_strings
task_ids-sort_by [] = refl
task_ids-sort_by (o ∷ l) =
    task_ids-insert_by o (sort_by by_orphan_task l)
    ∙ ap (insert_by str_lt o.pairing.task_id) (task_ids-sort_by l)

count-task_ids :
    (candidates : List (String × Orphaned)) (t : String)
    → KeyedByTask candidates
    → HasKeysOnce candidates
    → count t (task_ids (orphans_of candidates)) ≡ (if is_some (fetch candidates t) then 1 else 0)
unfolding orphans_of is_some fetch count
count-task_ids [] t h once = refl
count-task_ids (entry ∷ candidates) t h once =
    ground (arith, count-task_ids candidates t h.1 once.1, h.0, once.0, eq_iff entry.0 t)

names_task-contains :
    (pairings : List Pairing) (key t : String)
    → names_task (pairings_of pairings key) t ≡ true
    → contains (map (λ (p : Pairing). p.task_id) pairings) t ≡ true
unfolding names_task pairings_of contains
names_task-contains [] key t h = ground (arith, h)
names_task-contains (p ∷ pairings) key t h = ground (arith, h, names_task-contains pairings key t)

reaches_task-contains :
    (test : ClassifiedChange → Bool) (pairings : List Pairing) (t : String)
    (changes : List ClassifiedChange)
    → reaches_task test pairings t changes ≡ true
    → contains (map (λ (p : Pairing). p.task_id) pairings) t ≡ true
unfolding reaches_task
reaches_task-contains test pairings t [] h = ground (arith, h)
reaches_task-contains test pairings t (c ∷ changes) h = ground (
  arith,
  h,
  reaches_task-contains test pairings t changes,
  names_task-contains pairings c.change.key t,
)

-- The task ids of the orphans, in the order of MatchNodes, are the task ids of the pairings that a
-- removed, non-structural change reaches through a pairing of its node and no added or modified one
-- does, each once and in ascending order.
pub task_ids-match_nodes :
    (changes : List ClassifiedChange) (pairings : List Pairing)
    → task_ids (match_nodes changes pairings).2 ≡ sort_strings (orphaned_tasks changes pairings)
unfolding match_nodes
task_ids-match_nodes changes pairings =
    let st = match_loop changes pairings nothing_matched in
    let found = orphans_of st.orphan_candidates in
    let keyed = loop-KeyedByTask changes pairings nothing_matched tt in
    let once = loop-HasKeysOnce changes pairings nothing_matched tt in
    task_ids-sort_by found
    ∙ sort_strings_of_count (task_ids found) (orphaned_tasks changes pairings) (λ t. ground (
      arith,
      count-task_ids st.orphan_candidates t keyed once,
      orphans_task-candidates st.orphan_candidates t keyed,
      orphans_task-sort_by found t,
      orphans_task-match_nodes changes pairings t,
      count-keep (only_removed changes pairings) t
          (distinct (map (λ (p : Pairing). p.task_id) pairings)),
      count-distinct (map (λ (p : Pairing). p.task_id) pairings) t,
      reaches_task-contains (goes_to_orphans pairings) pairings t changes,
    ))
