-- ===== src/Plan/Matcher/Routing.antt =====
-- How one change of MatchNodes' loop moves tasks between the matched ones and the orphan candidates.
use mathlib.Core.Bool.{◌||◌, ◌&&◌}
use spexmachina.Prelude.{
  String, Bool, true, false, not, List, [], ◌∷◌, Option, none, some, ◌==◌, eq_iff, if◌then◌else◌,
  contains, sort_by, fetch, fetch-store, arith, ◌≡◌, refl, ap,
}
use spexmachina.Merkle.Impact.{ClassifiedChange}
use spexmachina.Plan.Matcher.{
  Pairing, Matching, is_structural, is_removed, pairings_of, by_task, drop_key, add_orphan,
  add_orphans, mark_matched, add_match, route,
}

unfoldable pub is_empty {ℓ} : {A : Type ℓ} → List A → Bool
is_empty [] = true
is_empty (x ∷ xs) = false

unfoldable pub is_some {ℓ} : {A : Type ℓ} → Option A → Bool
is_some none = false
is_some (some a) = true

pub fetch-drop_key {ℓ} :
    {V : Type ℓ} (m : List (String × V)) (k j : String)
    → fetch (drop_key m k) j ≡ (if k == j then none else fetch m j)
unfolding fetch drop_key
fetch-drop_key [] k j = ground arith
fetch-drop_key (entry ∷ m) k j =
    ground (arith, fetch-drop_key m k j, eq_iff entry.0 k, eq_iff entry.0 j, eq_iff k j)

-- Whether one of the pairings is of the task.
unfoldable pub names_task : List Pairing → String → Bool
names_task [] t = false
names_task (p ∷ pairings) t = (p.task_id == t) || names_task pairings t

abbrev pub candidate : Matching → String → Bool
candidate st t = is_some (fetch st.orphan_candidates t)

pub add_orphan-lists :
    (p : Pairing) (type : String) (st : Matching)
    → ((add_orphan p type st).matched_tasks ≡ st.matched_tasks)
      × ((add_orphan p type st).matches ≡ st.matches)
      × ((add_orphan p type st).unmatched ≡ st.unmatched)
unfolding add_orphan
add_orphan-lists p type st = ground arith

pub add_orphan-candidate :
    (p : Pairing) (type : String) (st : Matching) (t : String)
    → candidate (add_orphan p type st) t
      ≡ (if contains st.matched_tasks t then candidate st t else candidate st t || (p.task_id == t))
unfolding add_orphan is_some
add_orphan-candidate p type st t = ground (
  arith,
  fetch-store st.orphan_candidates p.task_id (record { pairing = p; node_type = type }) t,
  eq_iff p.task_id t,
)

pub add_orphans-lists :
    (found : List Pairing) (type : String) (st : Matching)
    → ((add_orphans found type st).matched_tasks ≡ st.matched_tasks)
      × ((add_orphans found type st).matches ≡ st.matches)
      × ((add_orphans found type st).unmatched ≡ st.unmatched)
unfolding add_orphans
add_orphans-lists [] type st = (refl, refl, refl)
add_orphans-lists (p ∷ found) type st =
    ground (arith, add_orphans-lists found type (add_orphan p type st), add_orphan-lists p type st)

pub add_orphans-candidate :
    (found : List Pairing) (type : String) (st : Matching) (t : String)
    → candidate (add_orphans found type st) t ≡ (
        if contains st.matched_tasks t
        then candidate st t
        else candidate st t || names_task found t)
unfolding add_orphans names_task is_some
add_orphans-candidate [] type st t = ground arith
add_orphans-candidate (p ∷ found) type st t = ground (
  arith,
  add_orphans-candidate found type (add_orphan p type st) t,
  add_orphan-candidate p type st t,
  ap (λ l. contains l t) (add_orphan-lists p type st).0,
)

pub mark_matched-lists :
    (found : List Pairing) (st : Matching)
    → ((mark_matched found st).matches ≡ st.matches)
      × ((mark_matched found st).unmatched ≡ st.unmatched)
unfolding mark_matched
mark_matched-lists [] st = (refl, refl)
mark_matched-lists (p ∷ found) st = mark_matched-lists found _

abbrev pub marked : Pairing → Matching → Matching
marked p st = record {
  matched_tasks = p.task_id ∷ st.matched_tasks;
  orphan_candidates = drop_key st.orphan_candidates p.task_id;
  matches = st.matches;
  unmatched = st.unmatched;
}

pub mark_matched-tasks :
    (found : List Pairing) (st : Matching) (t : String)
    → contains (mark_matched found st).matched_tasks t
      ≡ (contains st.matched_tasks t || names_task found t)
unfolding mark_matched names_task contains
mark_matched-tasks [] st t = ground arith
mark_matched-tasks (p ∷ found) st t = ground (arith, mark_matched-tasks found (marked p st) t)

pub mark_matched-candidate :
    (found : List Pairing) (st : Matching) (t : String)
    → candidate (mark_matched found st) t ≡ (if names_task found t then false else candidate st t)
unfolding mark_matched names_task is_some
mark_matched-candidate [] st t = refl
mark_matched-candidate (p ∷ found) st t = ground (
  arith,
  mark_matched-candidate found (marked p st) t,
  fetch-drop_key st.orphan_candidates p.task_id t,
  eq_iff p.task_id t,
)

-- What MatchNodes does with a change depends on whether it is structural, is removed and is tracked.
abbrev pub tracked : List Pairing → ClassifiedChange → Bool
tracked pairings c = not (is_empty (pairings_of pairings c.change.key))

abbrev pub goes_to_matches : List Pairing → ClassifiedChange → Bool
goes_to_matches pairings c =
    not (is_structural c.impact) && (not (is_removed c.change.type) && tracked pairings c)

abbrev pub goes_to_unmatched : List Pairing → ClassifiedChange → Bool
goes_to_unmatched pairings c =
    not (is_structural c.impact) && (not (is_removed c.change.type) && not (tracked pairings c))

abbrev pub goes_to_orphans : List Pairing → ClassifiedChange → Bool
goes_to_orphans pairings c =
    not (is_structural c.impact) && (is_removed c.change.type && tracked pairings c)

-- Whether a change that passes the test has a pairing of the task.
unfoldable pub reaches_task :
    (ClassifiedChange → Bool) → List Pairing → String → List ClassifiedChange → Bool
unfolding names_task
reaches_task p pairings t [] = false
reaches_task p pairings t (c ∷ changes) =
    (p c && names_task (pairings_of pairings c.change.key) t) || reaches_task p pairings t changes

pub route-tasks :
    (c : ClassifiedChange) (found : List Pairing) (st : Matching) (t : String)
    → contains (route c found st).matched_tasks t
      ≡ (contains st.matched_tasks t || (not (is_removed c.change.type) && names_task found t))
unfolding route names_task
route-tasks c [] st t = ground arith
route-tasks c (p ∷ found) st t = ground (
  arith,
  mark_matched-tasks (p ∷ found) (add_match c (sort_by by_task (p ∷ found)) st) t,
  ap (λ l. contains l t) (add_orphans-lists (p ∷ found) c.change.node_type st).0,
)

pub route-candidate :
    (c : ClassifiedChange) (found : List Pairing) (st : Matching) (t : String)
    → candidate (route c found st) t ≡ (
        if is_removed c.change.type
        then (if contains st.matched_tasks t
            then candidate st t
            else candidate st t || names_task found t)
        else if names_task found t
        then false
        else candidate st t)
unfolding route names_task
route-candidate c [] st t = ground arith
route-candidate c (p ∷ found) st t = ground (
  arith,
  mark_matched-candidate (p ∷ found) (add_match c (sort_by by_task (p ∷ found)) st) t,
  add_orphans-candidate (p ∷ found) c.change.node_type st t,
)

abbrev pub step : ClassifiedChange → List Pairing → Matching → Matching
step c pairings st =
    if is_structural c.impact then st else route c (pairings_of pairings c.change.key) st

pub names_task-is_empty :
    (found : List Pairing) (t : String) → is_empty found ≡ true → names_task found t ≡ false
unfolding names_task is_empty
names_task-is_empty [] t h = refl
names_task-is_empty (p ∷ found) t h = ground arith
