-- ===== src/Plan/Matcher/Keyed.antt =====
-- In MatchNodes, every orphan candidate stands under its task, each task once.
use spexmachina.Prelude.{
  String, List, [], ◌∷◌, sort_by, store, contains, arith, ◌≡◌, refl, Bool-cases, inl, inr, All,
  fetch, none, HasKeysOnce, store-HasKeysOnce, ◌==◌,
}
use spexmachina.Merkle.Impact.{ClassifiedChange}
use spexmachina.Plan.Matcher.{
  Pairing, Orphaned, Matching, is_structural, is_removed, pairings_of, by_task, drop_key,
  add_orphan, add_orphans, mark_matched, add_match, route, match_loop,
}
use spexmachina.Plan.Matcher.Routing.{marked, step}

-- Every candidate stands under its task.
abbrev pub KeyedByTask : List (String × Orphaned) → Type 0
KeyedByTask candidates = All (λ entry. entry.1.pairing.task_id ≡ entry.0) candidates

store-KeyedByTask :
    (m : List (String × Orphaned)) (p : Pairing) (type : String)
    → KeyedByTask m
    → KeyedByTask (store m p.task_id (record { pairing = p; node_type = type }))
unfolding store
store-KeyedByTask [] p type h = (refl, tt)
store-KeyedByTask (entry ∷ m) p type h = ground (arith, store-KeyedByTask m p type h.1, h.0)

drop_key-KeyedByTask :
    (m : List (String × Orphaned)) (k : String) → KeyedByTask m → KeyedByTask (drop_key m k)
unfolding drop_key
drop_key-KeyedByTask [] k h = tt
drop_key-KeyedByTask (entry ∷ m) k h = ground (arith, drop_key-KeyedByTask m k h.1, h.0)

fetch-drop_key :
    (m : List (String × Orphaned)) (k x : String) → fetch m x ≡ none → fetch (drop_key m k) x ≡ none
unfolding drop_key fetch
fetch-drop_key [] k x h = refl
fetch-drop_key (entry ∷ m) k x h = ground (arith, h, fetch-drop_key m k x)

drop_key-HasKeysOnce :
    (m : List (String × Orphaned)) (k : String) → HasKeysOnce m → HasKeysOnce (drop_key m k)
unfolding drop_key
drop_key-HasKeysOnce [] k once = tt
drop_key-HasKeysOnce (entry ∷ m) k once = elim (Bool-cases (entry.0 == k)) [
  | inl e ↦ rw e (drop_key-HasKeysOnce m k once.1)
  | inr e ↦ rw e (fetch-drop_key m k entry.0 once.0, drop_key-HasKeysOnce m k once.1)
]

-- What storing and deleting a candidate keep, the loop keeps.
module _ (P : List (String × Orphaned) → Type 0)
    (stored : (m : List (String × Orphaned)) (p : Pairing) (type : String)
      → P m
      → P (store m p.task_id (record { pairing = p; node_type = type })))
    (dropped : (m : List (String × Orphaned)) (k : String) → P m → P (drop_key m k)) where
  kept_by_add_orphan :
      (p : Pairing) (type : String) (st : Matching)
      → P st.orphan_candidates
      → P (add_orphan p type st).orphan_candidates
  unfolding add_orphan
  kept_by_add_orphan p type st h = elim (Bool-cases (contains st.matched_tasks p.task_id)) [
    | inl e ↦ rw e h
    | inr e ↦ rw e (stored st.orphan_candidates p type h)
  ]

  kept_by_add_orphans :
      (found : List Pairing) (type : String) (st : Matching)
      → P st.orphan_candidates
      → P (add_orphans found type st).orphan_candidates
  unfolding add_orphans
  kept_by_add_orphans [] type st h = h
  kept_by_add_orphans (p ∷ found) type st h =
      kept_by_add_orphans found type (add_orphan p type st) (kept_by_add_orphan p type st h)

  kept_by_mark_matched :
      (found : List Pairing) (st : Matching)
      → P st.orphan_candidates
      → P (mark_matched found st).orphan_candidates
  unfolding mark_matched
  kept_by_mark_matched [] st h = h
  kept_by_mark_matched (p ∷ found) st h =
      kept_by_mark_matched found (marked p st) (dropped st.orphan_candidates p.task_id h)

  kept_by_route :
      (c : ClassifiedChange) (found : List Pairing) (st : Matching)
      → P st.orphan_candidates
      → P (route c found st).orphan_candidates
  unfolding route
  kept_by_route c [] st h = elim (Bool-cases (is_removed c.change.type)) [
    | inl e ↦ rw e h
    | inr e ↦ rw e h
  ]
  kept_by_route c (p ∷ found) st h = elim (Bool-cases (is_removed c.change.type)) [
    | inl e ↦ rw e (kept_by_add_orphans (p ∷ found) c.change.node_type st h)
    | inr e ↦
        rw e (kept_by_mark_matched (p ∷ found) (add_match c (sort_by by_task (p ∷ found)) st) h)
  ]

  kept_by_loop :
      (changes : List ClassifiedChange) (pairings : List Pairing) (st : Matching)
      → P st.orphan_candidates
      → P (match_loop changes pairings st).orphan_candidates
  unfolding match_loop
  kept_by_loop [] pairings st h = h
  kept_by_loop (c ∷ changes) pairings st h =
      kept_by_loop changes pairings (step c pairings st)
        (elim (Bool-cases (is_structural c.impact)) [
          | inl e ↦ rw e h
          | inr e ↦ rw e (kept_by_route c (pairings_of pairings c.change.key) st h)
        ])

pub loop-KeyedByTask :
    (changes : List ClassifiedChange) (pairings : List Pairing) (st : Matching)
    → KeyedByTask st.orphan_candidates
    → KeyedByTask (match_loop changes pairings st).orphan_candidates
loop-KeyedByTask = kept_by_loop KeyedByTask store-KeyedByTask drop_key-KeyedByTask

pub loop-HasKeysOnce :
    (changes : List ClassifiedChange) (pairings : List Pairing) (st : Matching)
    → HasKeysOnce st.orphan_candidates
    → HasKeysOnce (match_loop changes pairings st).orphan_candidates
loop-HasKeysOnce =
    kept_by_loop HasKeysOnce (λ m p type. store-HasKeysOnce m p.task_id _) drop_key-HasKeysOnce
