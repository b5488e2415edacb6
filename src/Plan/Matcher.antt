-- ===== src/Plan/Matcher.antt =====
-- MatchNodes of plan/node_matcher.go. The map `index` is the list of pairings itself, read by the
-- node's key; `matched_tasks` is the list of the keys set to true; `orphan_candidates` is an
-- association list, in the order in which Go happens to range over it.
pub mod Routing
pub mod Lists
pub mod Keyed
pub mod Orphans
pub mod Tasks
mod Samples
use spexmachina.Prelude.{
  String, Bool, true, false, not, List, [], ◌∷◌, ◌++◌, Option, none, some, ◌==◌, if◌then◌else◌,
  keep, contains, str_lt, sort_by, store,
}
use spexmachina.Merkle.Diff.{Change, ChangeType, added, removed, modified}
use spexmachina.Merkle.Impact.{
  ClassifiedChange, ImpactLevel, structural, unknown, impl_only, contract, arch_impl,
}

pub record Pairing : Type 0 where
  pub spec_node_id : String
  pub task_id : String
  pub node_type : String
  pub module_name : String
  pub name : String
  pub bead_status : String
  pub after : String

pub record Match : Type 0 where
  pub change : ClassifiedChange
  pub records : List Pairing

pub record Unmatched : Type 0 where
  pub change : ClassifiedChange

pub record Orphaned : Type 0 where
  pub pairing : Pairing
  pub node_type : String

abbrev pub is_structural : ImpactLevel → Bool
is_structural structural = true
is_structural unknown = false
is_structural impl_only = false
is_structural contract = false
is_structural arch_impl = false

abbrev pub is_removed : ChangeType → Bool
is_removed removed = true
is_removed added = false
is_removed modified = false

-- index[key]
unfoldable pub pairings_of : List Pairing → String → List Pairing
pairings_of pairings key = keep (λ (p : Pairing). p.spec_node_id == key) pairings

abbrev pub by_task : Pairing → Pairing → Bool
by_task a b = str_lt a.task_id b.task_id

abbrev pub by_orphan_task : Orphaned → Orphaned → Bool
by_orphan_task a b = str_lt a.pairing.task_id b.pairing.task_id

-- The variables of the loop.
pub record Matching : Type 0 where
  pub matched_tasks : List String
  pub orphan_candidates : List (String × Orphaned)
  pub matches : List Match
  pub unmatched : List Unmatched

-- delete(m, key)
unfoldable pub drop_key {ℓ} : {V : Type ℓ} → List (String × V) → String → List (String × V)
drop_key m key = keep (λ entry. not (entry.0 == key)) m

-- The body of the inner loop of a removed change.
unfoldable pub add_orphan : Pairing → String → Matching → Matching
add_orphan p node_type st = if contains st.matched_tasks p.task_id then st else record {
  matched_tasks = st.matched_tasks;
  orphan_candidates =
      store st.orphan_candidates p.task_id (record { pairing = p; node_type = node_type });
  matches = st.matches;
  unmatched = st.unmatched;
}

unfoldable pub add_orphans : List Pairing → String → Matching → Matching
unfolding add_orphan
add_orphans [] node_type st = st
add_orphans (p ∷ found) node_type st = add_orphans found node_type (add_orphan p node_type st)

-- The inner loop of a matched change.
unfoldable pub mark_matched : List Pairing → Matching → Matching
unfolding drop_key
mark_matched [] st = st
mark_matched (p ∷ found) st = mark_matched found (record {
  matched_tasks = p.task_id ∷ st.matched_tasks;
  orphan_candidates = drop_key st.orphan_candidates p.task_id;
  matches = st.matches;
  unmatched = st.unmatched;
})

abbrev pub add_match : ClassifiedChange → List Pairing → Matching → Matching
add_match c records st = record {
  matched_tasks = st.matched_tasks;
  orphan_candidates = st.orphan_candidates;
  matches = st.matches ++ record { change = c; records = records } ∷ [];
  unmatched = st.unmatched;
}

abbrev pub add_unmatched : ClassifiedChange → Matching → Matching
add_unmatched c st = record {
  matched_tasks = st.matched_tasks;
  orphan_candidates = st.orphan_candidates;
  matches = st.matches;
  unmatched = st.unmatched ++ record { change = c } ∷ [];
}

-- The body of the loop, for a change and the pairings found for it.
unfoldable pub route : ClassifiedChange → List Pairing → Matching → Matching
unfolding add_orphans mark_matched
route c [] st = if is_removed c.change.type then st else add_unmatched c st
route c (p ∷ found) st =
    if is_removed c.change.type
    then add_orphans (p ∷ found) c.change.node_type st
    else mark_matched (p ∷ found) (add_match c (sort_by by_task (p ∷ found)) st)

unfoldable pub match_loop : List ClassifiedChange → List Pairing → Matching → Matching
unfolding route pairings_of
match_loop [] pairings st = st
match_loop (c ∷ changes) pairings st =
    match_loop changes pairings
      (if is_structural c.impact then st else route c (pairings_of pairings c.change.key) st)

unfoldable pub orphans_of : List (String × Orphaned) → List Orphaned
orphans_of [] = []
orphans_of (entry ∷ candidates) = entry.1 ∷ orphans_of candidates

abbrev pub nothing_matched : Matching
nothing_matched = record {
  matched_tasks = [];
  orphan_candidates = [];
  matches = [];
  unmatched = [];
}

unfoldable pub match_nodes :
    List ClassifiedChange → List Pairing → List Match × List Unmatched × List Orphaned
unfolding match_loop orphans_of
match_nodes changes pairings =
    let st = match_loop changes pairings nothing_matched in
    (st.matches, st.unmatched, sort_by by_orphan_task (orphans_of st.orphan_candidates))
