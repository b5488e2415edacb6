-- ===== src/Mapping/Journal/Samples.antt =====
-- The fold of a small journal: a node that is added, gets a task and is removed, with its cleanup task
-- ahead of the removal, and a receipt of an unknown event.
use spexmachina.Prelude.{
  ok, ◌==◌, String, ℕ, true, List, [], ◌∷◌, none, ◌≡◌, refl, keep, fetch, store, sort_by, insert_by,
}
use spexmachina.Mapping.Journal.{Event, entry_for, fold, fold_entries, index_eids}
use spexmachina.Mapping.Journal.History.{get, history, touches, history-touches}
use spexmachina.Mapping.Journal.PerKey.{
  last_entry, names_nothing, fetch-fold_entries, fold-names_nothing,
}

abbrev event : String → String → String → String → String → ℕ → Event
event kind eid node for_eid task_id line = record {
  event = kind;
  eid = eid;
  node = node;
  name = node;
  node_type = "component";
  module_name = "m";
  before = none;
  after = none;
  git_head = "a1";
  path = "";
  proposal = "";
  for_eid = for_eid;
  task_id = task_id;
  absorbed = [];
  line = line;
}

abbrev gone : Event
gone = event "removed" "e2" "n1" "" "" 4

abbrev lost : Event
lost = event "task_created" "" "" "e9" "t9" 5

abbrev journal : List Event
journal =
    event "added" "e1" "n1" "" "" 1
    ∷ event "task_created" "" "" "e1" "t1" 2
    ∷ event "task_created" "" "" "e2" "t2" 3
    ∷ gone
    ∷ lost
    ∷ []

fold-journal :
    fold journal ≡ record { entries = entry_for "n1" "t2" true gone ∷ []; dangling = lost ∷ [] }
unfolding fold fetch store sort_by insert_by
fold-journal = refl

fetch-fold_entries_example :
    fetch (fold_entries (index_eids [] journal) [] journal) "n1"
    ≡ last_entry (index_eids [] journal) "n1" (fetch [] "n1") journal
fetch-fold_entries_example = fetch-fold_entries (index_eids [] journal) [] journal "n1"

fold-names_nothing_example : (fold journal).dangling ≡ keep (names_nothing journal) journal
fold-names_nothing_example = fold-names_nothing journal

get-journal : get (λ key. key == "n1") journal "t2" ≡ ok (entry_for "n1" "t2" true gone)
unfolding get fold fetch store sort_by insert_by
get-journal = refl

history-touches_example : history journal "n1" ≡ keep (touches journal "n1") journal
history-touches_example = history-touches journal "n1"
