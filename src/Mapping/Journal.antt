-- ===== src/Mapping/Journal.antt =====
-- The journal's events and their fold, of mapping/mapping_store.go. The map `entries` is an
-- association list, in the order in which Go happens to range over it.
pub mod PerKey
pub mod History
mod Samples
use spexmachina.Prelude.{
  String, ℕ, Bool, true, false, ◌||◌, List, [], ◌∷◌, ◌++◌, map, Option, none, some, ◌==◌,
  if◌then◌else◌, ltb, fetch, store, sort_by,
}

-- `for` and `module` are `for_eid` and `module_name`.
pub record Event : Type 0 where
  pub event : String
  pub eid : String
  pub node : String
  pub name : String
  pub node_type : String
  pub module_name : String
  pub before : Option String
  pub after : Option String
  pub git_head : String
  pub path : String
  pub proposal : String
  pub for_eid : String
  pub task_id : String
  pub absorbed : List String
  pub line : ℕ

pub record FoldEntry : Type 0 where
  pub key : String
  pub task_id : String
  pub removed : Bool
  pub source : Event

-- A dangling receipt is its event.
pub record Fold : Type 0 where
  pub entries : List FoldEntry
  pub dangling : List Event

abbrev pub Entries : Type 0
Entries = List (String × FoldEntry)

abbrev pub is_referent : Event → Bool
is_referent ev =
    ((ev.event == "added") || (ev.event == "modified"))
    || ((ev.event == "removed") || (ev.event == "registered"))

abbrev pub is_task_bearing : Event → Bool
is_task_bearing ev = (ev.event == "task_created") || (ev.event == "task_retargeted")

unfoldable pub index_eids : List (String × Event) → List Event → List (String × Event)
index_eids by_eid [] = by_eid
index_eids by_eid (ev ∷ events) =
    index_eids (if is_referent ev then store by_eid ev.eid ev else by_eid) events

abbrev pub entry_for : String → String → Bool → Event → FoldEntry
entry_for key task_id removed source = record {
  key = key;
  task_id = task_id;
  removed = removed;
  source = source;
}

-- Whether the entry already belongs to this very removal.
abbrev pub is_of_removal : Option FoldEntry → Event → Bool
is_of_removal none ev = false
is_of_removal (some prior) ev = prior.source.eid == ev.eid

-- The entry that a receipt of the referent gives.
abbrev pub receipt_entry : Event → Event → FoldEntry
receipt_entry referent ev =
    if referent.event == "registered"
    then entry_for referent.proposal ev.task_id false referent
    else entry_for referent.node ev.task_id (referent.event == "removed") referent

-- The body of the loop, for the entries.
unfoldable pub fold_entry : List (String × Event) → Entries → Event → Entries
fold_entry by_eid entries ev =
    if ev.event == "removed"
    then (if is_of_removal (fetch entries ev.node) ev
        then entries
        else store entries ev.node (entry_for ev.node "" true ev))
    else if is_task_bearing ev
    then (if ev.proposal == ""
        then elim (fetch by_eid ev.for_eid) [
          | none ↦ entries
          | some referent ↦
              store entries (receipt_entry referent ev).key (receipt_entry referent ev)
        ]
        else store entries ev.proposal (entry_for ev.proposal ev.task_id false ev))
    else entries

unfoldable pub fold_entries : List (String × Event) → Entries → List Event → Entries
unfolding fold_entry
fold_entries by_eid entries [] = entries
fold_entries by_eid entries (ev ∷ events) =
    fold_entries by_eid (fold_entry by_eid entries ev) events

-- The body of the loop, for the dangling receipts.
abbrev pub is_dangling : List (String × Event) → Event → Bool
is_dangling by_eid ev =
    if is_task_bearing ev
    then (if ev.proposal == ""
        then elim (fetch by_eid ev.for_eid) [ none ↦ true | some referent ↦ false ]
        else false)
    else false

unfoldable pub fold_dangling : List (String × Event) → List Event → List Event
fold_dangling by_eid [] = []
fold_dangling by_eid (ev ∷ events) =
    let rest = fold_dangling by_eid events in if is_dangling by_eid ev then ev ∷ rest else rest

abbrev pub by_line : FoldEntry → FoldEntry → Bool
by_line a b = ltb a.source.line b.source.line

abbrev pub values : Entries → List FoldEntry
values [] = []
values (entry ∷ entries) = entry.1 ∷ values entries

unfoldable pub fold : List Event → Fold
unfolding index_eids fold_entries fold_dangling
fold events =
    let by_eid = index_eids [] events in
    record {
      entries = sort_by by_line (values (fold_entries by_eid [] events));
      dangling = fold_dangling by_eid events;
    }
