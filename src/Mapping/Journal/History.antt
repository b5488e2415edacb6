-- ===== src/Mapping/Journal/History.antt =====
-- Get and History of mapping/mapping_store.go, on the parsed events. Whether a key is an identity hash
-- (nodeHashPattern) is the argument `is_hash`.
use spexmachina.Prelude.{
  String, Bool, false, ◌&&◌, ◌||◌, not, List, [], ◌∷◌, Option, none, some, ◌==◌, if◌then◌else◌,
  keep, contains, Result, ok, err, arith, ◌≡◌, refl, Bool-cases, inl, inr,
}
use spexmachina.Mapping.Journal.{Event, FoldEntry, fold}

pub data GetError : Type 0 where
  no_node : (key : String) → GetError
  no_task : (key : String) → GetError

unfoldable pub entry_with : (FoldEntry → String) → List FoldEntry → String → Option FoldEntry
entry_with by [] key = none
entry_with by (e ∷ entries) key =
    let rest = entry_with by entries key in if by e == key then some e else rest

abbrev pub found_or : GetError → Option FoldEntry → Result GetError FoldEntry
found_or missing none = err missing
found_or missing (some e) = ok e

unfoldable pub get : (String → Bool) → List Event → String → Result GetError FoldEntry
unfolding fold entry_with
get is_hash events key =
    if is_hash key
    then found_or (no_node key) (entry_with (λ e. e.key) (fold events).entries key)
    else found_or (no_task key) (entry_with (λ e. e.task_id) (fold events).entries key)

abbrev pub is_change : Event → Bool
is_change ev = (ev.event == "added") || ((ev.event == "modified") || (ev.event == "removed"))

abbrev pub is_receipt : Event → Bool
is_receipt ev =
    (ev.event == "task_created") || ((ev.event == "task_closed") || (ev.event == "task_retargeted"))

-- The eids of the node's change events.
unfoldable pub eids_of : String → List Event → List String
eids_of node [] = []
eids_of node (ev ∷ events) =
    let rest = eids_of node events in
    if is_change ev && (ev.node == node) then ev.eid ∷ rest else rest

unfoldable pub history_loop : String → List String → List Event → List Event
unfolding contains
history_loop node eids [] = []
history_loop node eids (ev ∷ events) =
    let rest = history_loop node eids events in
    if is_change ev
    then (if ev.node == node then ev ∷ rest else rest)
    else if is_receipt ev
    then (if not (ev.for_eid == "") && contains eids ev.for_eid then ev ∷ rest else rest)
    else rest

unfoldable pub history : List Event → String → List Event
unfolding history_loop eids_of
history events node = history_loop node (eids_of node events) events

-- Whether the journal has a change event of the node with the eid.
unfoldable pub changes_node : String → String → List Event → Bool
changes_node node eid [] = false
changes_node node eid (ev ∷ events) =
    (is_change ev && ((ev.node == node) && (ev.eid == eid))) || changes_node node eid events

contains-eids_of :
    (node eid : String) (events : List Event)
    → contains (eids_of node events) eid ≡ changes_node node eid events
unfolding contains eids_of changes_node
contains-eids_of node eid [] = refl
contains-eids_of node eid (ev ∷ events) = elim (Bool-cases (is_change ev)) [
  | inl e ↦ rw (e, eids_of, changes_node) (ground (arith, contains-eids_of node eid events))
  | inr e ↦ rw (e, eids_of, changes_node) (contains-eids_of node eid events)
]

-- A change of the node, or a receipt that is no change and names one.
abbrev pub touches : List Event → String → Event → Bool
touches journal node ev =
    if is_change ev
    then ev.node == node
    else is_receipt ev && (not (ev.for_eid == "") && changes_node node ev.for_eid journal)

loop-touches :
    (journal events : List Event) (node : String)
    → history_loop node (eids_of node journal) events ≡ keep (touches journal node) events
unfolding history_loop
loop-touches journal [] node = refl
loop-touches journal (ev ∷ events) node = elim (Bool-cases (is_change ev)) [
  | inl e ↦ rw (e, history_loop) (ground (arith, loop-touches journal events node))
  | inr e ↦ elim (Bool-cases (is_receipt ev)) [
    | inl f ↦
        rw (e, f, history_loop, contains-eids_of node ev.for_eid journal)
          (ground (arith, loop-touches journal events node))
    | inr f ↦ rw (e, f, history_loop) (loop-touches journal events node)
  ]
]

-- History gives, in the order of the journal, exactly the change events of the node and the
-- task_created, task_closed and task_retargeted receipts whose `for` is the eid of a change event of the
-- node, wherever that event stands in the journal.
pub history-touches :
    (events : List Event) (node : String) → history events node ≡ keep (touches events node) events
unfolding history
history-touches events node = loop-touches events events node
