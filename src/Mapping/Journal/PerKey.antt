-- ===== src/Mapping/Journal/PerKey.antt =====
-- The fold of the journal, one key at a time.
use spexmachina.Prelude.{
  String, Bool, true, false, not, ◌&&◌, ◌||◌, List, [], ◌∷◌, Option, none, some, Option-cases, ◌==◌,
  eq_iff, if◌then◌else◌, keep, fetch, store, fetch-store, arith, ◌≡◌, refl, ap, ◌∙◌, Bool-cases,
  inl, inr,
}
use spexmachina.Mapping.Journal.{
  Event, FoldEntry, Entries, is_referent, is_task_bearing, index_eids, entry_for, is_of_removal,
  receipt_entry, fold_entry, fold_entries, fold_dangling, fold,
}

-- Whether an event of the journal can be paired by the eid.
unfoldable pub has_referent : List Event → String → Bool
has_referent [] eid = false
has_referent (ev ∷ events) eid = (is_referent ev && (ev.eid == eid)) || has_referent events eid

-- A task-bearing receipt without a proposal that names no such event.
abbrev pub names_nothing : List Event → Event → Bool
names_nothing journal ev =
    is_task_bearing ev && ((ev.proposal == "") && not (has_referent journal ev.for_eid))

abbrev is_some {ℓ} : {A : Type ℓ} → Option A → Bool
is_some none = false
is_some (some a) = true

index_eids-has :
    (by_eid : List (String × Event)) (events : List Event) (eid : String)
    → is_some (fetch (index_eids by_eid events) eid)
      ≡ (is_some (fetch by_eid eid) || has_referent events eid)
unfolding index_eids has_referent
index_eids-has by_eid [] eid = ground arith
index_eids-has by_eid (ev ∷ events) eid = elim (Bool-cases (is_referent ev)) [
  | inl e ↦
      rw (e, index_eids, has_referent)
        (ground (
          arith,
          index_eids-has (store by_eid ev.eid ev) events eid,
          fetch-store by_eid ev.eid ev eid,
        ))
  | inr e ↦ rw (e, index_eids, has_referent) (index_eids-has by_eid events eid)
]

-- What an event makes of the entry of a key.
abbrev pub next_entry : List (String × Event) → String → Option FoldEntry → Event → Option FoldEntry
next_entry by_eid key prior ev =
    if ev.event == "removed"
    then (if (ev.node == key) && not (is_of_removal prior ev)
        then some (entry_for ev.node "" true ev)
        else prior)
    else if is_task_bearing ev
    then (if ev.proposal == ""
        then elim (fetch by_eid ev.for_eid) [
          | none ↦ prior
          | some referent ↦
              if (receipt_entry referent ev).key == key
              then some (receipt_entry referent ev)
              else prior
        ]
        else if ev.proposal == key
        then some (entry_for ev.proposal ev.task_id false ev)
        else prior)
    else prior

unfoldable pub last_entry :
    List (String × Event) → String → Option FoldEntry → List Event → Option FoldEntry
last_entry by_eid key prior [] = prior
last_entry by_eid key prior (ev ∷ events) =
    last_entry by_eid key (next_entry by_eid key prior ev) events

fetch-fold_entry :
    (by_eid : List (String × Event)) (entries : Entries) (ev : Event) (key : String)
    → fetch (fold_entry by_eid entries ev) key ≡ next_entry by_eid key (fetch entries key) ev
unfolding fold_entry
fetch-fold_entry by_eid entries ev key = elim (Bool-cases (ev.event == "removed")) [
  | inl e ↦
      rw (e, fold_entry)
        (ground (
          arith,
          fetch-store entries ev.node (entry_for ev.node "" true ev) key,
          eq_iff ev.node key,
        ))
  | inr e ↦ elim (Bool-cases (is_task_bearing ev)) [
    | inr f ↦ rw (e, f, fold_entry) refl
    | inl f ↦ elim (Bool-cases (ev.proposal == "")) [
      | inr g ↦
          rw (e, f, g, fold_entry)
            (fetch-store entries ev.proposal (entry_for ev.proposal ev.task_id false ev) key)
      | inl g ↦ elim (Option-cases (fetch by_eid ev.for_eid)) [
        | inl h ↦ rw (e, f, g, h, fold_entry) refl
        | inr (r, h) ↦
            rw (e, f, g, h, fold_entry)
              (fetch-store entries (receipt_entry r ev).key (receipt_entry r ev) key)
      ]
    ]
  ]
]

-- The fold decides the entry of a key from the key's own history: what the entries hold under a key
-- after the events is what the events that concern the key make of what they held before, in the
-- order of the journal, whatever events of other keys stand between.
pub fetch-fold_entries :
    (by_eid : List (String × Event)) (entries : Entries) (events : List Event) (key : String)
    → fetch (fold_entries by_eid entries events) key
      ≡ last_entry by_eid key (fetch entries key) events
unfolding fold_entries last_entry
fetch-fold_entries by_eid entries [] key = refl
fetch-fold_entries by_eid entries (ev ∷ events) key =
    fetch-fold_entries by_eid (fold_entry by_eid entries ev) events key
    ∙ ap (λ o. last_entry by_eid key o events) (fetch-fold_entry by_eid entries ev key)

has_referent-fetch :
    (journal : List Event) (eid : String)
    → is_some (fetch (index_eids [] journal) eid) ≡ has_referent journal eid
unfolding fetch
has_referent-fetch journal eid = index_eids-has [] journal eid

dangling-names :
    (journal events : List Event)
    → fold_dangling (index_eids [] journal) events ≡ keep (names_nothing journal) events
unfolding fold_dangling
dangling-names journal [] = refl
dangling-names journal (ev ∷ events) = elim (Bool-cases (is_task_bearing ev)) [
  | inr e ↦ rw (e, fold_dangling) (dangling-names journal events)
  | inl e ↦
      rw (e, fold_dangling)
        (ground (arith, dangling-names journal events, has_referent-fetch journal ev.for_eid))
]

-- The fold reports as dangling exactly the task_created and task_retargeted receipts without a
-- proposal whose eid is that of no added, modified, removed or registered event of the journal,
-- before or after the receipt, in the order of the journal.
pub fold-names_nothing :
    (events : List Event) → (fold events).dangling ≡ keep (names_nothing events) events
unfolding fold
fold-names_nothing events = dangling-names events events
