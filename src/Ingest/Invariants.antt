-- ===== src/Ingest/Invariants.antt =====
-- ingest/invariant_checker.go. A Go set is the list of the strings put into it.
pub mod Sound
mod Samples
use spexmachina.Prelude.{
  String, Bool, true, false, ◌||◌, List, [], ◌∷◌, ◌++◌, Option, none, some, ◌==◌, if◌then◌else◌,
  contains, Result, ok, err,
}
use spexmachina.Mapping.Journal.{Event}

pub data InvariantError : Type 0 where
  proposal_paired_twice : (proposal : String) → InvariantError
  event_paired_twice : (eid : String) → InvariantError
  event_retargeted_twice : (eid : String) → InvariantError
  unknown_event : (eid : String) → InvariantError

pub record Seen : Type 0 where
  pub seen_for : List String
  pub seen_proposal : List String
  pub seen_retarget_for : List String

abbrev pub nothing_seen : Seen
nothing_seen = record { seen_for = []; seen_proposal = []; seen_retarget_for = [] }

abbrev pub see_for : String → Seen → Seen
see_for eid s = record {
  seen_for = eid ∷ s.seen_for;
  seen_proposal = s.seen_proposal;
  seen_retarget_for = s.seen_retarget_for;
}

abbrev pub see_proposal : String → Seen → Seen
see_proposal p s = record {
  seen_for = s.seen_for;
  seen_proposal = p ∷ s.seen_proposal;
  seen_retarget_for = s.seen_retarget_for;
}

abbrev pub see_retarget : String → Seen → Seen
see_retarget eid s = record {
  seen_for = s.seen_for;
  seen_proposal = s.seen_proposal;
  seen_retarget_for = eid ∷ s.seen_retarget_for;
}

-- The closure `check` of checkInvariant1.
unfoldable pub check_event : Event → Seen → Result InvariantError Seen
check_event ev s =
    if ev.event == "task_created"
    then (if ev.proposal == ""
        then (if ev.for_eid == ""
            then ok s
            else if contains s.seen_for ev.for_eid
            then err (event_paired_twice ev.for_eid)
            else ok (see_for ev.for_eid s))
        else if contains s.seen_proposal ev.proposal
        then err (proposal_paired_twice ev.proposal)
        else ok (see_proposal ev.proposal s))
    else if ev.event == "task_retargeted"
    then (if ev.for_eid == ""
        then ok s
        else if contains s.seen_retarget_for ev.for_eid
        then err (event_retargeted_twice ev.for_eid)
        else ok (see_retarget ev.for_eid s))
    else ok s

unfoldable pub check_events : List Event → Seen → Result InvariantError Seen
unfolding check_event
check_events [] s = ok s
check_events (ev ∷ events) s = elim (check_event ev s) [
  | err e ↦ err e
  | ok s' ↦ check_events events s'
]

unfoldable pub check_invariant1 : List Event → List Event → Result InvariantError Seen
unfolding check_events
check_invariant1 existing batch = check_events (existing ++ batch) nothing_seen

-- The eids of the journal and the batch.
unfoldable pub known_eids : List Event → List String
known_eids [] = []
known_eids (ev ∷ events) =
    let rest = known_eids events in if ev.eid == "" then rest else ev.eid ∷ rest

-- The first eid that is not known.
unfoldable pub first_unknown : List String → List String → Option String
unfolding contains
first_unknown known [] = none
first_unknown known (a ∷ eids) =
    let rest = first_unknown known eids in if contains known a then rest else some a

-- The eids that an event refers to.
abbrev pub references : Event → List String
references ev =
    if (ev.event == "task_created")
      || ((ev.event == "task_closed") || (ev.event == "task_retargeted"))
    then (if ev.for_eid == "" then [] else ev.for_eid ∷ [])
    else if ev.event == "refresh"
    then ev.absorbed
    else []

unfoldable pub check_references : List String → List Event → Option String
unfolding first_unknown
check_references known [] = none
check_references known (ev ∷ batch) =
    let rest = check_references known batch in
    elim (first_unknown known (references ev)) [ some a ↦ some a | none ↦ rest ]

abbrev pub known_or_error : Option String → Result InvariantError (Unit {0})
known_or_error none = ok tt
known_or_error (some a) = err (unknown_event a)

unfoldable pub check_invariant2 : List Event → List Event → Result InvariantError (Unit {0})
unfolding check_references known_eids
check_invariant2 existing batch =
    known_or_error (check_references (known_eids (existing ++ batch)) batch)

unfoldable pub check : List Event → List Event → Result InvariantError (Unit {0})
unfolding check_invariant1 check_invariant2
check existing batch = elim (check_invariant1 existing batch) [
  | err e ↦ err e
  | ok s ↦ check_invariant2 existing batch
]
