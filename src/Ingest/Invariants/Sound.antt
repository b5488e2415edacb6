-- ===== src/Ingest/Invariants/Sound.antt =====
-- What the checks guarantee of the journal with the batch.
use spexmachina.Prelude.{
  String, ℕ, ◌+◌, ◌≤◌, Bool, true, not, ◌&&◌, List, [], ◌∷◌, ◌++◌, none, ◌==◌, eq_iff,
  if◌then◌else◌, contains, All, ok, Result-cases, arith, ◌≡◌, Bool-cases, Option-cases, inl, inr,
}
use spexmachina.Mapping.Journal.{Event}
use spexmachina.Ingest.Invariants.{
  Seen, nothing_seen, check_event, check_events, check_invariant1, known_eids, first_unknown,
  references, check_references, check_invariant2, check,
}

-- How many events pass a test.
abbrev pub number_of : (Event → Bool) → List Event → ℕ
number_of p [] = 0
number_of p (ev ∷ events) = (if p ev then 1 else 0) + number_of p events

abbrev pub pairs : String → Event → Bool
pairs eid ev =
    (ev.event == "task_created")
    && ((ev.proposal == "") && (not (ev.for_eid == "") && (ev.for_eid == eid)))

abbrev pub retargets : String → Event → Bool
retargets eid ev =
    (ev.event == "task_retargeted") && (not (ev.for_eid == "") && (ev.for_eid == eid))

abbrev pub opens : String → Event → Bool
opens proposal ev =
    (ev.event == "task_created") && (not (ev.proposal == "") && (ev.proposal == proposal))

abbrev seen_once : Bool → ℕ
seen_once b = if b then 1 else 0

-- What a check that passes adds to each of the three sets.
abbrev Adds : Event → Seen → Seen → String → Type 0
Adds ev s s' x =
    (seen_once (pairs x ev) + seen_once (contains s.seen_for x)
      ≡ seen_once (contains s'.seen_for x))
    × (seen_once (opens x ev) + seen_once (contains s.seen_proposal x)
        ≡ seen_once (contains s'.seen_proposal x))
    × (seen_once (retargets x ev) + seen_once (contains s.seen_retarget_for x)
        ≡ seen_once (contains s'.seen_retarget_for x))

check_event-Adds :
    (ev : Event) (s s' : Seen) (x : String) → check_event ev s ≡ ok s' → Adds ev s s' x
unfolding check_event contains
check_event-Adds ev s s' x = elim (Bool-cases (ev.event == "task_created")) [
  | inl e ↦
      rw ((eq_iff ev.event "task_created").0 e, check_event)
        (elim (Bool-cases (ev.proposal == "")) [
          | inl f ↦ rw (f, check_event) (λ h. ground (arith, h, eq_iff ev.for_eid x))
          | inr f ↦ rw (f, check_event) (λ h. ground (arith, h, eq_iff ev.proposal x))
        ])
  | inr e ↦ elim (Bool-cases (ev.event == "task_retargeted")) [
    | inl f ↦ rw (e, f, check_event) (λ h. ground (arith, h, eq_iff ev.for_eid x))
    | inr f ↦ rw (e, f, check_event) (λ h. ground (arith, h))
  ]
]

abbrev AddsAll : List Event → Seen → Seen → String → Type 0
AddsAll events s s' x =
    (number_of (pairs x) events + seen_once (contains s.seen_for x)
      ≡ seen_once (contains s'.seen_for x))
    × (number_of (opens x) events + seen_once (contains s.seen_proposal x)
        ≡ seen_once (contains s'.seen_proposal x))
    × (number_of (retargets x) events + seen_once (contains s.seen_retarget_for x)
        ≡ seen_once (contains s'.seen_retarget_for x))

first_event-AddsAll :
    (ev : Event) (events : List Event) (s s' s'' : Seen) (x : String)
    → Adds ev s s' x
    → AddsAll events s' s'' x
    → AddsAll (ev ∷ events) s s'' x
first_event-AddsAll ev events s s' s'' x h k =
    (omega (arith, h.0, k.0), omega (arith, h.1, k.1), omega (arith, h.2, k.2))

check_events-AddsAll :
    (events : List Event) (s s'' : Seen) (x : String)
    → check_events events s ≡ ok s''
    → AddsAll events s s'' x
unfolding check_events
check_events-AddsAll [] s s'' x = λ h. ground (arith, h)
check_events-AddsAll (ev ∷ events) s s'' x = elim (Result-cases (check_event ev s)) [
  | inl (e, f) ↦ rw (f, check_events) (λ h. cc h)
  | inr (s', f) ↦
      rw (f, check_events)
        (λ h.
          first_event-AddsAll ev events s s' s'' x (check_event-Adds ev s s' x f)
            (check_events-AddsAll events s' s'' x h))
]

-- No two task_created lines have the same `for`, no two name the same proposal, and no two
-- task_retargeted lines have the same `for`.
abbrev pub PairsOnce : List Event → Type 0
PairsOnce events =
    (x : String)
    → (number_of (pairs x) events ≤ 1)
      × (number_of (opens x) events ≤ 1)
      × (number_of (retargets x) events ≤ 1)

-- Every eid that an event of the list refers to is known.
abbrev pub RefersTo : List String → List Event → Type 0
RefersTo known events = All (λ ev. All (λ a. contains known a ≡ true) (references ev)) events

first_unknown-All :
    (known eids : List String)
    → first_unknown known eids ≡ none
    → All (λ a. contains known a ≡ true) eids
unfolding first_unknown
first_unknown-All known [] h = tt
first_unknown-All known (a ∷ eids) h = ground (arith, h, first_unknown-All known eids)

check_references-RefersTo :
    (known : List String) (batch : List Event)
    → check_references known batch ≡ none
    → RefersTo known batch
unfolding check_references
check_references-RefersTo known [] = λ h. tt
check_references-RefersTo known (ev ∷ batch) =
    elim (Option-cases (first_unknown known (references ev))) [
      | inr (a, f) ↦ rw (f, check_references) (λ h. cc h)
      | inl f ↦
          rw (f, check_references)
            (λ h.
              (first_unknown-All known (references ev) f, check_references-RefersTo known batch h))
    ]

at_most_once :
    (events : List Event) (s : Seen) (x : String)
    → AddsAll events nothing_seen s x
    → (number_of (pairs x) events ≤ 1)
      × (number_of (opens x) events ≤ 1)
      × (number_of (retargets x) events ≤ 1)
at_most_once events s x h = (ground (arith, h.0), ground (arith, h.1), ground (arith, h.2))

-- If Check accepts a batch, then in the journal with the batch no two task_created lines have the same
-- `for`, no two have the same proposal and no two task_retargeted lines have the same `for`, and every
-- eid that a receipt of the batch or a refresh's absorbed list names is the eid of an event of the
-- journal or the batch.
pub check-ok :
    (existing batch : List Event)
    → check existing batch ≡ ok tt
    → PairsOnce (existing ++ batch) × RefersTo (known_eids (existing ++ batch)) batch
unfolding check check_invariant1 check_invariant2
check-ok existing batch = elim (Result-cases (check_invariant1 existing batch)) [
  | inl (e, f) ↦ rw (f, check) (λ h. cc h)
  | inr (s, f) ↦ elim (Option-cases (check_references (known_eids (existing ++ batch)) batch)) [
    | inr (a, g) ↦ rw (f, g, check) (λ h. cc h)
    | inl g ↦ λ h. (
      λ x.
          at_most_once (existing ++ batch) s x
            (check_events-AddsAll (existing ++ batch) nothing_seen s x f),
      check_references-RefersTo (known_eids (existing ++ batch)) batch g,
    )
  ]
]
