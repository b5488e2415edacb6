-- ===== src/Ingest/Invariants/Samples.antt =====
-- Check on small batches.
use spexmachina.Prelude.{String, List, [], ◌∷◌, ◌++◌, none, ok, err, ◌≡◌, refl, contains}
use spexmachina.Mapping.Journal.{Event}
use spexmachina.Ingest.Invariants.{event_paired_twice, unknown_event, check, known_eids}
use spexmachina.Ingest.Invariants.Sound.{PairsOnce, RefersTo, check-ok}

abbrev event : String → String → String → List String → Event
event kind eid for_eid absorbed = record {
  event = kind;
  eid = eid;
  node = "n";
  name = "n";
  node_type = "component";
  module_name = "m";
  before = none;
  after = none;
  git_head = "a1";
  path = "";
  proposal = "";
  for_eid = for_eid;
  task_id = "t";
  absorbed = absorbed;
  line = 0;
}

abbrev existing : List Event
existing = event "added" "e1" "" [] ∷ event "task_created" "" "e1" [] ∷ []

abbrev batch : List Event
batch =
    event "modified" "e2" "" []
    ∷ event "task_retargeted" "" "e2" []
    ∷ event "refresh" "" "" ("e1" ∷ "e2" ∷ [])
    ∷ []

check-batch : check existing batch ≡ ok tt
unfolding check contains
check-batch = refl

check_paired_twice :
    check existing (event "task_created" "" "e1" [] ∷ []) ≡ err (event_paired_twice "e1")
unfolding check contains
check_paired_twice = refl

check_unknown : check existing (event "task_closed" "" "e7" [] ∷ []) ≡ err (unknown_event "e7")
unfolding check contains
check_unknown = refl

check-ok_example : PairsOnce (existing ++ batch) × RefersTo (known_eids (existing ++ batch)) batch
check-ok_example = check-ok existing batch check-batch
