-- ===== src/Ingest/Reconciler/Samples.antt =====
-- Apply on a create, a retarget and a close with their receipts, and again on the journal that results.
use spexmachina.Prelude.{
  String, Bool, true, List, [], ◌∷◌, ◌++◌, none, some, ◌==◌, if◌then◌else◌, contains, fetch, store,
  sort_by, insert_by, ◌+◌, ◌≤◌, ok, Result, err, map, ◌≡◌, refl, false,
}
use spexmachina.Schema.Profile.{Profile, NodeType}
use spexmachina.Plan.Types.{Op, Changeset, AbsorbedEntry, task, op_create, op_close, op_retarget}
use spexmachina.Mapping.Journal.{Event}
use spexmachina.Ingest.Receipts.{OpReceipt, Receipts}
use spexmachina.Ingest.Events.{
  BuildError, build_absorbed, NodeMetadata, SpecGraph, receipt_event, change_event,
}
use spexmachina.Ingest.Reconciler.{ReconcileSummary, apply, state_of}
use spexmachina.Ingest.Reconciler.Outcome.{IsNew, IsConsistent, apply-IsConsistent}
use spexmachina.Ingest.Reconciler.Count.{apply-counts}
use spexmachina.Ingest.Reconciler.Repeat.{no_lines, apply-again}

abbrev empty_op : String → String → Op
empty_op op_id type = record {
  op_id = op_id;
  type = type;
  spec_node_kind = "";
  spec_node_id = "";
  spec_hash = "";
  idempotency = none;
  parent = none;
  deps = [];
  priority = 0;
  title = "";
  body = "";
  target = none;
  labels = [];
  reason = "";
}

abbrev create : Op
create = record (empty_op "op-create" op_create) {
  spec_node_kind = "component";
  spec_node_id = "n2";
  title = "Two";
}

abbrev retarget : Op
retarget = record (empty_op "op-retarget" op_retarget) {
  spec_node_id = "n1";
  spec_hash = "h1b";
  target = some (task "t1");
}

abbrev close : Op
close = record (empty_op "op-close" op_close) {
  target = some (task "t1");
  reason = "Spec node removed: n1";
}

abbrev changeset : Changeset
changeset = record {
  version = 4;
  git_head = "b2";
  proposal = "p";
  ops = create ∷ retarget ∷ close ∷ [];
  absorbed = [];
}

abbrev receipt : String → String → String → OpReceipt
receipt op_id status task_id = record {
  op_id = op_id;
  status = status;
  task_id = task_id;
  was_existing = false;
  reason = "";
  error = "";
}

abbrev receipts : Receipts
receipts = record {
  version = 1;
  status = "partial";
  ops =
      receipt "op-create" "ok" "t2"
      ∷ receipt "op-retarget" "ok" "t1"
      ∷ receipt "op-close" "error" ""
      ∷ [];
}

abbrev earlier : Changeset
earlier = record { version = 4; git_head = "a1"; proposal = "p0"; ops = []; absorbed = [] }

abbrev existing : List Event
existing =
    change_event earlier "added" "a1:op" "n1" "One" "component" "m" none (some "h1") "one.md"
    ∷ receipt_event "task_created" "t1" "a1:op"
    ∷ []

abbrev metadata : String → NodeMetadata
metadata hash = record {
  module_name = "m";
  component = "C";
  content_file = "c.md";
  spec_hash = hash;
  node_type = "component";
}

abbrev graph : SpecGraph
graph = some (λ node.
    if node == "n1"
    then some (metadata "h1b")
    else if node == "n2"
    then some (metadata "h2")
    else none)

abbrev component_type : NodeType
component_type = record {
  name = "component";
  plural_key = "components";
  scope = "module";
  requires_content = true;
  completeness_trigger = false;
  name_declarable = true;
  fields = [];
  comment = "";
  content_prefix = none;
  leaf_sections = none;
}

abbrev profile : Profile
profile = record {
  profile_version = none;
  node_types = component_type ∷ [];
  coverage_chains = [];
  plan_relevant = [];
  impact_levels = [];
  absorbable = [];
  edges = [];
  hashed_fields = [];
}

abbrev fits : Event → Bool
fits ev = true

abbrev batch : List Event
batch =
    change_event changeset "added" "b2:op-create" "n2" "C" "component" "m" none (some "h2") "c.md"
    ∷ receipt_event "task_created" "t2" "b2:op-create"
    ∷ change_event changeset "modified" "b2:op-retarget" "n1" "C" "component" "m" (some "h1")
        (some "h1b") "c.md"
    ∷ receipt_event "task_retargeted" "t1" "b2:op-retarget"
    ∷ []

abbrev summary : ReconcileSummary
summary = record {
  ok_creates = 1;
  ok_closes = 0;
  ok_retargets = 1;
  skipped = 0;
  errors = 1;
  events_appended = 2;
  receipts_appended = 2;
}

applied : apply fits profile graph existing changeset receipts ≡ ok (summary, batch)
unfolding apply contains fetch store sort_by insert_by
applied = refl

apply-IsConsistent_example : IsNew existing batch × IsConsistent existing batch
apply-IsConsistent_example =
    apply-IsConsistent fits profile graph existing changeset receipts summary batch applied

apply-counts_example : (1 + 0 + 1 + 0 + 1 ≡ 3) × (2 + 2 ≤ 4)
apply-counts_example =
    apply-counts fits profile graph existing changeset receipts summary batch applied

apply-again_example :
    apply fits profile graph (existing ++ batch) changeset receipts ≡ ok (no_lines summary, [])
apply-again_example =
    apply-again fits profile graph existing changeset receipts summary batch applied
      ((λ h. (refl, refl)), ((λ h. (refl, refl)), ((λ h. (refl, refl)), tt)))

abbrev absorbing : Changeset
absorbing =
    let entry : AbsorbedEntry = record { node = "n1"; before = "h1"; after = "h1b"; reason = "" } in
    record changeset { ops = []; absorbed = entry ∷ entry ∷ [] }

abbrev eids : Result BuildError (List Event) → List String
eids (err e) = []
eids (ok lines) = map (λ (ev : Event). ev.eid) lines

-- Two equal absorbed entries make two events with one id.
absorbed-same :
    eids (build_absorbed (state_of graph existing []) absorbing)
    ≡ "refresh:n1:h1:h1b" ∷ "refresh:n1:h1:h1b" ∷ "" ∷ []
unfolding build_absorbed state_of contains
absorbed-same = refl
