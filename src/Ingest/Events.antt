-- ===== src/Ingest/Events.antt =====
-- ingest/event_builder.go: the journal lines that an op and its receipt lead to. The spec graph is the
-- function NodeMetadata, none for a nil graph; `after` and `before` are the pointers of the event.
pub mod Fresh
pub mod Again
use spexmachina.Prelude.{
  String, Bool, true, false, List, [], ◌∷◌, ◌++◌, map, Option, none, some, ◌==◌, if◌then◌else◌, ◌⊕◌,
  has_prefix, fetch, Result, ok, err,
}
use spexmachina.Plan.Types.{
  Op, Changeset, AbsorbedEntry, Ref, task, op, derive_eid, kind_proposal_epic, kind_cleanup,
}
use spexmachina.Mapping.Journal.{Event, Fold, FoldEntry}
use spexmachina.Mapping.Journal.History.{entry_with}
use spexmachina.Ingest.Receipts.{OpReceipt}

pub record NodeMetadata : Type 0 where
  pub module_name : String
  pub component : String
  pub content_file : String
  pub spec_hash : String
  pub node_type : String

abbrev pub SpecGraph : Type 0
SpecGraph = Option (String → Option NodeMetadata)

pub record EventBuilderState : Type 0 where
  pub spec_graph : SpecGraph
  pub fold : Fold
  pub registered_by_stem : List (String × String)
  pub has_eid : String → Bool

pub data BuildError : Type 0 where
  no_spec_graph : BuildError
  no_metadata : (node : String) → BuildError
  target_not_task : (op_id : String) → BuildError
  no_entry_for_task : (op_id task_id : String) → BuildError
  no_history : (op_id node : String) → BuildError
  not_registered : (op_id stem : String) → BuildError

abbrev pub reason_removed_prefix : String
reason_removed_prefix = "Spec node removed"

abbrev pub reason_modified_prefix : String
reason_modified_prefix = "Spec node modified"

unfoldable pub non_empty : String → String → String
non_empty primary fallback = if primary == "" then fallback else primary

abbrev pub fold_entry_by_key : Fold → String → Option FoldEntry
fold_entry_by_key f key = entry_with (λ e. e.key) f.entries key

abbrev pub fold_entry_by_task : Fold → String → Option FoldEntry
fold_entry_by_task f task_id = entry_with (λ e. e.task_id) f.entries task_id

unfoldable pub prior_hash : EventBuilderState → String → Option String
unfolding entry_with
prior_hash st node = elim (fold_entry_by_key st.fold node) [
  | none ↦ none
  | some entry ↦ entry.source.after
]

unfoldable pub lookup_metadata : EventBuilderState → String → Result BuildError NodeMetadata
lookup_metadata st node = elim st.spec_graph [
  | none ↦ err no_spec_graph
  | some look ↦ elim (look node) [ none ↦ err (no_metadata node) | some md ↦ ok md ]
]

-- The events of the composite literals; fields that are left out are zero.
abbrev pub change_event :
    Changeset
    → String
    → String
    → String
    → String
    → String
    → String
    → Option String
    → Option String
    → String
    → Event
change_event cs kind eid node name node_type module_name before after path = record {
  event = kind;
  eid = eid;
  node = node;
  name = name;
  node_type = node_type;
  module_name = module_name;
  before = before;
  after = after;
  git_head = cs.git_head;
  path = path;
  proposal = cs.proposal;
  for_eid = "";
  task_id = "";
  absorbed = [];
  line = 0;
}

abbrev pub receipt_event : String → String → String → Event
receipt_event kind task_id for_eid = record {
  event = kind;
  eid = "";
  node = "";
  name = "";
  node_type = "";
  module_name = "";
  before = none;
  after = none;
  git_head = "";
  path = "";
  proposal = "";
  for_eid = for_eid;
  task_id = task_id;
  absorbed = [];
  line = 0;
}

abbrev pub refresh_event : Changeset → List String → Event
refresh_event cs eids = record {
  event = "refresh";
  eid = "";
  node = "";
  name = "";
  node_type = "";
  module_name = "";
  before = none;
  after = none;
  git_head = cs.git_head;
  path = "";
  proposal = "";
  for_eid = "";
  task_id = "";
  absorbed = eids;
  line = 0;
}

abbrev pub op_eid : Changeset → Op → String
op_eid cs o = derive_eid cs.git_head o.op_id

-- The task of a target that is ref:task and names one.
unfoldable pub target_task : Op → Option String
target_task o = elim o.target [
  | none ↦ none
  | some ref ↦ elim ref [
    | op op_id ↦ none
    | task task_id ↦ if task_id == "" then none else some task_id
  ]
]

abbrev pub Lines : Type 0
Lines = Result BuildError (List Event)

-- kind of buildNodeCreate
abbrev pub create_kind : Option String → String
create_kind none = "added"
create_kind (some before) = "modified"

unfoldable pub build_node_create : EventBuilderState → Changeset → Op → OpReceipt → Lines
unfolding lookup_metadata prior_hash non_empty
build_node_create st cs o receipt =
    let eid = op_eid cs o in
    if st.has_eid eid then ok [] else elim (lookup_metadata st o.spec_node_id) [
      | err e ↦ err e
      | ok md ↦
          let before = prior_hash st o.spec_node_id in
          ok (
            change_event cs (create_kind before) eid o.spec_node_id (non_empty md.component o.title)
              (non_empty md.node_type o.spec_node_kind) md.module_name before (some md.spec_hash)
              md.content_file
            ∷ receipt_event "task_created" receipt.task_id eid
            ∷ [])
    ]

-- A removed event of a fold entry, with the receipt that goes with it.
abbrev pub removal_lines : Changeset → Op → FoldEntry → String → Event → List Event
removal_lines cs o entry node receipt_line =
    change_event cs "removed" (op_eid cs o) node entry.source.name entry.source.node_type
      entry.source.module_name entry.source.after none entry.source.path
    ∷ receipt_line
    ∷ []

unfoldable pub build_removed : EventBuilderState → Changeset → Op → OpReceipt → Lines
unfolding target_task entry_with
build_removed st cs o receipt = elim (target_task o) [
  | none ↦ err (target_not_task o.op_id)
  | some task_id ↦
      if st.has_eid (op_eid cs o) then ok [] else elim (fold_entry_by_task st.fold task_id) [
        | none ↦ err (no_entry_for_task o.op_id task_id)
        | some entry ↦ ok (
            removal_lines cs o entry entry.key
              (receipt_event "task_closed" receipt.task_id (op_eid cs o)))
      ]
]

unfoldable pub build_modified_from_close :
    EventBuilderState → Changeset → Op → OpReceipt → String → Lines
unfolding lookup_metadata non_empty entry_with
build_modified_from_close st cs o receipt task_id =
    if st.has_eid (op_eid cs o) then ok [] else elim (fold_entry_by_task st.fold task_id) [
      | none ↦ err (no_entry_for_task o.op_id task_id)
      | some entry ↦ elim (lookup_metadata st entry.key) [
        | err e ↦ err e
        | ok md ↦ ok (
            change_event cs "modified" (op_eid cs o) entry.key
              (non_empty md.component entry.source.name)
              (non_empty md.node_type entry.source.node_type) md.module_name entry.source.after
              (some md.spec_hash) md.content_file
            ∷ receipt_event "task_closed" receipt.task_id (op_eid cs o)
            ∷ [])
      ]
    ]

unfoldable pub build_close : EventBuilderState → Changeset → Op → OpReceipt → Lines
unfolding build_removed build_modified_from_close target_task
build_close st cs o receipt =
    if has_prefix o.reason reason_removed_prefix
    then build_removed st cs o receipt
    else if has_prefix o.reason reason_modified_prefix
    then elim (target_task o) [
      | none ↦ err (target_not_task o.op_id)
      | some task_id ↦ build_modified_from_close st cs o receipt task_id
    ]
    else ok []

unfoldable pub build_retarget : EventBuilderState → Changeset → Op → OpReceipt → Lines
unfolding lookup_metadata prior_hash non_empty target_task
build_retarget st cs o receipt = elim (target_task o) [
  | none ↦ err (target_not_task o.op_id)
  | some task_id ↦
      if st.has_eid (op_eid cs o) then ok [] else elim (lookup_metadata st o.spec_node_id) [
        | err e ↦ err e
        | ok md ↦ ok (
            change_event cs "modified" (op_eid cs o) o.spec_node_id (non_empty md.component "")
              (non_empty md.node_type "") md.module_name (prior_hash st o.spec_node_id)
              (some o.spec_hash) md.content_file
            ∷ receipt_event "task_retargeted" task_id (op_eid cs o)
            ∷ [])
      ]
]

unfoldable pub build_epic_create : EventBuilderState → Op → OpReceipt → Lines
unfolding entry_with
build_epic_create st o receipt = elim (fold_entry_by_key st.fold o.spec_node_id) [
  | some entry ↦ ok []
  | none ↦ elim (fetch st.registered_by_stem o.spec_node_id) [
    | none ↦ err (not_registered o.op_id o.spec_node_id)
    | some eid ↦ ok (receipt_event "task_created" receipt.task_id eid ∷ [])
  ]
]

unfoldable pub build_cleanup_create : EventBuilderState → Changeset → Op → OpReceipt → Lines
unfolding entry_with
build_cleanup_create st cs o receipt = elim (fold_entry_by_key st.fold o.spec_node_id) [
  | none ↦ err (no_history o.op_id o.spec_node_id)
  | some entry ↦
      if entry.removed
      then (if entry.task_id == ""
          then ok (receipt_event "task_created" receipt.task_id entry.source.eid ∷ [])
          else ok [])
      else if st.has_eid (op_eid cs o)
      then ok []
      else ok (
          removal_lines cs o entry o.spec_node_id
            (receipt_event "task_created" receipt.task_id (op_eid cs o)))
]

unfoldable pub build_create : EventBuilderState → Changeset → Op → OpReceipt → Lines
unfolding build_epic_create build_cleanup_create build_node_create
build_create st cs o receipt =
    if o.spec_node_kind == kind_proposal_epic
    then build_epic_create st o receipt
    else if o.spec_node_kind == kind_cleanup
    then build_cleanup_create st cs o receipt
    else build_node_create st cs o receipt

-- deriveRefreshEID of ingest/refresh.go; a nil hash reads as the empty one.
unfoldable pub deref_or_empty : Option String → String
deref_or_empty none = ""
deref_or_empty (some s) = s

unfoldable pub derive_refresh_eid : String → Option String → Option String → String
unfolding deref_or_empty
derive_refresh_eid node before after =
    "refresh:" ⊕ (node ⊕ (":" ⊕ (deref_or_empty before ⊕ (":" ⊕ deref_or_empty after))))

abbrev pub absorbed_eid : AbsorbedEntry → String
absorbed_eid entry = derive_refresh_eid entry.node (some entry.before) (some entry.after)

abbrev pub absorbed_event : Changeset → AbsorbedEntry → NodeMetadata → Event
absorbed_event cs entry md =
    change_event cs "modified" (absorbed_eid entry) entry.node (non_empty md.component "")
      (non_empty md.node_type "") md.module_name (some entry.before) (some entry.after)
      md.content_file

-- The loop of BuildAbsorbed.
unfoldable pub absorbed_lines : EventBuilderState → Changeset → List AbsorbedEntry → Lines
unfolding derive_refresh_eid lookup_metadata non_empty
absorbed_lines st cs [] = ok []
absorbed_lines st cs (entry ∷ entries) =
    let rest = absorbed_lines st cs entries in
    if st.has_eid (absorbed_eid entry) then rest else elim (lookup_metadata st entry.node) [
      | err e ↦ err e
      | ok md ↦ elim rest [ err e ↦ err e | ok lines ↦ ok (absorbed_event cs entry md ∷ lines) ]
    ]

abbrev pub with_refresh : Changeset → List Event → List Event
with_refresh cs [] = []
with_refresh cs (ev ∷ lines) =
    (ev ∷ lines) ++ refresh_event cs (map (λ (e : Event). e.eid) (ev ∷ lines)) ∷ []

unfoldable pub build_absorbed : EventBuilderState → Changeset → Lines
unfolding absorbed_lines
build_absorbed st cs = elim (absorbed_lines st cs cs.absorbed) [
  | err e ↦ err e
  | ok lines ↦ ok (with_refresh cs lines)
]
