-- ===== src/Ingest/Reconciler.antt =====
-- Reconciler.Apply of ingest/reconciler.go. The parsed journal and the resolved profile are arguments;
-- the result is the summary with the batch that Append is given, the journal's only change.
pub mod Steps
pub mod Outcome
pub mod Repeat
pub mod Count
mod Samples
use spexmachina.Prelude.{
  String, ℕ, ◌+◌, Bool, true, false, ◌||◌, List, [], ◌∷◌, ◌++◌, Option, none, some, ◌==◌,
  if◌then◌else◌, contains, fetch, store, Result, ok, err,
}
use spexmachina.Schema.Profile.{Profile}
use spexmachina.Plan.Types.{Op, Changeset, op_create, op_close, op_retarget}
use spexmachina.Mapping.Journal.{Event, fold}
use spexmachina.Mapping.Journal.History.{is_change, is_receipt}
use spexmachina.Ingest.Receipts.{OpReceipt, Receipts, ReceiptError, ByOp, pair_receipts}
use spexmachina.Ingest.Invariants.{InvariantError, known_eids, check}
use spexmachina.Ingest.Encoder.{EncoderError, check_invariant5}
use spexmachina.Ingest.Events.{
  SpecGraph, EventBuilderState, BuildError, Lines, build_close, build_create, build_retarget,
  build_absorbed,
}

pub record ReconcileSummary : Type 0 where
  pub ok_creates : ℕ
  pub ok_closes : ℕ
  pub ok_retargets : ℕ
  pub skipped : ℕ
  pub errors : ℕ
  pub events_appended : ℕ
  pub receipts_appended : ℕ

pub data ApplyError : Type 0 where
  receipts_error : ReceiptError → ApplyError
  build_error : BuildError → ApplyError
  unknown_status : (op_id status : String) → ApplyError
  unknown_type : (op_id type : String) → ApplyError
  invariant_error : InvariantError → ApplyError
  encoder_error : EncoderError → ApplyError

-- The variables of the loop over the ops. batchEIDs is read off the batch.
pub record Run : Type 0 where
  pub sum : ReconcileSummary
  pub batch : List Event

abbrev pub no_summary : ReconcileSummary
no_summary = record {
  ok_creates = 0;
  ok_closes = 0;
  ok_retargets = 0;
  skipped = 0;
  errors = 0;
  events_appended = 0;
  receipts_appended = 0;
}

abbrev pub no_run : Run
no_run = record { sum = no_summary; batch = [] }

-- The last `registered` event of each proposal.
unfoldable pub registered_by_stem : List (String × String) → List Event → List (String × String)
registered_by_stem stems [] = stems
registered_by_stem stems (ev ∷ events) =
    registered_by_stem (if ev.event == "registered" then store stems ev.proposal ev.eid else stems)
      events

-- The state of the builder when the batch holds these lines.
unfoldable pub state_of : SpecGraph → List Event → List Event → EventBuilderState
unfolding fold registered_by_stem known_eids contains
state_of graph existing batch = record {
  spec_graph = graph;
  fold = fold existing;
  registered_by_stem = registered_by_stem [] existing;
  has_eid = λ eid. contains (known_eids existing) eid || contains (known_eids batch) eid;
}

-- The zero receipt, for an op that has none.
abbrev pub zero_receipt : OpReceipt
zero_receipt = record {
  op_id = "";
  status = "";
  task_id = "";
  was_existing = false;
  reason = "";
  error = "";
}

unfoldable pub receipt_of : ByOp → String → OpReceipt
receipt_of by_op op_id = elim (fetch by_op op_id) [ none ↦ zero_receipt | some r ↦ r ]

abbrev pub count_close : ReconcileSummary → ReconcileSummary
count_close s = record s { ok_closes = s.ok_closes + 1 }

abbrev pub count_create : ReconcileSummary → ReconcileSummary
count_create s = record s { ok_creates = s.ok_creates + 1 }

abbrev pub count_retarget : ReconcileSummary → ReconcileSummary
count_retarget s = record s { ok_retargets = s.ok_retargets + 1 }

abbrev pub count_error : ReconcileSummary → ReconcileSummary
count_error s = record s { errors = s.errors + 1 }

abbrev pub count_skipped : ReconcileSummary → ReconcileSummary
count_skipped s = record s { skipped = s.skipped + 1 }

-- appendBatch
abbrev pub append_batch :
    (ReconcileSummary → ReconcileSummary) → Run → Lines → Result ApplyError Run
append_batch count run (err e) = err (build_error e)
append_batch count run (ok lines) = ok (record { sum = count run.sum; batch = run.batch ++ lines })

-- The inner switch, on the receipt's status.
unfoldable pub by_status :
    (ReconcileSummary → ReconcileSummary) → Run → Op → OpReceipt → Lines → Result ApplyError Run
by_status count run o receipt lines =
    if receipt.status == "ok"
    then append_batch count run lines
    else if receipt.status == "error"
    then ok (record { sum = count_error run.sum; batch = run.batch })
    else if receipt.status == "skipped"
    then ok (record { sum = count_skipped run.sum; batch = run.batch })
    else err (unknown_status o.op_id receipt.status)

unfoldable pub run_op : SpecGraph → List Event → Changeset → ByOp → Run → Op → Result ApplyError Run
unfolding by_status state_of receipt_of build_close build_create build_retarget
run_op graph existing cs by_op run o =
    let st = state_of graph existing run.batch in
    let receipt = receipt_of by_op o.op_id in
    if o.type == op_close
    then by_status count_close run o receipt (build_close st cs o receipt)
    else if o.type == op_create
    then by_status count_create run o receipt (build_create st cs o receipt)
    else if o.type == op_retarget
    then by_status count_retarget run o receipt (build_retarget st cs o receipt)
    else err (unknown_type o.op_id o.type)

unfoldable pub run_ops :
    SpecGraph → List Event → Changeset → ByOp → Run → List Op → Result ApplyError Run
unfolding run_op
run_ops graph existing cs by_op run [] = ok run
run_ops graph existing cs by_op run (o ∷ ops) = elim (run_op graph existing cs by_op run o) [
  | err e ↦ err e
  | ok run' ↦ run_ops graph existing cs by_op run' ops
]

-- The ops and the absorbed entries: the whole batch.
unfoldable pub construct : SpecGraph → List Event → Changeset → ByOp → Result ApplyError Run
unfolding run_ops state_of build_absorbed
construct graph existing cs by_op = elim (run_ops graph existing cs by_op no_run cs.ops) [
  | err e ↦ err e
  | ok run ↦ append_batch (λ s. s) run (build_absorbed (state_of graph existing run.batch) cs)
]

-- The checks before the commit, of a batch that is not empty.
unfoldable pub check_batch : (Event → Bool) → Profile → List Event → List Event → Option ApplyError
unfolding check check_invariant5
check_batch fits_schema profile existing [] = none
check_batch fits_schema profile existing (ev ∷ batch) = elim (check existing (ev ∷ batch)) [
  | err e ↦ some (invariant_error e)
  | ok done ↦ elim (check_invariant5 fits_schema profile (ev ∷ batch)) [
    | some e ↦ some (encoder_error e)
    | none ↦ none
  ]
]

abbrev pub is_receipt_line : Event → Bool
is_receipt_line ev = is_receipt ev || (ev.event == "refresh")

-- The loop over the batch that counts what is appended.
unfoldable pub count_appended : ReconcileSummary → List Event → ReconcileSummary
count_appended s [] = s
count_appended s (ev ∷ batch) =
    count_appended
      (if is_change ev
        then record s { events_appended = s.events_appended + 1 }
        else if is_receipt_line ev
        then record s { receipts_appended = s.receipts_appended + 1 }
        else s)
      batch

unfoldable pub commit :
    (Event → Bool) → Profile → List Event → Run → Result ApplyError (ReconcileSummary × List Event)
unfolding check_batch count_appended
commit fits_schema profile existing run =
    elim (check_batch fits_schema profile existing run.batch) [
      | some e ↦ err e
      | none ↦ ok (count_appended run.sum run.batch, run.batch)
    ]

unfoldable pub apply :
    (Event → Bool)
    → Profile
    → SpecGraph
    → List Event
    → Changeset
    → Receipts
    → Result ApplyError (ReconcileSummary × List Event)
unfolding pair_receipts construct commit
apply fits_schema profile graph existing cs rc = elim (pair_receipts cs rc) [
  | err e ↦ err (receipts_error e)
  | ok by_op ↦ elim (construct graph existing cs by_op) [
    | err e ↦ err e
    | ok run ↦ commit fits_schema profile existing run
  ]
]
