-- ===== src/Ingest/Reconciler/Outcome.antt =====
-- What Apply appends: nothing that the journal has, and nothing that breaks its invariants.
use spexmachina.Prelude.{
  Bool, List, [], ◌∷◌, ◌++◌, none, All, All-append, All-imp, contains, OnOk, OnOk-ok, ok, err,
  Option-cases, Result-cases, ◌≡◌, inl, inr, arith,
}
use spexmachina.Schema.Profile.{Profile}
use spexmachina.Plan.Types.{Op, Changeset}
use spexmachina.Mapping.Journal.{Event}
use spexmachina.Ingest.Receipts.{ByOp, Receipts, pair_receipts}
use spexmachina.Ingest.Invariants.{known_eids, check}
use spexmachina.Ingest.Invariants.Sound.{PairsOnce, RefersTo, check-ok}
use spexmachina.Ingest.Events.{
  SpecGraph, Lines, build_absorbed, build_close, build_create, build_retarget,
}
use spexmachina.Ingest.Events.Fresh.{
  IsFresh, create-IsFresh, close-IsFresh, retarget-IsFresh, absorbed-IsFresh,
}
use spexmachina.Ingest.Reconciler.{
  ReconcileSummary, Run, count_close, count_create, count_retarget, no_run, state_of, receipt_of,
  append_batch, run_op, run_ops, construct, check_batch, commit, apply,
}
use spexmachina.Ingest.Reconciler.Steps.{by_status-OnOk, run_op-OnOk, run_ops-OnOk}

-- The events of the batch that have an id have one that the journal lacks.
abbrev pub IsNew : List Event → List Event → Type 0
IsNew existing batch = All (IsFresh (contains (known_eids existing))) batch

abbrev RunIsNew : List Event → Run → Type 0
RunIsNew existing run = IsNew existing run.batch

-- What is new beside the batch is new beside the journal.
IsNew-state_of :
    (graph : SpecGraph) (existing batch lines : List Event)
    → All (IsFresh (state_of graph existing batch).has_eid) lines
    → IsNew existing lines
unfolding state_of
IsNew-state_of graph existing batch lines =
    All-imp lines (λ ev. elim [ inl e ↦ inl e | inr e ↦ inr (ground (arith, e)) ])

append_batch-IsNew :
    (graph : SpecGraph) (existing : List Event) (count : ReconcileSummary → ReconcileSummary)
    (run : Run) (lines : Lines)
    → RunIsNew existing run
    → OnOk (All (IsFresh (state_of graph existing run.batch).has_eid)) lines
    → OnOk (RunIsNew existing) (append_batch count run lines)
append_batch-IsNew graph existing count run (err e) h k = tt
append_batch-IsNew graph existing count run (ok lines) h k =
    All-append (IsFresh (contains (known_eids existing))) run.batch lines h
      (IsNew-state_of graph existing run.batch lines k)

module _ (graph : SpecGraph) (existing : List Event) (cs : Changeset) (by_op : ByOp) where
  run_op-IsNew :
      (run : Run) (o : Op)
      → RunIsNew existing run
      → OnOk (RunIsNew existing) (run_op graph existing cs by_op run o)
  run_op-IsNew run o h =
      let st = state_of graph existing run.batch in
      let receipt = receipt_of by_op o.op_id in
      let P = RunIsNew existing in
      run_op-OnOk P graph existing cs by_op run o
        (λ e.
          by_status-OnOk P count_close run o receipt (build_close st cs o receipt)
            (append_batch-IsNew graph existing count_close run (build_close st cs o receipt) h
              (close-IsFresh st cs o receipt))
            h h)
        (λ e.
          by_status-OnOk P count_create run o receipt (build_create st cs o receipt)
            (append_batch-IsNew graph existing count_create run (build_create st cs o receipt) h
              (create-IsFresh st cs o receipt))
            h h)
        (λ e.
          by_status-OnOk P count_retarget run o receipt (build_retarget st cs o receipt)
            (append_batch-IsNew graph existing count_retarget run (build_retarget st cs o receipt) h
              (retarget-IsFresh st cs o receipt))
            h h)

  construct-IsNew : OnOk (RunIsNew existing) (construct graph existing cs by_op)
  unfolding construct
  construct-IsNew = elim (Result-cases (run_ops graph existing cs by_op no_run cs.ops)) [
    | inl (e, f) ↦ rw (f, construct) tt
    | inr (run, f) ↦
        rw (f, construct)
          (append_batch-IsNew graph existing (λ s. s) run
            (build_absorbed (state_of graph existing run.batch) cs)
            (OnOk-ok (RunIsNew existing) (run_ops graph existing cs by_op no_run cs.ops)
              (run_ops-OnOk (RunIsNew existing) graph existing cs by_op run_op-IsNew no_run cs.ops
                tt)
              f)
            (absorbed-IsFresh (state_of graph existing run.batch) cs))
  ]

-- What the checks guarantee of a batch that they let pass.
abbrev pub IsConsistent : List Event → List Event → Type 0
IsConsistent existing [] = Unit
IsConsistent existing (ev ∷ batch) =
    PairsOnce (existing ++ ev ∷ batch) × RefersTo (known_eids (existing ++ ev ∷ batch)) (ev ∷ batch)

check_batch-IsConsistent :
    (fits_schema : Event → Bool) (profile : Profile) (existing batch : List Event)
    → check_batch fits_schema profile existing batch ≡ none
    → IsConsistent existing batch
unfolding check_batch
check_batch-IsConsistent fits_schema profile existing [] = λ h. tt
check_batch-IsConsistent fits_schema profile existing (ev ∷ batch) =
    elim (Result-cases (check existing (ev ∷ batch))) [
      | inl (e, f) ↦ rw (f, check_batch) (λ h. cc h)
      | inr (done, f) ↦ λ h. check-ok existing (ev ∷ batch) f
    ]

batch_kept {κ} :
    (P : List Event → Type κ) (fits_schema : Event → Bool) (profile : Profile)
    (existing : List Event) (run : Run)
    → P run.batch
    → OnOk
        (λ out. P out.1 × (check_batch fits_schema profile existing out.1 ≡ none))
        (commit fits_schema profile existing run)
unfolding commit
batch_kept P fits_schema profile existing run h =
    elim (Option-cases (check_batch fits_schema profile existing run.batch)) [
      | inr (e, f) ↦ rw (f, commit) tt
      | inl f ↦ rw (f, commit) (h, f)
    ]

pub apply-OnOk {κ} :
    (P : List Event → Type κ) (fits_schema : Event → Bool) (profile : Profile) (graph : SpecGraph)
    (existing : List Event) (cs : Changeset) (rc : Receipts)
    → ((by_op : ByOp)
        → pair_receipts cs rc ≡ ok by_op
        → OnOk (λ run. P run.batch) (construct graph existing cs by_op))
    → OnOk
        (λ out. P out.1 × (check_batch fits_schema profile existing out.1 ≡ none))
        (apply fits_schema profile graph existing cs rc)
unfolding apply
apply-OnOk P fits_schema profile graph existing cs rc h =
    elim (Result-cases (pair_receipts cs rc)) [
      | inl (e, f) ↦ rw (f, apply) tt
      | inr (by_op, f) ↦ elim (Result-cases (construct graph existing cs by_op)) [
        | inl (e, g) ↦ rw (f, g, apply) tt
        | inr (run, g) ↦
            rw (f, g, apply)
              (batch_kept P fits_schema profile existing run
                (OnOk-ok (λ r. P r.batch) (construct graph existing cs by_op) (h by_op f) g))
      ]
    ]

-- If Apply accepts a run, the events that it appends have ids that the journal does not have, and if
-- it appends anything, then in the journal with the batch no two task_created lines have the same
-- `for`, no two task_created lines name the same proposal and no two task_retargeted lines have the
-- same `for`, and every eid that a receipt or a refresh of the batch refers to is that of a line of
-- the journal or the batch.
pub apply-IsConsistent :
    (fits_schema : Event → Bool) (profile : Profile) (graph : SpecGraph) (existing : List Event)
    (cs : Changeset) (rc : Receipts) (sum : ReconcileSummary) (batch : List Event)
    → apply fits_schema profile graph existing cs rc ≡ ok (sum, batch)
    → IsNew existing batch × IsConsistent existing batch
apply-IsConsistent fits_schema profile graph existing cs rc sum batch e =
    let (fresh, checked) =
      OnOk-ok _ (apply fits_schema profile graph existing cs rc)
        (apply-OnOk (IsNew existing) fits_schema profile graph existing cs rc
          (λ by_op f. construct-IsNew graph existing cs by_op))
        e in
    (fresh, check_batch-IsConsistent fits_schema profile existing batch checked)
