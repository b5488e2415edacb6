-- ===== src/Ingest/Reconciler/Steps.antt =====
-- Rules for what the loop of Apply over the ops ends with.
use spexmachina.Prelude.{
  true, List, [], ◌∷◌, ◌==◌, OnOk, OnOk-ok, ◌≡◌, inl, inr, Bool-cases, Result-cases,
}
use spexmachina.Plan.Types.{Op, Changeset, op_create, op_close, op_retarget}
use spexmachina.Mapping.Journal.{Event}
use spexmachina.Ingest.Receipts.{OpReceipt, ByOp}
use spexmachina.Ingest.Events.{SpecGraph, Lines, build_close, build_create, build_retarget}
use spexmachina.Ingest.Reconciler.{
  ReconcileSummary, Run, state_of, receipt_of, count_close, count_create, count_retarget,
  count_error, count_skipped, append_batch, by_status, run_op, run_ops,
}

abbrev pub failed : Run → Run
failed run = record { sum = count_error run.sum; batch = run.batch }

abbrev pub skipped_run : Run → Run
skipped_run run = record { sum = count_skipped run.sum; batch = run.batch }

module _ {κ} (P : Run → Type κ) where
  pub by_status-OnOk :
      (count : ReconcileSummary → ReconcileSummary) (run : Run) (o : Op) (receipt : OpReceipt)
      (lines : Lines)
      → OnOk P (append_batch count run lines)
      → P (failed run)
      → P (skipped_run run)
      → OnOk P (by_status count run o receipt lines)
  unfolding by_status
  by_status-OnOk count run o receipt lines made error skip =
      elim (Bool-cases (receipt.status == "ok")) [
        | inl e ↦ rw (e, by_status) made
        | inr e ↦ elim (Bool-cases (receipt.status == "error")) [
          | inl f ↦ rw (e, f, by_status) error
          | inr f ↦ elim (Bool-cases (receipt.status == "skipped")) [
            | inl g ↦ rw (e, f, g, by_status) skip
            | inr g ↦ rw (e, f, g, by_status) tt
          ]
        ]
      ]

  module _ (graph : SpecGraph) (existing : List Event) (cs : Changeset) (by_op : ByOp) where
    pub run_op-OnOk :
        (run : Run) (o : Op)
        → let st = state_of graph existing run.batch in
          let receipt = receipt_of by_op o.op_id in
          ((o.type == op_close) ≡ true
            → OnOk P (by_status count_close run o receipt (build_close st cs o receipt)))
          → ((o.type == op_create) ≡ true
              → OnOk P (by_status count_create run o receipt (build_create st cs o receipt)))
          → ((o.type == op_retarget) ≡ true
              → OnOk P (by_status count_retarget run o receipt (build_retarget st cs o receipt)))
          → OnOk P (run_op graph existing cs by_op run o)
    unfolding run_op
    run_op-OnOk run o close create retarget = elim (Bool-cases (o.type == op_close)) [
      | inl e ↦ rw (e, run_op) (close e)
      | inr e ↦ elim (Bool-cases (o.type == op_create)) [
        | inl f ↦ rw (e, f, run_op) (create f)
        | inr f ↦ elim (Bool-cases (o.type == op_retarget)) [
          | inl g ↦ rw (e, f, g, run_op) (retarget g)
          | inr g ↦ rw (e, f, g, run_op) tt
        ]
      ]
    ]

    -- The invariant rule.
    pub run_ops-OnOk :
        ((run : Run) (o : Op) → P run → OnOk P (run_op graph existing cs by_op run o))
        → (run : Run) (ops : List Op) → P run
        → OnOk P (run_ops graph existing cs by_op run ops)
    unfolding run_ops
    run_ops-OnOk keeps run [] h = h
    run_ops-OnOk keeps run (o ∷ ops) h =
        elim (Result-cases (run_op graph existing cs by_op run o)) [
          | inl (e, f) ↦ rw (f, run_ops) tt
          | inr (run', f) ↦
              rw (f, run_ops)
                (run_ops-OnOk keeps run' ops
                  (OnOk-ok P (run_op graph existing cs by_op run o) (keeps run o h) f))
        ]
