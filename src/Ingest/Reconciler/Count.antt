-- ===== src/Ingest/Reconciler/Count.antt =====
-- The summary that Apply answers with.
use spexmachina.Prelude.{
  ℕ, ◌+◌, ◌≤◌, Bool, List, [], ◌∷◌, length, OnOk, OnOk-ok, ◌∙◌, ok, err, ◌≡◌, refl, inl, inr, arith,
  Option-cases, Result-cases, Bool-cases,
}
use spexmachina.Schema.Profile.{Profile}
use spexmachina.Plan.Types.{Op, Changeset}
use spexmachina.Mapping.Journal.{Event}
use spexmachina.Mapping.Journal.History.{is_change}
use spexmachina.Ingest.Receipts.{OpReceipt, ByOp, Receipts, pair_receipts}
use spexmachina.Ingest.Events.{
  SpecGraph, Lines, build_close, build_create, build_retarget, build_absorbed,
}
use spexmachina.Ingest.Reconciler.{
  ReconcileSummary, Run, no_run, count_close, count_create, count_retarget, state_of, receipt_of,
  append_batch, by_status, run_op, run_ops, construct, check_batch, is_receipt_line, count_appended,
  commit, apply,
}
use spexmachina.Ingest.Reconciler.Steps.{by_status-OnOk, run_op-OnOk}

-- The ops that a summary counts.
abbrev pub ops_counted : ReconcileSummary → ℕ
ops_counted s = s.ok_creates + s.ok_closes + s.ok_retargets + s.skipped + s.errors

-- The lines that it counts.
abbrev pub lines_counted : ReconcileSummary → ℕ
lines_counted s = s.events_appended + s.receipts_appended

-- A run that counts so many ops more, and no lines.
abbrev CountsOps : ReconcileSummary → ℕ → Run → Type 0
CountsOps s n run =
    (ops_counted run.sum ≡ ops_counted s + n) × (lines_counted run.sum ≡ lines_counted s)

append_batch-CountsOps :
    (count : ReconcileSummary → ReconcileSummary) (n : ℕ) (run : Run) (lines : Lines)
    → ((s : ReconcileSummary)
        → (ops_counted (count s) ≡ ops_counted s + n) × (lines_counted (count s) ≡ lines_counted s))
    → OnOk (CountsOps run.sum n) (append_batch count run lines)
append_batch-CountsOps count n run (err e) h = tt
append_batch-CountsOps count n run (ok lines) h = h run.sum

module _ (graph : SpecGraph) (existing : List Event) (cs : Changeset) (by_op : ByOp) where
  by_status-CountsOps :
      (count : ReconcileSummary → ReconcileSummary) (run : Run) (o : Op) (receipt : OpReceipt)
      (lines : Lines)
      → ((s : ReconcileSummary)
          → (ops_counted (count s) ≡ ops_counted s + 1)
            × (lines_counted (count s) ≡ lines_counted s))
      → OnOk (CountsOps run.sum 1) (by_status count run o receipt lines)
  by_status-CountsOps count run o receipt lines h =
      by_status-OnOk (CountsOps run.sum 1) count run o receipt lines
        (append_batch-CountsOps count 1 run lines h) (omega arith, refl) (omega arith, refl)

  run_op-CountsOps :
      (run : Run) (o : Op) → OnOk (CountsOps run.sum 1) (run_op graph existing cs by_op run o)
  run_op-CountsOps run o =
      let st = state_of graph existing run.batch in
      let receipt = receipt_of by_op o.op_id in
      run_op-OnOk (CountsOps run.sum 1) graph existing cs by_op run o
        (λ e.
          by_status-CountsOps count_close run o receipt (build_close st cs o receipt)
            (λ s. (omega arith, refl)))
        (λ e.
          by_status-CountsOps count_create run o receipt (build_create st cs o receipt)
            (λ s. (omega arith, refl)))
        (λ e.
          by_status-CountsOps count_retarget run o receipt (build_retarget st cs o receipt)
            (λ s. (omega arith, refl)))

  run_ops-CountsOps :
      (run : Run) (ops : List Op)
      → OnOk (CountsOps run.sum (length ops)) (run_ops graph existing cs by_op run ops)
  unfolding run_ops
  run_ops-CountsOps run [] = (omega arith, refl)
  run_ops-CountsOps run (o ∷ ops) = elim (Result-cases (run_op graph existing cs by_op run o)) [
    | inl (e, f) ↦ rw (f, run_ops) tt
    | inr (run', f) ↦
        let first = OnOk-ok _ (run_op graph existing cs by_op run o) (run_op-CountsOps run o) f in
        elim (Result-cases (run_ops graph existing cs by_op run' ops)) [
          | inl (e, g) ↦ rw (f, g, run_ops) tt
          | inr (final, g) ↦
              let rest =
                OnOk-ok _ (run_ops graph existing cs by_op run' ops) (run_ops-CountsOps run' ops)
                  g in
              rw (f, g, run_ops) (ground (arith, first.0, rest.0), ground (arith, first.1, rest.1))
        ]
  ]

  pub construct-CountsOps :
      OnOk
        (λ (run : Run). (ops_counted run.sum ≡ length cs.ops) × (lines_counted run.sum ≡ 0))
        (construct graph existing cs by_op)
  unfolding construct
  construct-CountsOps = elim (Result-cases (run_ops graph existing cs by_op no_run cs.ops)) [
    | inl (e, f) ↦ rw (f, construct) tt
    | inr (run, f) ↦
        let counts =
          OnOk-ok _ (run_ops graph existing cs by_op no_run cs.ops)
            (run_ops-CountsOps no_run cs.ops) f in
        elim (Result-cases (build_absorbed (state_of graph existing run.batch) cs)) [
          | inl (e, g) ↦ rw (f, g, construct) tt
          | inr (lines, g) ↦ rw (f, g, construct) (omega arith, omega arith)
        ]
  ]

count_appended-ops :
    (s : ReconcileSummary) (batch : List Event)
    → (ops_counted (count_appended s batch) ≡ ops_counted s)
      × (lines_counted (count_appended s batch) ≤ lines_counted s + length batch)
unfolding count_appended
count_appended-ops s [] = (refl, omega arith)
count_appended-ops s (ev ∷ batch) = elim (Bool-cases (is_change ev)) [
  | inl e ↦
      let (p, q) =
        count_appended-ops (record s { events_appended = s.events_appended + 1 }) batch in
      rw (e, count_appended) (p, ground (arith, q))
  | inr e ↦ elim (Bool-cases (is_receipt_line ev)) [
    | inl f ↦
        let (p, q) =
          count_appended-ops (record s { receipts_appended = s.receipts_appended + 1 }) batch in
        rw (e, f, count_appended) (p, ground (arith, q))
    | inr f ↦
        let (p, q) = count_appended-ops s batch in rw (e, f, count_appended) (p, ground (arith, q))
  ]
]

abbrev IsCounted : Changeset → ReconcileSummary × List Event → Type 0
IsCounted cs out = (ops_counted out.0 ≡ length cs.ops) × (lines_counted out.0 ≤ length out.1)

commit-IsCounted :
    (fits_schema : Event → Bool) (profile : Profile) (existing : List Event) (cs : Changeset)
    (run : Run)
    → (ops_counted run.sum ≡ length cs.ops) × (lines_counted run.sum ≡ 0)
    → OnOk (IsCounted cs) (commit fits_schema profile existing run)
unfolding commit
commit-IsCounted fits_schema profile existing cs run h =
    let counted = count_appended-ops run.sum run.batch in
    elim (Option-cases (check_batch fits_schema profile existing run.batch)) [
      | inr (e, k) ↦ rw (k, commit) tt
      | inl k ↦ rw (k, commit) (counted.0 ∙ h.0, ground (arith, counted.1, h.1))
    ]

apply-IsCounted :
    (fits_schema : Event → Bool) (profile : Profile) (graph : SpecGraph) (existing : List Event)
    (cs : Changeset) (rc : Receipts)
    → OnOk (IsCounted cs) (apply fits_schema profile graph existing cs rc)
unfolding apply
apply-IsCounted fits_schema profile graph existing cs rc =
    elim (Result-cases (pair_receipts cs rc)) [
      | inl (e, f) ↦ rw (f, apply) tt
      | inr (by_op, f) ↦ elim (Result-cases (construct graph existing cs by_op)) [
        | inl (e, g) ↦ rw (f, g, apply) tt
        | inr (run, g) ↦
            rw (f, g, apply)
              (commit-IsCounted fits_schema profile existing cs run (
                OnOk-ok _ (construct graph existing cs by_op)
                  (construct-CountsOps graph existing cs by_op) g))
      ]
    ]

-- If Apply accepts a run, its summary accounts for every op of the changeset exactly once, as a create, a
-- close, a retarget, a skip or an error, and the lines that it counts as appended are no more than the
-- lines of the batch.
pub apply-counts :
    (fits_schema : Event → Bool) (profile : Profile) (graph : SpecGraph) (existing : List Event)
    (cs : Changeset) (rc : Receipts) (sum : ReconcileSummary) (batch : List Event)
    → apply fits_schema profile graph existing cs rc ≡ ok (sum, batch)
    → (sum.ok_creates + sum.ok_closes + sum.ok_retargets + sum.skipped + sum.errors ≡ length cs.ops)
      × (sum.events_appended + sum.receipts_appended ≤ length batch)
apply-counts fits_schema profile graph existing cs rc sum batch e =
    OnOk-ok (IsCounted cs) (apply fits_schema profile graph existing cs rc)
      (apply-IsCounted fits_schema profile graph existing cs rc) e
