-- ===== src/Ingest/Reconciler/Repeat.antt =====
-- What Apply does when it is run again on a journal that holds its batch.
use spexmachina.Prelude.{
  ◌+◌, String, Bool, true, List, [], ◌∷◌, ◌++◌, All, contains, ◌==◌, OnOk, OnOk-ok, Result, ok, err,
  Option-cases, Result-cases, Bool-cases, ◌≡◌, refl, sym, subst, ◌∙◌, ap, inl, inr, arith,
}
use spexmachina.Schema.Profile.{Profile}
use spexmachina.Plan.Types.{Op, Changeset, op_create, op_close, op_retarget}
use spexmachina.Mapping.Journal.{Event}
use spexmachina.Mapping.Journal.History.{is_change}
use spexmachina.Ingest.Reconciler.Count.{lines_counted, construct-CountsOps}
use spexmachina.Ingest.Receipts.{OpReceipt, ByOp, Receipts, pair_receipts}
use spexmachina.Ingest.Invariants.{known_eids}
use spexmachina.Ingest.Events.{
  SpecGraph, Lines, build_close, build_create, build_retarget, build_absorbed,
}
use spexmachina.Ingest.Events.Again.{
  Knows, IsNodeCreate, close-Again, create-Again, retarget-Again, absorbed_twice, known_left,
  known_right,
}
use spexmachina.Ingest.Reconciler.{
  ReconcileSummary, ApplyError, Run, no_run, count_close, count_create, count_retarget, state_of,
  receipt_of, append_batch, by_status, run_op, run_ops, construct, check_batch, is_receipt_line,
  count_appended, commit, apply,
}

-- The run with an empty batch.
abbrev without_batch : Run → Run
without_batch run = record { sum = run.sum; batch = [] }

-- No op creates an epic or a cleanup.
abbrev pub NodeCreates : List Op → Type 0
NodeCreates = All (λ o. (o.type == op_create) ≡ true → IsNodeCreate o)

-- The other journal has every id of these lines.
abbrev Covers : List Event → List Event → Type 0
Covers existing' lines =
    (eid : String)
    → contains (known_eids lines) eid ≡ true
    → contains (known_eids existing') eid ≡ true

module _ (graph : SpecGraph) (existing existing' : List Event) (cs : Changeset) (by_op : ByOp)
    (grows : Covers existing' existing) where
  state_of-Knows :
      (batch lines : List Event)
      → Covers existing' (batch ++ lines)
      → Knows (state_of graph existing batch) (state_of graph existing' []) lines
  unfolding state_of
  state_of-Knows batch lines covers = (
    (λ eid h. ground (arith, h, grows eid, covers eid, known_left batch lines eid)),
    (λ eid h. ground (arith, covers eid (known_right batch lines eid h))),
  )

  -- The step of the second run that answers one of the first.
  abbrev Repeats : Run → Result ApplyError Run → Run → Type 0
  Repeats run again run' =
      Covers existing' run'.batch → Covers existing' run.batch × (again ≡ ok (without_batch run'))

  append_batch-Repeats :
      (count : ReconcileSummary → ReconcileSummary) (run : Run) (lines lines' : Lines)
      → OnOk
          (λ made.
            Knows (state_of graph existing run.batch) (state_of graph existing' []) made
            → lines' ≡ ok [])
          lines
      → OnOk
          (Repeats run (append_batch count (without_batch run) lines'))
          (append_batch count run lines)
  append_batch-Repeats count run (err e) lines' h = tt
  append_batch-Repeats count run (ok made) lines' h = λ covers. (
    (λ eid k. covers eid (known_left run.batch made eid k)),
    ap (append_batch count (without_batch run)) (h (state_of-Knows run.batch made covers)),
  )

  by_status-Repeats :
      (count : ReconcileSummary → ReconcileSummary) (run : Run) (o : Op) (receipt : OpReceipt)
      (lines lines' : Lines)
      → OnOk
          (λ made.
            Knows (state_of graph existing run.batch) (state_of graph existing' []) made
            → lines' ≡ ok [])
          lines
      → OnOk
          (Repeats run (by_status count (without_batch run) o receipt lines'))
          (by_status count run o receipt lines)
  unfolding by_status
  by_status-Repeats count run o receipt lines lines' h =
      elim (Bool-cases (receipt.status == "ok")) [
        | inl e ↦ rw (e, by_status) (append_batch-Repeats count run lines lines' h)
        | inr e ↦ elim (Bool-cases (receipt.status == "error")) [
          | inl f ↦ rw (e, f, by_status) (λ covers. (covers, refl))
          | inr f ↦ elim (Bool-cases (receipt.status == "skipped")) [
            | inl g ↦ rw (e, f, g, by_status) (λ covers. (covers, refl))
            | inr g ↦ rw (e, f, g, by_status) tt
          ]
        ]
      ]

  run_op-Repeats :
      (run : Run) (o : Op)
      → ((o.type == op_create) ≡ true → IsNodeCreate o)
      → OnOk
          (Repeats run (run_op graph existing' cs by_op (without_batch run) o))
          (run_op graph existing cs by_op run o)
  unfolding run_op
  run_op-Repeats run o node =
      let st = state_of graph existing run.batch in
      let st' = state_of graph existing' [] in
      let receipt = receipt_of by_op o.op_id in
      elim (Bool-cases (o.type == op_close)) [
        | inl e ↦
            rw (e, run_op)
              (by_status-Repeats count_close run o receipt (build_close st cs o receipt)
                (build_close st' cs o receipt) (close-Again st st' cs o receipt))
        | inr e ↦ elim (Bool-cases (o.type == op_create)) [
          | inl f ↦
              rw (e, f, run_op)
                (by_status-Repeats count_create run o receipt (build_create st cs o receipt)
                  (build_create st' cs o receipt) (create-Again st st' cs o receipt (node f)))
          | inr f ↦ elim (Bool-cases (o.type == op_retarget)) [
            | inl g ↦
                rw (e, f, g, run_op)
                  (by_status-Repeats count_retarget run o receipt (build_retarget st cs o receipt)
                    (build_retarget st' cs o receipt) (retarget-Again st st' cs o receipt))
            | inr g ↦ rw (e, f, g, run_op) tt
          ]
        ]
      ]

  run_ops-Repeats :
      (run : Run) (ops : List Op)
      → NodeCreates ops
      → OnOk
          (Repeats run (run_ops graph existing' cs by_op (without_batch run) ops))
          (run_ops graph existing cs by_op run ops)
  unfolding run_ops
  run_ops-Repeats run [] h = λ covers. (covers, refl)
  run_ops-Repeats run (o ∷ ops) h = elim (Result-cases (run_op graph existing cs by_op run o)) [
    | inl (e, f) ↦ rw (f, run_ops) tt
    | inr (run', f) ↦ elim (Result-cases (run_ops graph existing cs by_op run' ops)) [
      | inl (e, g) ↦ rw (f, g, run_ops) tt
      | inr (final, g) ↦
          rw (f, g, run_ops)
            (λ covers.
              let (before, rest) =
                OnOk-ok _ (run_ops graph existing cs by_op run' ops) (run_ops-Repeats run' ops h.1)
                  g covers in
              let (start, first) =
                OnOk-ok _ (run_op graph existing cs by_op run o) (run_op-Repeats run o h.0) f
                  before in
              (start, rw (first, run_ops) rest))
    ]
  ]

  construct-Repeats :
      NodeCreates cs.ops
      → OnOk
          (λ final.
            Covers existing' final.batch
            → construct graph existing' cs by_op ≡ ok (without_batch final))
          (construct graph existing cs by_op)
  unfolding construct
  construct-Repeats h = elim (Result-cases (run_ops graph existing cs by_op no_run cs.ops)) [
    | inl (e, f) ↦ rw (f, construct) tt
    | inr (run, f) ↦
        let st = state_of graph existing run.batch in
        elim (Result-cases (build_absorbed st cs)) [
          | inl (e, g) ↦ rw (f, g, construct) tt
          | inr (lines, g) ↦
              rw (f, g, construct)
                (λ covers.
                  let again =
                    OnOk-ok _ (run_ops graph existing cs by_op no_run cs.ops)
                      (run_ops-Repeats no_run cs.ops h) f
                      (λ eid k. covers eid (known_left run.batch lines eid k)) in
                  let absorbed =
                    OnOk-ok _ (build_absorbed st cs)
                      (absorbed_twice st (state_of graph existing' []) cs) g
                      (state_of-Knows run.batch lines covers) in
                  rw (again.1, absorbed, construct) refl)
        ]
  ]

abbrev pub no_lines : ReconcileSummary → ReconcileSummary
no_lines s = record s { events_appended = 0; receipts_appended = 0 }

count_appended-no_lines :
    (s : ReconcileSummary) (batch : List Event) → no_lines (count_appended s batch) ≡ no_lines s
unfolding count_appended
count_appended-no_lines s [] = refl
count_appended-no_lines s (ev ∷ batch) = elim (Bool-cases (is_change ev)) [
  | inl e ↦
      rw (e, count_appended)
        (count_appended-no_lines (record s { events_appended = s.events_appended + 1 }) batch)
  | inr e ↦ elim (Bool-cases (is_receipt_line ev)) [
    | inl f ↦
        rw (e, f, count_appended)
          (count_appended-no_lines (record s { receipts_appended = s.receipts_appended + 1 }) batch)
    | inr f ↦ rw (e, f, count_appended) (count_appended-no_lines s batch)
  ]
]

no_lines-counted : (s : ReconcileSummary) → lines_counted s ≡ 0 → s ≡ no_lines s
no_lines-counted s h =
    let e : s.events_appended ≡ 0 = omega arith in
    let f : s.receipts_appended ≡ 0 = omega arith in
    λ i. record s { events_appended = e i; receipts_appended = f i }

-- The second run, when the first has made this one.
abbrev pub IsRepeated :
    (Event → Bool)
    → Profile
    → SpecGraph
    → List Event
    → Changeset
    → Receipts
    → ReconcileSummary × List Event
    → Type 0
IsRepeated fits_schema profile graph existing cs rc out =
    apply fits_schema profile graph (existing ++ out.1) cs rc ≡ ok (no_lines out.0, [])

module _ (fits_schema : Event → Bool) (profile : Profile) (graph : SpecGraph)
    (existing : List Event) (cs : Changeset) (rc : Receipts) where
  commit-IsRepeated :
      (by_op : ByOp) (run : Run)
      → pair_receipts cs rc ≡ ok by_op
      → lines_counted run.sum ≡ 0
      → construct graph (existing ++ run.batch) cs by_op ≡ ok (without_batch run)
      → OnOk
          (IsRepeated fits_schema profile graph existing cs rc)
          (commit fits_schema profile existing run)
  unfolding apply commit check_batch count_appended
  commit-IsRepeated by_op run paired none_counted again =
      elim (Option-cases (check_batch fits_schema profile existing run.batch)) [
        | inr (e, k) ↦ rw (k, commit) tt
        | inl k ↦
            rw (k, commit)
              (rw (paired, again, apply, commit, check_batch)
                (ap (λ s. ok (s, []))
                  (no_lines-counted run.sum none_counted
                    ∙ sym (count_appended-no_lines run.sum run.batch))))
      ]

  apply-of :
      (by_op : ByOp) (run : Run)
      → pair_receipts cs rc ≡ ok by_op
      → construct graph existing cs by_op ≡ ok run
      → apply fits_schema profile graph existing cs rc ≡ commit fits_schema profile existing run
  unfolding apply
  apply-of by_op run f g = rw (f, g, apply) refl

  apply-IsRepeated :
      NodeCreates cs.ops
      → OnOk
          (IsRepeated fits_schema profile graph existing cs rc)
          (apply fits_schema profile graph existing cs rc)
  unfolding apply
  apply-IsRepeated nodes = elim (Result-cases (pair_receipts cs rc)) [
    | inl (e, f) ↦ rw (f, apply) tt
    | inr (by_op, f) ↦ elim (Result-cases (construct graph existing cs by_op)) [
      | inl (e, g) ↦ rw (f, g, apply) tt
      | inr (run, g) ↦
          let counts =
            OnOk-ok _ (construct graph existing cs by_op)
              (construct-CountsOps graph existing cs by_op) g in
          let again =
            OnOk-ok _ (construct graph existing cs by_op)
              (construct-Repeats graph existing (existing ++ run.batch) cs by_op
                (λ eid k. known_left existing run.batch eid k) nodes)
              g (λ eid k. known_right existing run.batch eid k) in
          subst (OnOk (IsRepeated fits_schema profile graph existing cs rc))
            (sym (apply-of by_op run f g)) (commit-IsRepeated by_op run f counts.1 again)
    ]
  ]

-- If Apply accepts a run whose changeset creates neither an epic nor a cleanup, then to apply the same
-- changeset and receipts to the journal with the batch of that run is accepted too, appends nothing, and
-- its summary counts the ops as the first one does.
pub apply-again :
    (fits_schema : Event → Bool) (profile : Profile) (graph : SpecGraph) (existing : List Event)
    (cs : Changeset) (rc : Receipts) (sum : ReconcileSummary) (batch : List Event)
    → apply fits_schema profile graph existing cs rc ≡ ok (sum, batch)
    → NodeCreates cs.ops
    → apply fits_schema profile graph (existing ++ batch) cs rc ≡ ok (no_lines sum, [])
apply-again fits_schema profile graph existing cs rc sum batch e nodes =
    OnOk-ok (IsRepeated fits_schema profile graph existing cs rc)
      (apply fits_schema profile graph existing cs rc)
      (apply-IsRepeated fits_schema profile graph existing cs rc nodes) e
