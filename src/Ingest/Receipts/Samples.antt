-- ===== src/Ingest/Receipts/Samples.antt =====
-- pairReceipts on two ops.
use spexmachina.Prelude.{
  String, false, List, [], ◌∷◌, none, if◌then◌else◌, contains, count, fetch, store, ok, err, ◌≡◌,
  refl,
}
use spexmachina.Plan.Types.{Op, Changeset}
use spexmachina.Ingest.Receipts.{
  OpReceipt, Receipts, not_in_changeset, pair_receipts, pair_receipts-ok, receipt_ids, op_ids,
}

abbrev create : String → Op
create op_id = record {
  op_id = op_id;
  type = "create";
  spec_node_kind = "component";
  spec_node_id = "n";
  spec_hash = "h";
  idempotency = none;
  parent = none;
  deps = [];
  priority = 3;
  title = "";
  body = "";
  target = none;
  labels = [];
  reason = "";
}

abbrev changeset : Changeset
changeset = record {
  version = 4;
  git_head = "a1";
  proposal = "p";
  ops = create "op-1" ∷ create "op-2" ∷ [];
  absorbed = [];
}

abbrev receipt : String → OpReceipt
receipt op_id = record {
  op_id = op_id;
  status = "ok";
  task_id = "t";
  was_existing = false;
  reason = "";
  error = "";
}

abbrev receipts : List OpReceipt → Receipts
receipts ops = record { version = 1; status = "complete"; ops = ops }

pair_receipts-both :
    pair_receipts changeset (receipts (receipt "op-2" ∷ receipt "op-1" ∷ []))
    ≡ ok (("op-2", receipt "op-2") ∷ ("op-1", receipt "op-1") ∷ [])
unfolding pair_receipts contains fetch store
pair_receipts-both = refl

pair_receipts-extra :
    pair_receipts changeset (receipts (receipt "op-2" ∷ receipt "op-1" ∷ receipt "op-3" ∷ []))
    ≡ err (not_in_changeset "op-3")
unfolding pair_receipts contains fetch store
pair_receipts-extra = refl

pair_receipts-ok_example :
    count "op-1" (receipt_ids (receipt "op-2" ∷ receipt "op-1" ∷ []))
    ≡ (if contains (op_ids (create "op-1" ∷ create "op-2" ∷ [])) "op-1" then 1 else 0)
pair_receipts-ok_example =
    pair_receipts-ok changeset (receipts (receipt "op-2" ∷ receipt "op-1" ∷ []))
      (("op-2", receipt "op-2") ∷ ("op-1", receipt "op-1") ∷ []) "op-1" pair_receipts-both
