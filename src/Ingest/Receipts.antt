-- ===== src/Ingest/Receipts.antt =====
-- pairReceipts of ingest/reconciler.go, with the receipts of adapters/types.go and the changeset of
-- plan/types.go.
mod Samples
use spexmachina.Prelude.{
  String, ℕ, ◌+◌, Bool, true, false, List, [], ◌∷◌, Option, none, some, map, ◌==◌, eq_iff,
  if◌then◌else◌, contains, count, fetch, store, fetch-store, Result, ok, err, Result-cases,
  Option-cases, Bool-cases, inl, inr, arith, ◌≡◌, refl,
}
use spexmachina.Plan.Types.{Op, Changeset}

pub record OpReceipt : Type 0 where
  pub op_id : String
  pub status : String
  pub task_id : String
  pub was_existing : Bool
  pub reason : String
  pub error : String

pub record Receipts : Type 0 where
  pub version : ℕ
  pub status : String
  pub ops : List OpReceipt

pub data ReceiptError : Type 0 where
  duplicate_receipt : (op_id : String) → ReceiptError
  no_receipt : (op_id : String) → ReceiptError
  not_in_changeset : (op_id : String) → ReceiptError

abbrev pub ByOp : Type 0
ByOp = List (String × OpReceipt)

-- The first loop.
unfoldable pub index_receipts : List OpReceipt → ByOp → Result ReceiptError ByOp
index_receipts [] by_op = ok by_op
index_receipts (r ∷ receipts) by_op =
    let rest = index_receipts receipts (store by_op r.op_id r) in
    elim (fetch by_op r.op_id) [ some dup ↦ err (duplicate_receipt r.op_id) | none ↦ rest ]

-- The second loop: the first op without a receipt.
unfoldable pub first_missing : List Op → ByOp → Option String
first_missing [] by_op = none
first_missing (op ∷ ops) by_op =
    let rest = first_missing ops by_op in
    elim (fetch by_op op.op_id) [ none ↦ some op.op_id | some r ↦ rest ]

abbrev pub op_ids : List Op → List String
op_ids = map (λ (op : Op). op.op_id)

-- The third loop: the first receipt of an op that was not seen.
unfoldable pub first_extra : ByOp → List String → Option String
unfolding contains
first_extra [] seen = none
first_extra (entry ∷ by_op) seen =
    let rest = first_extra by_op seen in if contains seen entry.0 then rest else some entry.0

unfoldable pub pair_receipts : Changeset → Receipts → Result ReceiptError ByOp
unfolding index_receipts first_missing first_extra
pair_receipts cs rc = elim (index_receipts rc.ops []) [
  | err e ↦ err e
  | ok by_op ↦ elim (first_missing cs.ops by_op) [
    | some op_id ↦ err (no_receipt op_id)
    | none ↦ elim (first_extra by_op (op_ids cs.ops)) [
      | some op_id ↦ err (not_in_changeset op_id)
      | none ↦ ok by_op
    ]
  ]
]

abbrev pub receipt_ids : List OpReceipt → List String
receipt_ids = map (λ (r : OpReceipt). r.op_id)

held : Option OpReceipt → ℕ
held none = 0
held (some r) = 1

index_receipts-held :
    (receipts : List OpReceipt) (acc by_op : ByOp) (x : String)
    → index_receipts receipts acc ≡ ok by_op
    → count x (receipt_ids receipts) + held (fetch acc x) ≡ held (fetch by_op x)
unfolding index_receipts held count
index_receipts-held [] acc by_op x = λ h. ground (arith, h)
index_receipts-held (r ∷ receipts) acc by_op x = elim (Option-cases (fetch acc r.op_id)) [
  | inr (dup, e) ↦ rw (e, index_receipts) (λ h. cc h)
  | inl e ↦
      rw (e, index_receipts)
        (λ h. ground (
          arith,
          index_receipts-held receipts (store acc r.op_id r) by_op x h,
          fetch-store acc r.op_id r x,
          eq_iff r.op_id x,
          e,
        ))
]

first_missing-held :
    (ops : List Op) (by_op : ByOp) (x : String)
    → first_missing ops by_op ≡ none
    → contains (op_ids ops) x ≡ true
    → held (fetch by_op x) ≡ 1
unfolding first_missing held contains
first_missing-held [] by_op x h k = cc k
first_missing-held (op ∷ ops) by_op x h k =
    ground (arith, h, k, first_missing-held ops by_op x, eq_iff op.op_id x)

first_extra-held :
    (by_op : ByOp) (seen : List String) (x : String)
    → first_extra by_op seen ≡ none
    → contains seen x ≡ false
    → held (fetch by_op x) ≡ 0
unfolding first_extra held fetch
first_extra-held [] seen x h k = refl
first_extra-held (entry ∷ by_op) seen x h k =
    ground (arith, h, k, first_extra-held by_op seen x, eq_iff entry.0 x)

once_if_contained :
    (cs : Changeset) (receipts : List OpReceipt) (by_op : ByOp) (x : String)
    → index_receipts receipts [] ≡ ok by_op
    → first_missing cs.ops by_op ≡ none
    → first_extra by_op (op_ids cs.ops) ≡ none
    → count x (receipt_ids receipts) ≡ (if contains (op_ids cs.ops) x then 1 else 0)
unfolding held fetch
once_if_contained cs receipts by_op x h k l = ground (
  arith,
  index_receipts-held receipts [] by_op x h,
  first_missing-held cs.ops by_op x k,
  first_extra-held by_op (op_ids cs.ops) x l,
)

-- If pairReceipts accepts, every op id of the changeset has exactly one receipt, and no other op id has
-- one.
pub pair_receipts-ok :
    (cs : Changeset) (rc : Receipts) (by_op : ByOp) (x : String)
    → pair_receipts cs rc ≡ ok by_op
    → count x (receipt_ids rc.ops) ≡ (if contains (op_ids cs.ops) x then 1 else 0)
unfolding pair_receipts
pair_receipts-ok cs rc by_op x = elim (Result-cases (index_receipts rc.ops [])) [
  | inl (e, f) ↦ rw (f, pair_receipts) (λ h. cc h)
  | inr (by, f) ↦ elim (Option-cases (first_missing cs.ops by)) [
    | inr (a, g) ↦ rw (f, g, pair_receipts) (λ h. cc h)
    | inl g ↦ elim (Option-cases (first_extra by (op_ids cs.ops))) [
      | inr (a, k) ↦ rw (f, g, k, pair_receipts) (λ h. cc h)
      | inl k ↦ λ h. once_if_contained cs rc.ops by x f g k
    ]
  ]
]
