-- ===== src/Plan/Labeler.antt =====
-- plan/labeler.go: the idempotency label of a create or retarget op.
use spexmachina.Prelude.{
  String, Bool, ◌&&◌, not, Option, none, some, ◌==◌, if◌then◌else◌, ◌⊕◌, has_prefix, Result, ok,
  err,
}
use spexmachina.Plan.Types.{Action, kind_proposal_epic, derive_eid}

abbrev pub idempotency_label_prefix : String
idempotency_label_prefix = "spex:"

-- The run's registration; an empty `eid` means that the journal holds none.
pub record Registration : Type 0 where
  pub eid : String

pub record RemovalEntry : Type 0 where
  pub removed : Bool
  pub eid : String

pub data LabelError : Type 0 where
  unregistered : (proposal : String) → LabelError
  no_spec_node_id : LabelError

-- `fold` is none for a nil Fold, and answers `Removal(specNodeID)`.
pub record Labeler : Type 0 where
  pub git_head : String
  pub fold : Option (String → Option RemovalEntry)

unfoldable pub is_cleanup : Action → Bool
is_cleanup a = has_prefix a.reason "Code cleanup:"

abbrev pub removal : Labeler → String → Option RemovalEntry
removal l id = elim l.fold [ none ↦ none | some look ↦ look id ]

unfoldable pub cleanup_label : Labeler → Action → String → String
cleanup_label l action op_id =
    let minted = idempotency_label_prefix ⊕ derive_eid l.git_head op_id in
    elim (removal l action.spec_node_id) [
      | some entry ↦
          if entry.removed && not (entry.eid == "")
          then idempotency_label_prefix ⊕ entry.eid
          else minted
      | none ↦ minted
    ]

unfoldable pub label_for : Labeler → Action → String → Registration → Result LabelError String
unfolding is_cleanup cleanup_label
label_for l action op_id reg =
    if action.node_type == kind_proposal_epic
    then (if reg.eid == ""
        then err (unregistered action.spec_node_id)
        else ok (idempotency_label_prefix ⊕ reg.eid))
    else if action.spec_node_id == ""
    then err no_spec_node_id
    else if is_cleanup action
    then ok (cleanup_label l action op_id)
    else ok (idempotency_label_prefix ⊕ derive_eid l.git_head op_id)
