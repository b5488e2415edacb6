-- ===== src/Plan/Types.antt =====
-- The vocabulary and the action record of plan/types.go.
use spexmachina.Prelude.{String, ℕ, Option, List, ◌⊕◌}

abbrev pub kind_proposal_epic : String
kind_proposal_epic = "proposal_epic"

abbrev pub kind_cleanup : String
kind_cleanup = "cleanup"

abbrev pub action_create : String
action_create = "create"

abbrev pub action_obsolete : String
action_obsolete = "obsolete"

abbrev pub action_retarget : String
action_retarget = "retarget"

abbrev pub op_create : String
op_create = "create"

abbrev pub op_close : String
op_close = "close"

abbrev pub op_retarget : String
op_retarget = "retarget"

-- Go's `Type` and `Module` fields are `type` and `module_name`.
pub record Action : Type 0 where
  pub type : String
  pub task_id : String
  pub module_name : String
  pub node : String
  pub node_type : String
  pub spec_node_id : String
  pub spec_hash : String
  pub dep_spec_node_ids : List String
  pub change_type : String
  pub reason : String

-- DeriveEID
abbrev pub derive_eid : String → String → String
derive_eid git_head op_id = git_head ⊕ (":" ⊕ op_id)

-- Ref: the task of an earlier run, or an op of this one.
pub data Ref : Type 0 where
  task : (task_id : String) → Ref
  op : (op_id : String) → Ref

pub record Idem : Type 0 where
  pub label : String

-- Go's `Type` is `type`; nil pointers are none.
pub record Op : Type 0 where
  pub op_id : String
  pub type : String
  pub spec_node_kind : String
  pub spec_node_id : String
  pub spec_hash : String
  pub idempotency : Option Idem
  pub parent : Option Ref
  pub deps : List Ref
  pub priority : ℕ
  pub title : String
  pub body : String
  pub target : Option Ref
  pub labels : List String
  pub reason : String

pub record AbsorbedEntry : Type 0 where
  pub node : String
  pub before : String
  pub after : String
  pub reason : String

pub record Changeset : Type 0 where
  pub version : ℕ
  pub git_head : String
  pub proposal : String
  pub ops : List Op
  pub absorbed : List AbsorbedEntry
