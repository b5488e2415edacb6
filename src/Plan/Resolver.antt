-- ===== src/Plan/Resolver.antt =====
-- plan/resolver.go. A fold is its Lookup, and a batch the map from a create's spec node to its op.
pub mod Refs
pub mod Priority
mod Samples
use spexmachina.Prelude.{
  String, ℕ, Bool, ◌||◌, List, [], ◌∷◌, Option, none, some, ◌==◌, if◌then◌else◌, fetch, ltb, ◌⊕◌,
  Result, ok, err,
}
use spexmachina.Schema.Spec.{ModuleRequirement, Requirement, Component, ModuleSpec}
use spexmachina.Plan.Types.{Ref, task, op, Action, action_create, kind_proposal_epic}
use spexmachina.Plan.Labeler.{Registration}
use spexmachina.Plan.Matcher.{Pairing}
use spexmachina.Plan.Graph.{
  SpecGraph, ModuleEntry, module_by_name, find_component, find_module_requirement,
  project_requirement,
}

abbrev pub Fold : Type 0
Fold = String → Option Pairing

abbrev pub Batch : Type 0
Batch = List (String × String)

pub data ResolveError : Type 0 where
  untracked : (dep : String) → ResolveError
  not_registered : (proposal : String) → ResolveError
  epic_missing : (proposal : String) → ResolveError

unfoldable pub is_live_bead_status : String → Bool
is_live_bead_status status = (status == "open") || (status == "in_progress")

-- What one dep is resolved to; none for a dep that is dropped.
unfoldable pub resolve_dep : String → Batch → Fold → Result ResolveError (Option Ref)
unfolding is_live_bead_status
resolve_dep dep batch fold = elim (fetch batch dep) [
  | some op_id ↦ ok (some (op op_id))
  | none ↦ elim (fold dep) [
    | some p ↦ if is_live_bead_status p.bead_status then ok (some (task p.task_id)) else ok none
    | none ↦ err (untracked dep)
  ]
]

abbrev pub cons_ref : Option Ref → List Ref → List Ref
cons_ref none refs = refs
cons_ref (some ref) refs = ref ∷ refs

unfoldable pub resolve_deps : List String → Batch → Fold → Result ResolveError (List Ref)
unfolding resolve_dep
resolve_deps [] batch fold = ok []
resolve_deps (dep ∷ deps) batch fold =
    let rest = resolve_deps deps batch fold in
    elim (resolve_dep dep batch fold) [
      | err e ↦ err e
      | ok ref ↦ elim rest [ err e ↦ err e | ok refs ↦ ok (cons_ref ref refs) ]
    ]

abbrev pub epic_action : String → Action
epic_action proposal = record {
  type = action_create;
  task_id = "";
  module_name = "";
  node = "";
  node_type = kind_proposal_epic;
  spec_node_id = proposal;
  spec_hash = "";
  dep_spec_node_ids = [];
  change_type = "";
  reason = "Proposal: " ⊕ proposal;
}

unfoldable pub resolve_epic_action :
    String → Fold → Registration → Result ResolveError (Option Action)
resolve_epic_action proposal fold registration = elim (fold proposal) [
  | some p ↦ ok none
  | none ↦
      if registration.eid == ""
      then err (not_registered proposal)
      else ok (some (epic_action proposal))
]

unfoldable pub resolve_parent : String → Fold → Registration → Batch → Result ResolveError Ref
resolve_parent proposal fold registration batch = elim (fold proposal) [
  | some p ↦ ok (task p.task_id)
  | none ↦
      if registration.eid == ""
      then err (not_registered proposal)
      else elim (fetch batch proposal) [
        | none ↦ err (epic_missing proposal)
        | some op_id ↦ ok (op op_id)
      ]
]

abbrev pub fallback_priority : ℕ
fallback_priority = 3

-- `best`, with none for -1; a priority is between 0 and 4.
abbrev pub lower : Option ℕ → ℕ → Option ℕ
lower none p = some p
lower (some best) p = if ltb p best then some p else some best

-- The priority that one entry of `implements` leads to.
unfoldable pub priority_of : ModuleSpec → SpecGraph → String → Option ℕ
priority_of spec graph req_id = elim (find_module_requirement spec req_id) [
  | none ↦ none
  | some mod_req ↦
      if mod_req.preq_id == "" then none else elim (project_requirement graph mod_req.preq_id) [
        | none ↦ none
        | some proj_req ↦ proj_req.priority
      ]
]

unfoldable pub best_priority : Option ℕ → List String → ModuleSpec → SpecGraph → Option ℕ
unfolding priority_of
best_priority best [] spec graph = best
best_priority best (req_id ∷ implements) spec graph =
    best_priority (elim (priority_of spec graph req_id) [ none ↦ best | some p ↦ lower best p ])
      implements spec graph

abbrev pub or_fallback : Option ℕ → ℕ
or_fallback none = fallback_priority
or_fallback (some best) = best

unfoldable pub resolve_priority : String → String → SpecGraph → ℕ
unfolding best_priority
resolve_priority module_name spec_node_id graph = elim (module_by_name graph module_name) [
  | none ↦ fallback_priority
  | some entry ↦ elim (find_component entry.spec spec_node_id) [
    | none ↦ fallback_priority
    | some comp ↦ or_fallback (best_priority none comp.implements entry.spec graph)
  ]
]
