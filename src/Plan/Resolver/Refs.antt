-- ===== src/Plan/Resolver/Refs.antt =====
-- The refs of deps, and the parent that an epic's action promises.
use spexmachina.Prelude.{
  String, Bool, true, false, List, [], ◌∷◌, ◌++◌, Option, none, some, ◌==◌, if◌then◌else◌, fetch,
  Result, ok, err, arith, ◌≡◌, refl, inl, inr, Bool-cases, Option-cases,
}
use spexmachina.Plan.Labeler.{Registration}
use spexmachina.Plan.Matcher.{Pairing}
use spexmachina.Plan.Types.{Action}
use spexmachina.Plan.Resolver.{
  Fold, Batch, ResolveError, untracked, is_live_bead_status, resolve_dep, resolve_deps,
  resolve_epic_action, resolve_parent,
}
use spexmachina.Plan.Types.{Ref, task, op}

-- Whether the batch or the fold knows the dep.
abbrev pub known : Batch → Fold → String → Bool
known batch fold dep = elim (fetch batch dep) [
  | some op_id ↦ true
  | none ↦ elim (fold dep) [ some p ↦ true | none ↦ false ]
]

-- The refs of a known dep: the op of this run, else the live task; a dep whose task is no longer live
-- has none.
abbrev pub refs_of : Batch → Fold → String → List Ref
refs_of batch fold dep = elim (fetch batch dep) [
  | some op_id ↦ op op_id ∷ []
  | none ↦ elim (fold dep) [
    | some p ↦ if is_live_bead_status p.bead_status then task p.task_id ∷ [] else []
    | none ↦ []
  ]
]

unfoldable pub all_refs : Batch → Fold → List String → List Ref
all_refs batch fold [] = []
all_refs batch fold (dep ∷ deps) = refs_of batch fold dep ++ all_refs batch fold deps

unfoldable pub first_unknown : Batch → Fold → List String → Option String
first_unknown batch fold [] = none
first_unknown batch fold (dep ∷ deps) =
    let rest = first_unknown batch fold deps in if known batch fold dep then rest else some dep

abbrev pub answer : Option String → List Ref → Result ResolveError (List Ref)
answer none refs = ok refs
answer (some dep) refs = err (untracked dep)

-- ResolveDeps fails on the first dep that neither the batch nor the fold knows, and names it; without
-- such a dep it gives, in the order of the deps, the op of each dep that is created in this run and the
-- task of each other dep whose pairing is live.
pub resolve_deps-eq :
    (deps : List String) (batch : Batch) (fold : Fold)
    → resolve_deps deps batch fold
      ≡ answer (first_unknown batch fold deps) (all_refs batch fold deps)
unfolding resolve_deps resolve_dep first_unknown all_refs
resolve_deps-eq [] batch fold = refl
resolve_deps-eq (dep ∷ deps) batch fold = ground (arith, resolve_deps-eq deps batch fold)

-- What the parent must be, by the outcome of ResolveEpicAction.
abbrev pub ParentAgrees :
    String → Batch → Fold → Result ResolveError (Option Action) → Result ResolveError Ref → Type 0
ParentAgrees proposal batch fold (err e) parent = parent ≡ err e
ParentAgrees proposal batch fold (ok none) parent =
    (p : Pairing) × (fold proposal ≡ some p) × (parent ≡ ok (task p.task_id))
ParentAgrees proposal batch fold (ok (some a)) parent =
    (a.spec_node_id ≡ proposal)
    × ((op_id : String) → fetch batch proposal ≡ some op_id → parent ≡ ok (op op_id))

-- ResolveParent follows ResolveEpicAction: if that fails, the parent fails in the same way; if it asks
-- for no action, the parent is the task that the fold pairs with the proposal; if it asks for a
-- create, the create's node is the proposal, and the parent is the proposal's op in the batch, if the
-- batch has one.
pub resolve_parent-ParentAgrees :
    (proposal : String) (fold : Fold) (reg : Registration) (batch : Batch)
    → ParentAgrees proposal batch fold
        (resolve_epic_action proposal fold reg)
        (resolve_parent proposal fold reg batch)
unfolding resolve_epic_action resolve_parent
resolve_parent-ParentAgrees proposal fold reg batch = elim (Option-cases (fold proposal)) [
  | inr (p, e) ↦ rw (e, resolve_epic_action, resolve_parent) (p, e, refl)
  | inl e ↦ elim (Bool-cases (reg.eid == "")) [
    | inl none_yet ↦ rw (e, none_yet, resolve_epic_action, resolve_parent) refl
    | inr registered ↦
        rw (e, registered, resolve_epic_action, resolve_parent) (refl, λ op_id h. rw h refl)
  ]
]
