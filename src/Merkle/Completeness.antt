-- ===== src/Merkle/Completeness.antt =====
-- CheckCompleteness of merkle/completeness_checker.go. The project and the specs of the modules are
-- arguments, none for a file that cannot be read. Where Go ranges over the set of meta modules, the model
-- takes the order in which they first occur.
pub mod Rules
pub mod Clear
pub mod Verdict
pub mod Complete
mod Samples
use spexmachina.Prelude.{
  String, Bool, true, false, not, ◌&&◌, ◌||◌, List, [], ◌∷◌, ◌++◌, map, Option, none, some, ◌==◌,
  ◌⊕◌, if◌then◌else◌, keep, contains, fetch, store,
}
use spexmachina.Schema.Spec.{Module, Project, Requirement, ModuleRequirement, Component, ModuleSpec}
use spexmachina.Schema.Profile.{NodeType, Profile, append_new}
use spexmachina.Merkle.Diff.{Change, ChangeType, added, modified, removed}
use spexmachina.Merkle.Impact.{ClassifiedChange}

pub record DiffError : Type 0 where
  pub type : String
  pub message : String
  pub path : String
  pub related : List String

abbrev pub incomplete : String → String → List String → DiffError
incomplete message path related = record {
  type = "incomplete_change";
  message = message;
  path = path;
  related = related;
}

abbrev pub implements_req : Component → String → Bool
implements_req comp = contains comp.implements

unfoldable pub find_implementors : List Component → String → List Component
unfolding contains
find_implementors [] req_hash = []
find_implementors (comp ∷ comps) req_hash =
    let rest = find_implementors comps req_hash in
    if implements_req comp req_hash then comp ∷ rest else rest

unfoldable pub find_requirement_title : List ModuleRequirement → String → String
find_requirement_title [] req_hash = req_hash
find_requirement_title (r ∷ reqs) req_hash =
    if r.id == req_hash then r.title else find_requirement_title reqs req_hash

unfoldable pub requirement_label : String → String → String
requirement_label title hash = if title == "" then hash else "'" ⊕ (title ⊕ "'")

-- The loops that report each component that has not changed.
unfoldable pub unchanged_errors :
    (Component → DiffError) → (String → Bool) → List Component → List DiffError
unchanged_errors error changed [] = []
unchanged_errors error changed (comp ∷ comps) =
    let rest = unchanged_errors error changed comps in
    if changed comp.id then rest else error comp ∷ rest

-- The label of a requirement with the module's name.
abbrev pub labelled_requirement : ModuleSpec → String → String
labelled_requirement spec req_hash =
    "requirement "
    ⊕ (requirement_label (find_requirement_title spec.requirements req_hash) req_hash
        ⊕ (" (" ⊕ (spec.name ⊕ ")")))

unfoldable pub check_modified_requirement : String → ModuleSpec → (String → Bool) → List DiffError
unfolding find_implementors find_requirement_title requirement_label unchanged_errors
check_modified_requirement req_hash spec changed =
    unchanged_errors
      (λ comp.
        incomplete
          (labelled_requirement spec req_hash
            ⊕ (" description changed but component " ⊕ (comp.name ⊕ " content leaf unchanged")))
          req_hash (comp.id ∷ []))
      changed (find_implementors spec.components req_hash)

unfoldable pub check_added_requirement : String → ModuleSpec → (String → Bool) → List DiffError
unfolding find_implementors find_requirement_title requirement_label unchanged_errors
check_added_requirement req_hash spec changed = elim (find_implementors spec.components req_hash) [
  | [] ↦
      incomplete
        (labelled_requirement spec req_hash ⊕ " added but not implemented by any component")
        req_hash []
      ∷ []
  | comp ∷ comps ↦
      unchanged_errors
        (λ c.
          incomplete
            (labelled_requirement spec req_hash
              ⊕ (" added but component " ⊕ (c.name ⊕ " content leaf unchanged")))
            req_hash (c.id ∷ []))
        changed (comp ∷ comps)
]

unfoldable pub check_removed_requirement : String → ModuleSpec → List DiffError
unfolding find_implementors
check_removed_requirement req_hash spec =
    map
      (λ comp.
        incomplete
          ("component "
            ⊕ (comp.name
                ⊕ (" still implements removed requirement "
                    ⊕ (req_hash ⊕ (" (" ⊕ (spec.name ⊕ ")"))))))
          req_hash (comp.id ∷ []))
      (find_implementors spec.components req_hash)

abbrev pub LoadModule : Type 0
LoadModule = String → Option ModuleSpec

-- derivedRequirement: the requirement's hash and its module.
abbrev pub Derived : Type 0
Derived = String × ModuleSpec

unfoldable pub derived_in : String → ModuleSpec → List ModuleRequirement → List Derived
derived_in proj_req spec [] = []
derived_in proj_req spec (req ∷ reqs) =
    let rest = derived_in proj_req spec reqs in
    if req.preq_id == proj_req then (req.id, spec) ∷ rest else rest

unfoldable pub find_derived : String → List Module → LoadModule → List Derived
unfolding derived_in
find_derived proj_req [] load_module = []
find_derived proj_req (m ∷ modules) load_module =
    let rest = find_derived proj_req modules load_module in
    elim (load_module m.id) [
      | none ↦ rest
      | some spec ↦ derived_in proj_req spec spec.requirements ++ rest
    ]

-- The loop of checkProjectRequirementModifiedOrAdded.
unfoldable pub unchanged_derived : String → String → (String → Bool) → List Derived → List DiffError
unfolding find_implementors unchanged_errors
unchanged_derived proj_req label changed [] = []
unchanged_derived proj_req label changed (d ∷ derived) =
    unchanged_errors
      (λ comp.
        incomplete
          ("project requirement "
            ⊕ (label
                ⊕ (" changed but component "
                    ⊕ (comp.name ⊕ (" (" ⊕ (d.1.name ⊕ ") content leaf unchanged"))))))
          proj_req (comp.id ∷ []))
      changed (find_implementors d.1.components d.0)
    ++ unchanged_derived proj_req label changed derived

unfoldable pub check_project_requirement_kept :
    String → String → List Module → LoadModule → (String → Bool) → List DiffError
unfolding find_derived unchanged_derived requirement_label
check_project_requirement_kept proj_req title modules load_module changed =
    let label = requirement_label title proj_req in
    elim (find_derived proj_req modules load_module) [
      | [] ↦
          incomplete ("no module requirement derives from project requirement " ⊕ label) proj_req []
          ∷ []
      | d ∷ derived ↦ unchanged_derived proj_req label changed (d ∷ derived)
    ]

unfoldable pub check_project_requirement_removed :
    String → String → List Module → LoadModule → List DiffError
unfolding find_derived requirement_label
check_project_requirement_removed proj_req title modules load_module =
    map
      (λ (d : Derived).
        incomplete
          ("module requirement "
            ⊕ (d.0
                ⊕ (" ("
                    ⊕ (d.1.name
                        ⊕ (") still derives from removed project requirement "
                            ⊕ requirement_label title proj_req)))))
          proj_req (d.0 ∷ []))
      (find_derived proj_req modules load_module)
