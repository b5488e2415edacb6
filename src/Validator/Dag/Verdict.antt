-- ===== src/Validator/Dag/Verdict.antt =====
-- What CheckDAG reports nothing for.
use spexmachina.Prelude.{String, true, List, [], ◌∷◌, some, if◌then◌else◌, fetch, All, ◌≡◌, ◌↔◌}
use spexmachina.Schema.Spec.{ModuleSpec}
use spexmachina.Schema.Profile.{Profile, Edge, NodeType}
use spexmachina.Validator.Dag.Check.{
  ValidationError, module_graph, requirement_graph, component_graph, check_module_dag,
  check_requirement_dag, check_component_dag, edge_active,
}
use spexmachina.Validator.Dag.Extra.{
  RawDoc, SpecFiles, generic_graph, find_node_type, extra_cycle_edges, module_path_by_name,
  check_from_types, check_edges, check_extra_module_dag_edges, check_extra_project_dag_edges,
}
use spexmachina.Validator.Dag.Whole.{check_modules, mod_names, check_dag}
use spexmachina.Validator.Dag.Decide.{
  IsAcyclic, Decides, append_found-Decides, if-Decides, option-Decides, only-Decides, regrouped,
  nothing-Decides, check_graph-Decides, check_entries-Decides,
}

-- The entries of each declared from-type have no cycle of the edge's kind.
abbrev pub FromTypesAreAcyclic : List NodeType → String → RawDoc → Edge → List String → Type 0
FromTypesAreAcyclic types scope doc edge = All (λ name.
    (nt : NodeType)
    → find_node_type types scope name ≡ some nt
    → IsAcyclic (generic_graph (doc nt.plural_key) edge.kind))

abbrev pub EdgesAreAcyclic : List NodeType → String → RawDoc → List Edge → Type 0
EdgesAreAcyclic types scope doc =
    All (λ (e : Edge). FromTypesAreAcyclic types scope doc e e.from_types)

module _ (types : List NodeType) (scope : String) (doc : RawDoc) (prefix : String) where
  check_from_types-Decides :
      (edge : Edge) (names : List String)
      → Decides
          (check_from_types types scope doc prefix edge names)
          (FromTypesAreAcyclic types scope doc edge names)
  unfolding check_from_types
  check_from_types-Decides edge [] = nothing-Decides
  check_from_types-Decides edge (name ∷ names) =
      let rest = check_from_types-Decides edge names in
      option-Decides (find_node_type types scope name) _ _ rest (λ nt.
        append_found-Decides _ _ (check_entries-Decides (doc nt.plural_key) edge.kind _) rest)

  check_edges-Decides :
      (edges : List Edge)
      → Decides (check_edges types scope doc prefix edges) (EdgesAreAcyclic types scope doc edges)
  unfolding check_edges
  check_edges-Decides [] = nothing-Decides
  check_edges-Decides (e ∷ edges) =
      append_found-Decides _ _ (check_from_types-Decides e e.from_types) (check_edges-Decides edges)

module _ (files : SpecFiles) (profile : Profile) where
  -- The requirements and the components of the module with this name.
  abbrev pub ModuleIsAcyclic : String → Type 0
  ModuleIsAcyclic name =
      (spec : ModuleSpec)
      → fetch files.modules name ≡ some spec
      → (edge_active profile "depends_on" "requirement" ≡ true → IsAcyclic (requirement_graph spec))
        × (edge_active profile "uses" "component" ≡ true → IsAcyclic (component_graph spec))

  -- Its raw entries.
  abbrev pub ModuleEntriesAreAcyclic : String → Type 0
  ModuleEntriesAreAcyclic name =
      (spec : ModuleSpec)
      → fetch files.modules name ≡ some spec
      → (doc : RawDoc)
      → files.module_doc (module_path_by_name files.project.modules name) ≡ some doc
      → EdgesAreAcyclic profile.node_types "module" doc (extra_cycle_edges profile.edges "module")

  abbrev pub ProjectEntriesAreAcyclic : Type 0
  ProjectEntriesAreAcyclic =
      (doc : RawDoc)
      → files.project_doc ≡ some doc
      → EdgesAreAcyclic profile.node_types "project" doc (extra_cycle_edges profile.edges "project")

  check_modules-Decides :
      (names : List String)
      → Decides (check_modules files profile names) (All ModuleIsAcyclic names)
  unfolding check_modules check_requirement_dag check_component_dag
  check_modules-Decides [] = nothing-Decides
  check_modules-Decides (name ∷ names) =
      let rest = check_modules-Decides names in
      option-Decides (fetch files.modules name) _ _ rest (λ spec. regrouped _ (
        append_found-Decides _ _
          (if-Decides (edge_active profile "depends_on" "requirement")
            (check_requirement_dag name spec) (check_graph-Decides (requirement_graph spec) _ _ _))
          (append_found-Decides _ _
            (if-Decides (edge_active profile "uses" "component") (check_component_dag name spec)
              (check_graph-Decides (component_graph spec) _ _ _))
            rest)))

  check_extra_modules-Decides :
      (names : List String)
      → Decides
          (check_extra_module_dag_edges files profile names)
          (All ModuleEntriesAreAcyclic names)
  unfolding check_extra_module_dag_edges
  check_extra_modules-Decides [] = nothing-Decides
  check_extra_modules-Decides (name ∷ names) =
      let rest = check_extra_modules-Decides names in
      option-Decides (fetch files.modules name) _ _ rest (λ spec.
        option-Decides (files.module_doc (module_path_by_name files.project.modules name)) _ _ rest
          (λ doc.
            append_found-Decides _ _
              (check_edges-Decides profile.node_types "module" doc _
                (extra_cycle_edges profile.edges "module"))
              rest))

  -- Every graph that CheckDAG is to check.
  abbrev pub SpecIsAcyclic : Type 0
  SpecIsAcyclic =
      IsAcyclic (module_graph files.project)
      × (All ModuleIsAcyclic (mod_names files)
          × (All ModuleEntriesAreAcyclic (mod_names files) × ProjectEntriesAreAcyclic))

  module_part :
      Decides
        (if edge_active profile "requires_module" "module"
          then check_module_dag files.project
          else some [])
        (IsAcyclic (module_graph files.project))
  unfolding edge_active check_module_dag
  module_part = check_graph-Decides (module_graph files.project) _ _ _

  project_part : Decides (check_extra_project_dag_edges files profile) ProjectEntriesAreAcyclic
  unfolding check_extra_project_dag_edges
  project_part = only-Decides files.project_doc _ (λ doc.
      check_edges-Decides profile.node_types "project" doc "project.json:/"
        (extra_cycle_edges profile.edges "project"))

-- CheckDAG ends on every spec and profile, and it reports no error exactly if these graphs are acyclic:
-- the modules by requires_module; in each module the requirements by depends_on and the components by
-- uses, each if the profile has that edge active; and the raw entries of each declared from-type of the
-- extra edges of the profile, in each module and in the project, by the edge's kind.
pub check_dag-acyclic :
    (files : SpecFiles) (profile : Profile)
    → (errs : List ValidationError) × (check_dag files profile ≡ some errs)
      × ((errs ≡ []) ↔ SpecIsAcyclic files profile)
unfolding check_dag
check_dag-acyclic files profile = append_found-Decides _ _ (module_part files profile) (
    append_found-Decides _ _ (check_modules-Decides files profile (mod_names files)) (
      append_found-Decides _ _ (check_extra_modules-Decides files profile (mod_names files))
        (project_part files profile)))
