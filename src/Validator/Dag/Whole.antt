-- ===== src/Validator/Dag/Whole.antt =====
-- CheckDAG of validator/dag_checker.go, on the decoded files.
use spexmachina.Prelude.{String, List, [], ◌∷◌, map, none, some, if◌then◌else◌, fetch, sort_strings}
use spexmachina.Schema.Spec.{ModuleSpec}
use spexmachina.Schema.Profile.{Profile}
use spexmachina.Validator.Dag.Check.{
  Found, append_found, check_module_dag, check_requirement_dag, check_component_dag, edge_active,
}
use spexmachina.Validator.Dag.Extra.{
  SpecFiles, check_extra_module_dag_edges, check_extra_project_dag_edges,
}

-- The loop over the sorted module names.
unfoldable pub check_modules : SpecFiles → Profile → List String → Found
unfolding edge_active check_requirement_dag check_component_dag
check_modules files profile [] = some []
check_modules files profile (name ∷ names) =
    let rest = check_modules files profile names in
    elim (fetch files.modules name) [
      | none ↦ rest
      | some spec ↦
          append_found
            (if edge_active profile "depends_on" "requirement"
              then check_requirement_dag name spec
              else some [])
            (append_found
              (if edge_active profile "uses" "component"
                then check_component_dag name spec
                else some [])
              rest)
    ]

abbrev pub mod_names : SpecFiles → List String
mod_names files = sort_strings (map (λ (e : String × ModuleSpec). e.0) files.modules)

unfoldable pub check_dag : SpecFiles → Profile → Found
unfolding edge_active check_module_dag check_modules check_extra_module_dag_edges
    check_extra_project_dag_edges sort_strings
check_dag files profile =
    append_found
      (if edge_active profile "requires_module" "module"
        then check_module_dag files.project
        else some [])
      (append_found (check_modules files profile (mod_names files)) (
        append_found (check_extra_module_dag_edges files profile (mod_names files))
          (check_extra_project_dag_edges files profile)))
