-- ===== src/Validator/Dag/Check.antt =====
-- checkModuleDAG, checkRequirementDAG and checkComponentDAG: the three graphs of the parsed spec, and the
-- errors that their cycles are reported as.
use spexmachina.Prelude.{
  String, Bool, true, false, not, ◌&&◌, List, [], ◌∷◌, ◌++◌, map, Option, none, some, ◌==◌, ◌⊕◌,
  if◌then◌else◌, contains, fetch, store,
}
use spexmachina.Schema.Spec.{Module, Project, ModuleRequirement, Component, ModuleSpec}
use spexmachina.Schema.Profile.{Edge, cyclic_for_type, Profile}
use spexmachina.Validator.Dag.{Adjacency, detect_string_cycles}

pub record ValidationError : Type 0 where
  pub check : String
  pub severity : String
  pub path : String
  pub message : String
  pub schema_path : String

abbrev pub Labels : Type 0
Labels = List (String × String)

-- None where the search ran out of fuel.
abbrev pub Found : Type 0
Found = Option (List ValidationError)

-- `errs = append(errs, more...)`
abbrev pub append_found : Found → Found → Found
append_found none more = none
append_found (some errs) none = none
append_found (some errs) (some more) = some (errs ++ more)

-- labels[id]
abbrev pub label_of : Labels → String → String
label_of labels id = elim (fetch labels id) [ none ↦ "" | some name ↦ name ]

-- strings.Join(names, " -> ")
unfoldable pub join_arrow : List String → String
join_arrow [] = ""
join_arrow (x ∷ []) = x
join_arrow (x ∷ y ∷ rest) = x ⊕ (" -> " ⊕ join_arrow (y ∷ rest))

unfoldable pub report_cycles : List (List String) → Labels → String → String → List ValidationError
unfolding join_arrow
report_cycles [] labels edge_kind path = []
report_cycles (cycle ∷ cycles) labels edge_kind path =
    record {
      check = "dag";
      severity = "error";
      path = path;
      message = edge_kind ⊕ (" cycle: " ⊕ join_arrow (map (label_of labels) cycle));
      schema_path = "";
    }
    ∷ report_cycles cycles labels edge_kind path

-- The cycles of a graph as errors.
unfoldable pub check_graph : Adjacency → Labels → String → String → Found
unfolding detect_string_cycles report_cycles
check_graph adj labels edge_kind path = elim (detect_string_cycles adj) [
  | none ↦ none
  | some cycles ↦ some (report_cycles cycles labels edge_kind path)
]

-- The loops that fill `adj` and the map of names.
unfoldable pub graph_of {ℓ} :
    {A : Type ℓ} → (A → String) → (A → List String) → List A → Adjacency → Adjacency
graph_of id edges [] adj = adj
graph_of id edges (x ∷ xs) adj = graph_of id edges xs (store adj (id x) (edges x))

unfoldable pub labels_of {ℓ} : {A : Type ℓ} → (A → String) → (A → String) → List A → Labels → Labels
labels_of id name [] labels = labels
labels_of id name (x ∷ xs) labels = labels_of id name xs (store labels (id x) (name x))

abbrev pub module_graph : Project → Adjacency
module_graph project = graph_of (λ (m : Module). m.id) (λ m. m.requires_module) project.modules []

abbrev pub requirement_graph : ModuleSpec → Adjacency
requirement_graph spec =
    graph_of (λ (r : ModuleRequirement). r.id) (λ r. r.depends_on) spec.requirements []

abbrev pub component_graph : ModuleSpec → Adjacency
component_graph spec = graph_of (λ (c : Component). c.id) (λ c. c.uses) spec.components []

unfoldable pub check_module_dag : Project → Found
unfolding check_graph graph_of labels_of
check_module_dag project =
    check_graph (module_graph project)
      (labels_of (λ (m : Module). m.id) (λ m. m.name) project.modules []) "module dependency"
      "project.json:/modules"

unfoldable pub check_requirement_dag : String → ModuleSpec → Found
unfolding check_graph graph_of labels_of
check_requirement_dag name spec =
    check_graph (requirement_graph spec)
      (labels_of (λ (r : ModuleRequirement). r.id) (λ r. r.title) spec.requirements [])
      "requirement dependency" (name ⊕ "/module.json:/requirements")

unfoldable pub check_component_dag : String → ModuleSpec → Found
unfolding check_graph graph_of labels_of
check_component_dag name spec =
    check_graph (component_graph spec)
      (labels_of (λ (c : Component). c.id) (λ c. c.name) spec.components []) "component dependency"
      (name ⊕ "/module.json:/components")

-- The loop of edgeActive.
unfoldable pub edge_declared : List Edge → String → String → Bool
unfolding contains cyclic_for_type
edge_declared [] kind from_type = false
edge_declared (e ∷ edges) kind from_type =
    let rest = edge_declared edges kind from_type in
    if not (e.kind == kind)
    then rest
    else if not (contains e.from_types from_type)
    then rest
    else not (cyclic_for_type e from_type)

unfoldable pub edge_active : Profile → String → String → Bool
unfolding edge_declared
edge_active profile kind from_type =
    if (kind == "requires_module") && (from_type == "module")
    then true
    else edge_declared profile.edges kind from_type
