-- ===== src/Validator/Dag/Extra.antt =====
-- The generic graphs of the edge kinds that a profile declares. A raw JSON document is a function from an
-- array's key to its entries, with no entries for an array that is missing or does not decode, and an
-- entry answers str and strSlice.
use spexmachina.Prelude.{
  String, not, ◌&&◌, List, [], ◌∷◌, map, Option, none, some, ◌==◌, ◌⊕◌, if◌then◌else◌, contains,
  fetch,
}
use spexmachina.Schema.Spec.{Module, Project, ModuleSpec}
use spexmachina.Schema.Profile.{NodeType, Edge, cyclic_for_type, Profile}
use spexmachina.Validator.Dag.{Adjacency}
use spexmachina.Validator.Dag.Check.{
  Labels, Found, append_found, label_of, check_graph, graph_of, labels_of,
}

pub record RawEntry : Type 0 where
  pub str : String → String
  pub str_slice : String → List String

abbrev pub RawDoc : Type 0
RawDoc = String → List RawEntry

-- builtinDAGEdgeCoverage
abbrev pub builtin_dag_edge_coverage : List (String × List (String × String))
builtin_dag_edge_coverage =
    ("requires_module", ("module", "project") ∷ [])
    ∷ ("depends_on", ("requirement", "module") ∷ [])
    ∷ ("uses", ("component", "module") ∷ [])
    ∷ []

unfoldable pub fast_path_scope : String → String → String
fast_path_scope kind from_type = elim (fetch builtin_dag_edge_coverage kind) [
  | none ↦ ""
  | some covered ↦ label_of covered from_type
]

unfoldable pub extra_from : Edge → String → List String → List String
unfolding cyclic_for_type fast_path_scope
extra_from e scope [] = []
extra_from e scope (f ∷ from_types) =
    let rest = extra_from e scope from_types in
    if cyclic_for_type e f
    then rest
    else if fast_path_scope e.kind f == scope
    then rest
    else f ∷ rest

abbrev pub with_from : Edge → List String → List Edge → List Edge
with_from e [] edges = edges
with_from e (f ∷ from_types) edges = record e { from_types = f ∷ from_types } ∷ edges

-- extraCycleEdgesForScope
unfoldable pub extra_cycle_edges : List Edge → String → List Edge
unfolding extra_from
extra_cycle_edges [] scope = []
extra_cycle_edges (e ∷ edges) scope =
    with_from e (extra_from e scope e.from_types) (extra_cycle_edges edges scope)

-- findModuleNodeType and findProjectNodeType
unfoldable pub find_node_type : List NodeType → String → String → Option NodeType
find_node_type [] scope name = none
find_node_type (nt ∷ types) scope name =
    if (nt.name == name) && (nt.scope == scope) then some nt else find_node_type types scope name

unfoldable pub entry_label : RawEntry → String
entry_label e =
    if not (e.str "name" == "")
    then e.str "name"
    else if not (e.str "title" == "")
    then e.str "title"
    else e.str "id"

unfoldable pub known_targets : List String → List String → List String
unfolding contains
known_targets ids [] = []
known_targets ids (t ∷ ts) =
    let rest = known_targets ids ts in if contains ids t then t ∷ rest else rest

-- genericCycleAdjacency
abbrev pub generic_graph : List RawEntry → String → Adjacency
generic_graph entries edge_kind =
    graph_of (λ (e : RawEntry). e.str "id")
      (λ e. known_targets (map (λ (x : RawEntry). x.str "id") entries) (e.str_slice edge_kind))
      entries []

abbrev pub generic_labels : List RawEntry → Labels
generic_labels entries = labels_of (λ (e : RawEntry). e.str "id") entry_label entries []

-- The body of the loops over the from-types.
unfoldable pub check_entries : List RawEntry → String → String → Found
unfolding check_graph graph_of labels_of known_targets entry_label
check_entries [] edge_kind path = some []
check_entries (e ∷ entries) edge_kind path =
    check_graph (generic_graph (e ∷ entries) edge_kind) (generic_labels (e ∷ entries)) edge_kind
      path

unfoldable pub check_from_types :
    List NodeType → String → RawDoc → String → Edge → List String → Found
unfolding find_node_type check_entries
check_from_types types scope doc prefix edge [] = some []
check_from_types types scope doc prefix edge (from_name ∷ names) =
    let rest = check_from_types types scope doc prefix edge names in
    elim (find_node_type types scope from_name) [
      | none ↦ rest
      | some nt ↦
          append_found (check_entries (doc nt.plural_key) edge.kind (prefix ⊕ nt.plural_key)) rest
    ]

unfoldable pub check_edges : List NodeType → String → RawDoc → String → List Edge → Found
unfolding check_from_types
check_edges types scope doc prefix [] = some []
check_edges types scope doc prefix (e ∷ edges) =
    append_found (check_from_types types scope doc prefix e e.from_types)
      (check_edges types scope doc prefix edges)

-- modulePathByName
unfoldable pub module_path_by_name : List Module → String → String
module_path_by_name [] name = name
module_path_by_name (m ∷ modules) name =
    if m.name == name then m.path else module_path_by_name modules name

-- The files that the checker reads, decoded.
pub record SpecFiles : Type 0 where
  pub project : Project
  pub modules : List (String × ModuleSpec)
  pub module_doc : String → Option RawDoc
  pub project_doc : Option RawDoc

unfoldable pub check_extra_module_dag_edges : SpecFiles → Profile → List String → Found
unfolding check_edges extra_cycle_edges module_path_by_name
check_extra_module_dag_edges files profile [] = some []
check_extra_module_dag_edges files profile (name ∷ names) =
    let rest = check_extra_module_dag_edges files profile names in
    elim (fetch files.modules name) [
      | none ↦ rest
      | some spec ↦ elim (files.module_doc (module_path_by_name files.project.modules name)) [
        | none ↦ rest
        | some doc ↦
            append_found
              (check_edges profile.node_types "module" doc (name ⊕ "/module.json:/")
                (extra_cycle_edges profile.edges "module"))
              rest
      ]
    ]

unfoldable pub check_extra_project_dag_edges : SpecFiles → Profile → Found
unfolding check_edges extra_cycle_edges
check_extra_project_dag_edges files profile = elim files.project_doc [
  | none ↦ some []
  | some doc ↦
      check_edges profile.node_types "project" doc "project.json:/"
        (extra_cycle_edges profile.edges "project")
]
