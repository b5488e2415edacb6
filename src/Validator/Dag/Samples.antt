-- ===== src/Validator/Dag/Samples.antt =====
-- Small graphs, and a spec with them.
use spexmachina.Prelude.{
  String, true, false, List, [], ◌∷◌, none, some, All, ◌≡◌, ◌↔◌, refl, fetch, store, contains,
  sort_by, insert_by, str_lt, ◌==◌, if◌then◌else◌,
}
use spexmachina.Schema.Spec.{Module, Component, ModuleSpec}
use spexmachina.Schema.Profile.{Profile, Edge, NodeType}
use spexmachina.Validator.Dag.{Adjacency, detect_string_cycles}
use spexmachina.Validator.Dag.Trail.{IsCycle}
use spexmachina.Validator.Dag.Cycles.{detect_string_cycles-IsCycle, detect_string_cycles-none}
use spexmachina.Validator.Dag.Check.{ValidationError}
use spexmachina.Validator.Dag.Extra.{RawEntry, SpecFiles}
use spexmachina.Validator.Dag.Whole.{check_dag}
use spexmachina.Validator.Dag.Verdict.{SpecIsAcyclic, check_dag-acyclic}

-- a → b → c → a, and d → d.
abbrev cyclic : Adjacency
cyclic = ("a", "b" ∷ []) ∷ ("d", "d" ∷ "a" ∷ []) ∷ ("b", "c" ∷ "e" ∷ []) ∷ ("c", "a" ∷ []) ∷ []

detect-cyclic :
    detect_string_cycles cyclic ≡ some (("a" ∷ "b" ∷ "c" ∷ "a" ∷ []) ∷ ("d" ∷ "d" ∷ []) ∷ [])
unfolding detect_string_cycles fetch sort_by insert_by str_lt
detect-cyclic = refl

detect_string_cycles-IsCycle_example :
    (cycles : List (List String)) × (detect_string_cycles cyclic ≡ some cycles)
    × All (IsCycle cyclic) cycles
detect_string_cycles-IsCycle_example = detect_string_cycles-IsCycle cyclic

abbrev dag : Adjacency
dag = ("a", "b" ∷ "c" ∷ []) ∷ ("b", "c" ∷ []) ∷ []

detect_string_cycles-none_example :
    (detect_string_cycles dag ≡ some []) ↔ ((path : List String) → ¬ IsCycle dag path)
detect_string_cycles-none_example = detect_string_cycles-none dag

abbrev component : String → String → List String → Component
component id name uses = record {
  id = id;
  name = name;
  description = "";
  content = "";
  implements = [];
  uses = uses;
}

abbrev spec : ModuleSpec
spec = record {
  name = "m";
  description = "";
  requirements = [];
  components = component "c1" "One" ("c2" ∷ []) ∷ component "c2" "Two" ("c1" ∷ []) ∷ [];
  data_flows = [];
  test_sections = [];
  apis = [];
}

abbrev module_of : String → String → List String → Module
module_of id name requires = record {
  id = id;
  name = name;
  path = name;
  description = "";
  requires_module = requires;
}

abbrev step_entry : RawEntry
step_entry = record {
  str = λ key. if key == "id" then "s1" else "";
  str_slice = λ key. if key == "after" then "s1" ∷ "s9" ∷ [] else [];
}

abbrev files : SpecFiles
files = record {
  project = record {
    name = "p";
    description = "";
    version = "";
    requirements = [];
    modules = module_of "m1" "m" [] ∷ [];
    sections = [];
    spec_version = none;
  };
  modules = ("m", spec) ∷ [];
  module_doc = λ path. some (λ key. if key == "steps" then step_entry ∷ [] else []);
  project_doc = none;
}

abbrev uses_edge : Edge
uses_edge = record {
  kind = "uses";
  from_types = "component" ∷ [];
  to_types = "component" ∷ [];
  cyclic_from = [];
}

abbrev after_edge : Edge
after_edge = record {
  kind = "after";
  from_types = "step" ∷ [];
  to_types = "step" ∷ [];
  cyclic_from = [];
}

abbrev step_type : NodeType
step_type = record {
  name = "step";
  plural_key = "steps";
  scope = "module";
  requires_content = false;
  completeness_trigger = false;
  name_declarable = true;
  fields = [];
  comment = "";
  content_prefix = none;
  leaf_sections = none;
}

abbrev profile : Profile
profile = record {
  profile_version = none;
  node_types = step_type ∷ [];
  coverage_chains = [];
  plan_relevant = [];
  impact_levels = [];
  absorbable = [];
  edges = uses_edge ∷ after_edge ∷ [];
  hashed_fields = [];
}

abbrev error : String → String → ValidationError
error path message = record {
  check = "dag";
  severity = "error";
  path = path;
  message = message;
  schema_path = "";
}

check_dag-files :
    check_dag files profile
    ≡ some (
        error "m/module.json:/components" "component dependency cycle: One -> Two -> One"
        ∷ error "m/module.json:/steps" "after cycle: s1 -> s1"
        ∷ [])
unfolding check_dag fetch store contains sort_by insert_by str_lt
check_dag-files = refl

check_dag-acyclic_example :
    (errs : List ValidationError) × (check_dag files profile ≡ some errs)
    × ((errs ≡ []) ↔ SpecIsAcyclic files profile)
check_dag-acyclic_example = check_dag-acyclic files profile
