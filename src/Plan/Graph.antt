-- ===== src/Plan/Graph.antt =====
-- SpecGraph of plan/spec_graph.go: the current spec, indexed for the planner's lookups.
use spexmachina.Prelude.{
  String, List, [], ◌∷◌, Option, none, some, ◌==◌, if◌then◌else◌, fetch, store,
}
use spexmachina.Schema.Spec.{
  Module, ModuleSpec, Requirement, Project, ModuleRequirement, Component, DataFlow, TestSection,
}
use spexmachina.Schema.Profile.{Profile, default_plan_relevant}

pub record ModuleEntry : Type 0 where
  pub module_decl : Module
  pub spec : ModuleSpec

pub record SpecGraph : Type 0 where
  pub by_name : List (String × ModuleEntry)
  pub by_id : List (String × ModuleEntry)
  pub project_reqs : List (String × Requirement)
  pub profile : Option Profile

abbrev pub empty_spec : ModuleSpec
empty_spec = record {
  name = "";
  description = "";
  requirements = [];
  components = [];
  data_flows = [];
  test_sections = [];
  apis = [];
}

-- specs[id]: the zero spec for an id without one.
abbrev pub spec_of : List (String × ModuleSpec) → String → ModuleSpec
spec_of specs id = elim (fetch specs id) [ none ↦ empty_spec | some spec ↦ spec ]

unfoldable pub index_modules : List Module → List (String × ModuleSpec) → SpecGraph → SpecGraph
index_modules [] specs g = g
index_modules (mod_decl ∷ modules) specs g =
    let entry : ModuleEntry = record { module_decl = mod_decl; spec = spec_of specs mod_decl.id } in
    index_modules modules specs (record {
      by_name = store g.by_name mod_decl.name entry;
      by_id = store g.by_id mod_decl.id entry;
      project_reqs = g.project_reqs;
      profile = g.profile;
    })

unfoldable pub index_requirements : List Requirement → SpecGraph → SpecGraph
index_requirements [] g = g
index_requirements (req ∷ reqs) g = index_requirements reqs (record {
  by_name = g.by_name;
  by_id = g.by_id;
  project_reqs = store g.project_reqs req.id req;
  profile = g.profile;
})

unfoldable pub new_spec_graph : Project → List (String × ModuleSpec) → SpecGraph
unfolding index_modules index_requirements
new_spec_graph proj specs = index_requirements proj.requirements (
    index_modules proj.modules specs
      (record { by_name = []; by_id = []; project_reqs = []; profile = none }))

abbrev pub with_profile : SpecGraph → Profile → SpecGraph
with_profile g p = record {
  by_name = g.by_name;
  by_id = g.by_id;
  project_reqs = g.project_reqs;
  profile = some p;
}

-- PlanRelevant; without a profile, the list of the default one.
unfoldable pub plan_relevant_of : SpecGraph → List String
plan_relevant_of g = elim g.profile [ none ↦ default_plan_relevant | some p ↦ p.plan_relevant ]

abbrev pub module_by_name : SpecGraph → String → Option ModuleEntry
module_by_name g = fetch g.by_name

abbrev pub module_by_id : SpecGraph → String → Option ModuleEntry
module_by_id g = fetch g.by_id

abbrev pub project_requirement : SpecGraph → String → Option Requirement
project_requirement g = fetch g.project_reqs

-- The first entry with the id.
unfoldable pub first_with {ℓ} : {A : Type ℓ} → (A → String) → List A → String → Option A
first_with key [] id = none
first_with key (x ∷ xs) id = if key x == id then some x else first_with key xs id

abbrev pub find_component : ModuleSpec → String → Option Component
find_component spec = first_with (λ (c : Component). c.id) spec.components

abbrev pub find_data_flow : ModuleSpec → String → Option DataFlow
find_data_flow spec = first_with (λ (f : DataFlow). f.id) spec.data_flows

abbrev pub find_test_section : ModuleSpec → String → Option TestSection
find_test_section spec = first_with (λ (t : TestSection). t.id) spec.test_sections

abbrev pub find_module_requirement : ModuleSpec → String → Option ModuleRequirement
find_module_requirement spec = first_with (λ (r : ModuleRequirement). r.id) spec.requirements
