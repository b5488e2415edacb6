-- ===== src/Plan/Resolver/Samples.antt =====
-- The resolver on a small batch and graph.
use spexmachina.Prelude.{
  String, ℕ, List, [], ◌∷◌, none, some, ◌==◌, if◌then◌else◌, ◌≡◌, refl, ok, fetch, store,
}
use spexmachina.Schema.Spec.{Component, Module, ModuleSpec, ModuleRequirement, Requirement, Project}
use spexmachina.Plan.Labeler.{Registration}
use spexmachina.Plan.Matcher.{Pairing}
use spexmachina.Plan.Graph.{SpecGraph, new_spec_graph, first_with}
use spexmachina.Plan.Resolver.{
  Fold, Batch, resolve_deps, resolve_epic_action, resolve_parent, resolve_priority,
}
use spexmachina.Plan.Types.{task, op}
use spexmachina.Plan.Resolver.Refs.{
  answer, first_unknown, all_refs, resolve_deps-eq, ParentAgrees, resolve_parent-ParentAgrees,
}
use spexmachina.Plan.Resolver.Priority.{priorities, IsLeast, resolve_priority-IsLeast}

abbrev batch : Batch
batch = ("c1", "op-2") ∷ ("p", "op-1") ∷ []

abbrev pairing : String → Pairing
pairing status = record {
  spec_node_id = "c2";
  task_id = "t2";
  node_type = "component";
  module_name = "m";
  name = "c2";
  bead_status = status;
  after = "h";
}

abbrev fold : Fold
fold key =
    if key == "c2" then some (pairing "open") else if key == "c3" then some (pairing "") else none

abbrev deps : List String
deps = "c1" ∷ "c2" ∷ "c3" ∷ []

resolve_deps-deps : resolve_deps deps batch fold ≡ ok (op "op-2" ∷ task "t2" ∷ [])
unfolding resolve_deps fetch
resolve_deps-deps = refl

resolve_deps-eq_example :
    resolve_deps deps batch fold ≡ answer (first_unknown batch fold deps) (all_refs batch fold deps)
resolve_deps-eq_example = resolve_deps-eq deps batch fold

abbrev registered : Registration
registered = record { eid = "a1:reg" }

resolve_parent-ParentAgrees_example :
    ParentAgrees "p" batch fold
      (resolve_epic_action "p" fold registered)
      (resolve_parent "p" fold registered batch)
resolve_parent-ParentAgrees_example = resolve_parent-ParentAgrees "p" fold registered batch

abbrev comp : Component
comp = record {
  id = "c1";
  name = "Loader";
  description = "";
  content = "";
  implements = "r1" ∷ "r9" ∷ "r2" ∷ [];
  uses = [];
}

abbrev mod_req : String → String → ModuleRequirement
mod_req id preq_id = record {
  id = id;
  preq_id = preq_id;
  type = "functional";
  title = id;
  description = "";
  depends_on = [];
}

abbrev proj_req : String → ℕ → Requirement
proj_req id priority = record {
  id = id;
  preq_id = "";
  type = "functional";
  title = id;
  description = "";
  priority = some priority;
  depends_on = [];
  derivation = "";
}

abbrev spec : ModuleSpec
spec = record {
  name = "m";
  description = "";
  requirements = mod_req "r1" "q1" ∷ mod_req "r2" "q2" ∷ [];
  components = comp ∷ [];
  data_flows = [];
  test_sections = [];
  apis = [];
}

abbrev module_m : Module
module_m = record { id = "m1"; name = "m"; path = "m"; description = ""; requires_module = [] }

abbrev project : Project
project = record {
  name = "p";
  description = "";
  version = "";
  requirements = proj_req "q1" 2 ∷ proj_req "q2" 1 ∷ [];
  modules = module_m ∷ [];
  sections = [];
  spec_version = none;
}

abbrev graph : SpecGraph
graph = record {
  by_name = ("m", record { module_decl = module_m; spec = spec }) ∷ [];
  by_id = ("m1", record { module_decl = module_m; spec = spec }) ∷ [];
  project_reqs = ("q1", proj_req "q1" 2) ∷ ("q2", proj_req "q2" 1) ∷ [];
  profile = none;
}

graph-project : new_spec_graph project (("m1", spec) ∷ []) ≡ graph
unfolding new_spec_graph fetch store
graph-project = refl

resolve_priority-graph : resolve_priority "m" "c1" graph ≡ 1
unfolding resolve_priority fetch first_with
resolve_priority-graph = refl

resolve_priority-IsLeast_example :
    IsLeast (priorities spec graph ("r1" ∷ "r9" ∷ "r2" ∷ [])) (resolve_priority "m" "c1" graph)
unfolding fetch first_with
resolve_priority-IsLeast_example =
    resolve_priority-IsLeast "m" "c1" graph (record { module_decl = module_m; spec = spec }) comp
      refl refl
