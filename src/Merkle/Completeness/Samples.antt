-- ===== src/Merkle/Completeness/Samples.antt =====
-- CheckCompleteness on a spec with one module, of which a requirement and the meta leaf have changed.
use spexmachina.Prelude.{
  String, true, false, List, [], ◌∷◌, Option, none, some, ◌==◌, if◌then◌else◌, contains, fetch,
  store, ◌≡◌, ◌↔◌, refl,
}
use spexmachina.Schema.Spec.{Project, Component, ModuleSpec}
use spexmachina.Schema.Profile.{NodeType, Profile, append_new}
use spexmachina.Merkle.Diff.{ChangeType, modified, removed}
use spexmachina.Merkle.Impact.{ClassifiedChange, structural}
use spexmachina.Merkle.Completeness.{incomplete}
use spexmachina.Merkle.Completeness.Rules.{load_module_of, check_completeness}
use spexmachina.Merkle.Completeness.Complete.{IsComplete, check_completeness-IsComplete}

abbrev trigger : String → NodeType
trigger scope = record {
  name = "requirement";
  plural_key = "requirements";
  scope = scope;
  requires_content = false;
  completeness_trigger = true;
  name_declarable = true;
  fields = [];
  comment = "";
  content_prefix = none;
  leaf_sections = none;
}

abbrev profile : Profile
profile = record {
  profile_version = none;
  node_types = trigger "module" ∷ trigger "project" ∷ [];
  coverage_chains = [];
  plan_relevant = [];
  impact_levels = [];
  absorbable = [];
  edges = [];
  hashed_fields = [];
}

abbrev component : String → List String → Component
component id implements = record {
  id = id;
  name = id;
  description = "";
  content = "";
  implements = implements;
  uses = [];
}

abbrev spec : ModuleSpec
spec = record {
  name = "m";
  description = "";
  requirements =
      record {
        id = "r1";
        preq_id = "p1";
        type = "";
        title = "Fast";
        description = "";
        depends_on = [];
      }
      ∷ [];
  components = component "c1" ("r1" ∷ []) ∷ component "c2" ("r1" ∷ []) ∷ component "c3" [] ∷ [];
  data_flows = [];
  test_sections = [];
  apis = [];
}

abbrev proj : Project
proj = record {
  name = "p";
  description = "";
  version = "";
  requirements = [];
  modules =
      record { id = "m1"; name = "m"; path = "m"; description = ""; requires_module = [] } ∷ [];
  sections = [];
  spec_version = none;
}

abbrev read_module : String → Option ModuleSpec
read_module path = if path == "m" then some spec else none

abbrev change : ChangeType → String → String → String → ClassifiedChange
change type key node_type mod_hash = record {
  change = record {
    key = key;
    type = type;
    node_type = node_type;
    module_hash = mod_hash;
    old_hash = "o";
    new_hash = "n";
  };
  impact = structural;
  module_name = "m";
}

abbrev changes : List ClassifiedChange
changes =
    change modified "r1" "requirement" "m1"
    ∷ change modified "c2" "component" "m1"
    ∷ change removed "p1" "requirement" ""
    ∷ []

check_completeness-changes :
    check_completeness changes (some proj) read_module profile
    ≡ incomplete
        "requirement 'Fast' (m) description changed but component c1 content leaf unchanged" "r1"
        ("c1" ∷ [])
      ∷ incomplete "module requirement r1 (m) still derives from removed project requirement p1"
          "p1"
          ("r1" ∷ [])
      ∷ []
unfolding check_completeness contains fetch store append_new
check_completeness-changes = refl

check_completeness-meta :
    check_completeness
      (change modified "meta/m1" "meta" "m1" ∷ change modified "c1" "component" "m1" ∷ [])
      (some proj)
      read_module
      profile
    ≡ incomplete "module m meta changed but component c2 content leaf unchanged" "meta/m1"
        ("c2" ∷ [])
      ∷ incomplete "module m meta changed but component c3 content leaf unchanged" "meta/m1"
          ("c3" ∷ [])
      ∷ []
unfolding check_completeness contains fetch store append_new
check_completeness-meta = refl

check_completeness-IsComplete_example :
    (check_completeness changes (some proj) read_module profile ≡ [])
    ↔ IsComplete changes proj (load_module_of read_module proj) profile
check_completeness-IsComplete_example =
    check_completeness-IsComplete changes proj read_module profile
