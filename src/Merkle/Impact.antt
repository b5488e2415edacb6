-- ===== src/Merkle/Impact.antt =====
-- Classify of merkle/impact_classifier.go. The profile is its map ImpactLevels, the only field that
-- the classifier reads.
pub mod Rules
mod Samples
use spexmachina.Prelude.{String, ℕ, List, [], ◌∷◌, Option, none, some, ◌==◌, if◌then◌else◌, fetch}
use spexmachina.Merkle.Diff.{Change}

pub data ImpactLevel : Type 0 where
  unknown impl_only contract arch_impl structural : ImpactLevel

-- The value of the constant in Go.
abbrev pub value : ImpactLevel → ℕ
value unknown = 0
value impl_only = 1
value contract = 2
value arch_impl = 3
value structural = 4

-- ImpactLevel.String
unfoldable pub string : ImpactLevel → String
string impl_only = "impl_only"
string contract = "contract"
string arch_impl = "arch_impl"
string structural = "structural"
string unknown = "unknown"

pub record ClassifiedChange : Type 0 where
  pub change : Change
  pub impact : ImpactLevel
  pub module_name : String

unfoldable pub parse_impact_level : String → ImpactLevel
parse_impact_level name =
    if name == "impl_only"
    then impl_only
    else if name == "contract"
    then contract
    else if name == "arch_impl"
    then arch_impl
    else if name == "structural"
    then structural
    else unknown

unfoldable pub classify_node_type : String → List (String × String) → ImpactLevel
unfolding parse_impact_level
classify_node_type node_type impact_levels =
    if node_type == "meta" then structural else elim (fetch impact_levels node_type) [
      | none ↦ unknown
      | some level_name ↦ parse_impact_level level_name
    ]

-- A nil map has no entry, as the empty one.
unfoldable pub resolve_module : String → List (String × String) → String
resolve_module module_hash module_names =
    if module_hash == ""
    then ""
    else elim (fetch module_names module_hash) [ some name ↦ name | none ↦ module_hash ]

unfoldable pub classify :
    List Change → List (String × String) → List (String × String) → List ClassifiedChange
unfolding classify_node_type resolve_module
classify [] module_names impact_levels = []
classify (c ∷ changes) module_names impact_levels =
    record {
      change = c;
      impact = classify_node_type c.node_type impact_levels;
      module_name = resolve_module c.module_hash module_names;
    }
    ∷ classify changes module_names impact_levels
