-- ===== src/Merkle/Impact/Samples.antt =====
-- Classify on two changes.
use spexmachina.Prelude.{String, List, [], ◌∷◌, ◌≡◌, refl, All, fetch}
use spexmachina.Merkle.Diff.{Change, removed}
use spexmachina.Merkle.Impact.{structural, contract, parse_impact_level, string, classify}
use spexmachina.Merkle.Impact.Rules.{LevelRule, classify-LevelRule, parse_impact_level-string}

abbrev gone : String → String → Change
gone key node_type = record {
  key = key;
  type = removed;
  node_type = node_type;
  module_hash = "m1";
  old_hash = "h";
  new_hash = "";
}

abbrev changes : List Change
changes = gone "p" "meta" ∷ gone "f" "data_flow" ∷ []

abbrev levels : List (String × String)
levels = ("data_flow", "contract") ∷ []

abbrev names : List (String × String)
names = ("m1", "parser") ∷ []

classify-changes :
    classify changes names levels
    ≡ record { change = gone "p" "meta"; impact = structural; module_name = "parser" }
      ∷ record { change = gone "f" "data_flow"; impact = contract; module_name = "parser" }
      ∷ []
unfolding classify fetch parse_impact_level
classify-changes = refl

classify-LevelRule_example : All (LevelRule levels) (classify changes names levels)
classify-LevelRule_example = classify-LevelRule changes names levels

parse_impact_level-string_example : parse_impact_level (string contract) ≡ contract
parse_impact_level-string_example = parse_impact_level-string contract
