-- ===== src/Merkle/Impact/Rules.antt =====
-- What Classify gives each change.
use mathlib.Core.Logic.{◌↔◌, ◌⊎◌}
use spexmachina.Prelude.{
  String, List, [], ◌∷◌, some, eq_iff, fetch, arith, ◌≡◌, refl, All, Option-cases, inl, inr,
}
use spexmachina.Merkle.Diff.{Change}
use spexmachina.Merkle.Impact.{
  ImpactLevel, unknown, impl_only, contract, arch_impl, structural, string, ClassifiedChange,
  classify, parse_impact_level, classify_node_type,
}

-- The name of a level is read back as the level.
pub parse_impact_level-string : (level : ImpactLevel) → parse_impact_level (string level) ≡ level
unfolding parse_impact_level string
parse_impact_level-string unknown = refl
parse_impact_level-string impl_only = refl
parse_impact_level-string contract = refl
parse_impact_level-string arch_impl = refl
parse_impact_level-string structural = refl

abbrev pub LevelRule : List (String × String) → ClassifiedChange → Type 0
LevelRule levels c =
    (c.impact ≡ structural)
    ↔ ((c.change.node_type ≡ "meta") ⊎ (fetch levels c.change.node_type ≡ some "structural"))

parsed_structural : (name : String) → (parse_impact_level name ≡ structural) ↔ (name ≡ "structural")
unfolding parse_impact_level
parsed_structural name = (λ h. ground (arith, eq_iff name "structural"), λ e. rw e refl)

level_rule :
    (levels : List (String × String)) (type : String)
    → (classify_node_type type levels ≡ structural)
      ↔ ((type ≡ "meta") ⊎ (fetch levels type ≡ some "structural"))
unfolding classify_node_type
level_rule levels type = elim (Option-cases (fetch levels type)) [
  | inl e ↦ rw e (ground (arith, eq_iff type "meta"))
  | inr e ↦ rw e.1 (ground (arith, eq_iff type "meta", parsed_structural e.0))
]

-- Classify gives the level structural to exactly the changes whose node type is meta, whatever the
-- profile says, or declared structural by the profile.
pub classify-LevelRule :
    (changes : List Change) (names levels : List (String × String))
    → All (LevelRule levels) (classify changes names levels)
unfolding classify
classify-LevelRule [] names levels = tt
classify-LevelRule (c ∷ changes) names levels =
    (level_rule levels c.node_type, classify-LevelRule changes names levels)
