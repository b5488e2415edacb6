-- ===== src/Plan.antt =====
-- The plan command's core (plan/): from a classified diff and the journal fold to an ordered
-- changeset.
pub mod Types
pub mod Labeler
pub mod Kahn
pub mod Sorter
pub mod Graph
pub mod Matcher
pub mod Resolver
pub mod Classifier
pub mod Builder
