-- ===== src/Merkle.antt =====
-- The merkle package's core (merkle/): the tree of hashed spec nodes, the diff of two trees, and
-- the impact and the completeness of the changes.
pub mod Tree
pub mod Diff
pub mod Impact
pub mod Completeness
