-- ===== src/Mapping.antt =====
-- The map package (mapping/): the task journal and its fold.
pub mod Journal
