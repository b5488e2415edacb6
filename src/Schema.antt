-- ===== src/Schema.antt =====
-- The schema package (schema/): the parsed spec files and the project profile.
pub mod Spec
pub mod Profile
