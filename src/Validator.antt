-- ===== src/Validator.antt =====
-- The validator package (validator/): the checks of a spec.
pub mod Dag
