-- ===== src/Ingest.antt =====
-- The ingest package (ingest/): from the ops and their receipts to a checked batch of journal lines.
pub mod Invariants
pub mod Receipts
pub mod Events
pub mod Encoder
pub mod Reconciler
