-- ===== src/Fills.antt =====
-- The ingest of settled fills: src/services/fill_ingest.py and the parts of
-- src/services/sync_common.py that it calls.
pub mod Rows
pub mod ExecId
pub mod Canonical
pub mod Aggregates
pub mod Parents
pub mod Writes
pub mod Gcd
pub mod Combo
pub mod Ingest
