-- ===== src/Overlay.antt =====
-- The live-over-settled view of positions: src/services/intraday_overlay.py.
pub mod Clock
pub mod Marks
pub mod Rows
pub mod Merge
pub mod Totals
