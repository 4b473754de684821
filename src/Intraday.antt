-- ===== src/Intraday.antt =====
-- The writes of the intraday sync (src/services/intraday_sync_tws.py).
pub mod Rows
pub mod Marks
pub mod Roles
pub mod Fills
pub mod Positions
