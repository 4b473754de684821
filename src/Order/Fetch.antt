-- ===== src/Order/Fetch.antt =====
-- src/services/order_sync_tws.py: the broker's orders, fetched and written onto the local ones.
pub mod Rows
pub mod Match
pub mod Fields
pub mod Sync
pub mod Run
