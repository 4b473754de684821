-- ===== src/Settle.antt =====
-- The hand-over of live fills to settled ones: src/services/live_reconcile.py,
-- src/services/group_link_carryover.py and src/services/order_keys.py.
pub mod Rows
pub mod Match
pub mod Links
pub mod Reconcile
pub mod Purge
