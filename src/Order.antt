-- ===== src/Order.antt =====
-- The order queue and its worker: src/services/order_queue.py, src/services/order_worker.py,
-- src/services/order_mutations.py,
-- src/services/order_sync_tws.py and the claim step of scripts/work_order_queue.py.
pub mod Status
pub mod Model
pub mod Queue
pub mod Broker
pub mod Reference
pub mod Worker
pub mod Process
pub mod Reconcile
pub mod Ticket
pub mod Create
pub mod Submission
pub mod Fetch
