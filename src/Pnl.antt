-- ===== src/Pnl.antt =====
-- Realized profit and the holdings of a trade group: src/services/execution_pnl.py and the pure part
-- of src/services/trade_group_pnl.py.
pub mod Execution
pub mod Holdings
pub mod Ledger
