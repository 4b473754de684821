-- ===== src/Lib.antt =====
-- ngv-trader: a verification library of its trading core.
--
-- The program keeps an account's trading book. An order is queued by the interface, claimed by the
-- order worker and moved along by what the broker reports; a job queue runs the synchronizations;
-- fills come in twice, live from the Trader Workstation and settled from FlexQuery reports, and the
-- live ones are handed over to the settled ones; positions of the settled snapshot are overlaid with
-- live captures and marks; and trade groups own fills, from which their profit is computed.
--
-- Modules:
--   Prelude: Boolean tests, lists, texts, floats and integers that the others share.
--   Order: src/services/order_queue.py (Status, Model, Queue: the status table, the transition and the
--     event log), src/services/order_worker.py (Reference: the order reference; Worker: a trade's
--     progress; Process: the submission; Reconcile: the startup pass). Broker is the client's view.
--     Fetch is src/services/order_sync_tws.py: Match finds the local order, Fields and Sync write a
--     broker order onto it, Run is the pass. Ticket (input) and Create are src/services/order_mutations.py, Submission is a round of
--     scripts/work_order_queue.py.
--   Jobs: src/services/jobs.py and the dispatch of scripts/work_jobs.py. Row is what happens to one
--     job, Table enqueueing and claiming.
--   Settle: src/services/live_reconcile.py, src/services/order_keys.py and
--     src/services/group_link_carryover.py. Rows are the tables, Match the three matches, Links the
--     carry-over of group links, Reconcile the pass and Purge what the intraday sync deletes.
--   Fills: src/services/fill_ingest.py and src/services/sync_common.py. Rows are the tables and the
--     normalized fill, ExecId the revision of an execution, Canonical its flags, Aggregates the sums of
--     a parent trade, Parents accounts and parent trades, Writes the upsert and the tags of legs, Gcd
--     and Combo the summary of a spread and Ingest the run (Combos: the combos of a batch; Parents: their
--     parents; Written: the writes one by one). Leg sizes are finite: at one that is not, where the
--     source's int(a) raises, the model answers a combo of one unit.
--   Intraday: src/services/intraday_sync_tws.py. Rows are the client's objects and the live tables, Marks
--     the price rules, Roles the spreads of a batch, Fills and Positions the writes; its purge is
--     Settle.Purge.
--   Items: src/services/item_refs.py (Refs: the keys of items) and src/services/item_links.py (Links:
--     attaching, detaching and merging; Carry: the links of a live fill that settles; Inherit: the links
--     of an order given to its late fills; Flat: the end of the tags of closed positions). Resolve
--     checks references and expands a live fill to its order.
--   Overlay: src/services/intraday_overlay.py. Clock has the time rules, Marks the price rules, Merge
--     the views and Totals the sums.
--   Pnl: src/services/execution_pnl.py (Execution) and the pure part of
--     src/services/trade_group_pnl.py (Holdings; Ledger: the overlay of a group and its accounts).
--   Tests: the theorems applied to concrete rows.
-- A module Laws under one of these has its theorems; Outcomes under Create has the ends of a creation,
-- Flags under Canonical the enforced flags, Ids under Writes the lists of ids, and Keeps, Written and
-- Again under Ingest the steps, the writes and the repetition of a run, Moves under Links the merge and
-- Settled under Carry the carry-over, Listed under Purge the purged ids.
--
-- How the code corresponds: a function keeps its name, without a leading underscore. A row of
-- src/models.py is a record with the columns that the code reads or writes, a session is the rows
-- passed from call to call, and a query is a function on the list of rows, in the order that the query
-- asks for. An enum of src/domain/enums.py is a data type, so that a status outside it is not
-- representable. A call that may raise answers a Result beside its state, which keeps what was written
-- before the raise (Order.Model). One value `now` stands for the clock during a call, in seconds.
--
-- Floats are an abstract type with the operations of Prelude.FloatOps, of which no law is taken for
-- granted, unless a theorem names it: what is stated of sums holds for floating point as it is. Texts
-- are lists of code points,
-- and their case is that of ASCII. A JSON payload of a job is a parameter, as are its handlers. Time
-- zones are parameters with the law that a date's midnight is the first instant of that date. The
-- account table, the qualification of a contract, the accounts that a session manages and the trades
-- that the broker reports are arguments.
--
-- Recursion is structural, but for the printing of a number, whose fuel is one more than the number, as
-- a step divides it by ten, and for the greatest common divisor, whose fuel is one more than the second
-- number, as that falls in each step; fuel is never used up. A run of rounds is a list of
-- the instants at which a job is claimed with the handler's outcomes; which job is claimed, and when,
-- is the table's part.
--
-- Not modelled: the loops that sleep, connect and notify; the loaders of
-- src/services/trade_group_pnl.py, which are queries; the requests of the
-- synchronizations and what turns their answers into fills; the contract, market data and watch list services; the trade bot; the HTTP
-- interface; the frontend.
pub mod Prelude
pub mod Order
pub mod Jobs
pub mod Settle
pub mod Intraday
pub mod Items
pub mod Overlay
pub mod Fills
pub mod Pnl
pub mod Tests
