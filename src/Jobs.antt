-- ===== src/Jobs.antt =====
-- The generic job queue: src/services/jobs.py and the dispatch of scripts/work_jobs.py.
pub mod Row
pub mod Table
