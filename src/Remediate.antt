-- ===== src/Remediate.antt =====
-- remediate/: the tasks that close gaps, and the log that proves what was done.
pub mod Log
pub mod Task
pub mod Store
pub mod Service
pub mod Amendment
pub mod Steps
