-- ===== src/Execute.antt =====
-- execute/: the engine that runs certified rules against the evidence.
pub mod Calendar
pub mod Evidence
pub mod Report
pub mod Applicability
pub mod Engine
pub mod Run
