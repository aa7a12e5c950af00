-- ===== src/Certify.antt =====
-- certify/: the life of a rule, and the ledger that records it.
pub mod Changes
pub mod Ledger
pub mod Registry
