-- ===== src/Amend.antt =====
-- diff/, change.py and analyse/references.py: what a new edition of a circular does to signed rules.
pub mod Clauses
pub mod Diff
pub mod References
pub mod Impact
pub mod Plan
pub mod Controls
