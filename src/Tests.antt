-- ===== src/Tests.antt =====
-- Samples, tests at concrete inputs, and the theorems applied at them.
mod Samples
mod Certify
mod Remediate
mod Execute
mod Amend
mod Steps
mod Attention
mod Receipt
