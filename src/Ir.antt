-- ===== src/Ir.antt =====
-- ir/: the typed rule that the compiler proposes and a person signs.
pub mod Enums
pub mod Schema
pub mod Ids
pub mod Sets
pub mod Fields
pub mod Validate
pub mod Obligation
pub mod Signing
pub mod Shape
