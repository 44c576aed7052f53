-- ===== src/Audit.antt =====
-- packages/audit/src: the audit log, whose rows are chained by keyed hashes.
pub mod Types
pub mod Redact
pub mod Chain
pub mod Writer
pub mod Startup
pub mod Proofs
mod Scenarios
