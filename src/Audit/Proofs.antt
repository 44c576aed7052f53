-- ===== src/Audit/Proofs.antt =====
-- What the audit log keeps: its chain of hashes, its rows, and the anchor.
pub mod Sealed
pub mod Tamper
pub mod Writes
pub mod Committed
pub mod Returns
pub mod Restart
pub mod Retry
pub mod Redaction
