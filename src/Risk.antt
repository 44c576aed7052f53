-- ===== src/Risk.antt =====
-- packages/risk-engine/src: the dynamic risk engine.
pub mod Types
pub mod Checks
pub mod Engine
pub mod Acceptable
pub mod Proofs
mod Tests
