-- ===== src/Guardrail/Proofs.antt =====
-- What the guardrail service promises of its decisions.
pub mod Sound
pub mod Justified
pub mod Final
pub mod Decides
pub mod Evaluates
pub mod Handover
pub mod Bounds
