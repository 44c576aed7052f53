-- ===== src/Guardrail.antt =====
-- packages/guardrail-service/src: the service that decides on an intent and signs its decision.
pub mod Types
pub mod Idempotency
pub mod Opa
pub mod Unsafe
pub mod Host
pub mod World
pub mod Facts
pub mod Finish
pub mod Evaluate
pub mod Startup
pub mod Proofs
mod Scenarios
pub mod Amounts
