-- ===== src/Risk/Proofs.antt =====
-- The checks of the risk engine against what it promises of an order.
mod Order
mod Facts
mod Intent
pub mod Evaluate
pub mod Relax
pub mod Closed
