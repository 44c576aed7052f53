-- ===== src/Broker.antt =====
-- packages/broker/src: the execution broker and its parts.
pub mod Types
pub mod Idempotency
pub mod Keys
pub mod Host
pub mod World
pub mod KillSwitch
pub mod Preflight
pub mod DryRun
pub mod Decision
pub mod Execute
pub mod Rehearsal
pub mod FileTypes
pub mod FileStore
mod Tests
pub mod Scenarios
