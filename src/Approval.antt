-- ===== src/Approval.antt =====
-- packages/approval/src: requests for human approval and their store.
pub mod Types
pub mod Store
pub mod Waiting
pub mod Timeouts
pub mod Onboarding
mod Tests
mod Scenarios
