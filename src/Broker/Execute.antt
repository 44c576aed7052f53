-- ===== src/Broker/Execute.antt =====
-- packages/broker/src/broker.ts: `ExecutionBroker.execute`, over the in-memory idempotency store.
-- `Execute/Evidence` has the results, `Execute/Stages` and `Execute/Connector` the stages, `Execute/Run` what the
-- holder of a reservation does, and `Execute/Admit` the whole.
pub mod Evidence
pub mod Stages
pub mod Connector
pub mod Run
pub mod Admit
pub mod Keeps
pub mod Phases
pub mod StagesKeep
pub mod Performs
pub mod Once
pub mod Requests
pub mod AtMostOnce
pub mod Guarded
pub mod SwitchRead
pub mod Trusted
pub mod Executed
pub mod SideEffect
