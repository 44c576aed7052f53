-- ===== src/Broker/FileStore/Queries.antt =====
-- The results that broker.ts records for a query of an order's status, and which of them
-- `validateCachedEntryForIntent` of idempotency-store.ts accepts when the query is made again.
use agent_trading_guardrails.Base.{String, ◌≡◌, ◌≢◌, none}
use agent_trading_guardrails.Js.{JsNumber}
use agent_trading_guardrails.Schemas.{TradingIntent}
use agent_trading_guardrails.Broker.Types.{
  BrokerExecutionResult, executed, Evidence, BrokerAuditEvent,
}
use agent_trading_guardrails.Broker.Host.{Host, BrokerConfig}
use agent_trading_guardrails.Broker.World.{Outcome}
use agent_trading_guardrails.Broker.Execute.Evidence.{
  subject, rejected_result, accepted, executed_result,
}
use agent_trading_guardrails.Broker.Execute.Run.{terminal, progress_of}

module _ {N S : Type 0} ⦃number : JsNumber N⦄ (host : Host N S) (cfg : BrokerConfig N) where
  module _ (intent : TradingIntent N) (correlation_id now : String) where
    -- What `execute` records: the end of a call of the connector, or a rejection by a stage before it.
    pub data IsRecorded : BrokerExecutionResult N → Type 0 where
      ended :
          (outcome : Outcome (Evidence N)) (result : BrokerExecutionResult N)
          (event : BrokerAuditEvent N)
          → progress_of host cfg intent correlation_id now outcome ≡ terminal result event
          → IsRecorded result
      rejected_for : (reason : String) → IsRecorded (rejected_result (subject intent) now reason)

    abbrev IsUnexecuted : BrokerExecutionResult N → Type 0
    IsUnexecuted result = (result.evidence.order_status ≡ none) × (result.status ≢ executed)

    abbrev IsAccepted : BrokerExecutionResult N → Type 0
    IsAccepted result =
        (evidence : Evidence N) × (executed_result host intent evidence now ≡ accepted result)
