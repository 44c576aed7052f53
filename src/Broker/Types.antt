-- ===== src/Broker/Types.antt =====
-- packages/schemas/src/broker.ts and packages/broker/src/interfaces.ts: results of executions, kill
-- switch scopes, and the audit events that the broker writes.
use agent_trading_guardrails.Base.{String, Bool, Option, none, List}
use agent_trading_guardrails.Schemas.{Environment}

pub data BrokerExecutionStatus : Type 0 where
  executed rejected failed : BrokerExecutionStatus

pub data BrokerExecutionKind : Type 0 where
  cex_order cex_cancel cex_order_status onchain_signature onchain_simulation : BrokerExecutionKind

-- `BrokerOrderStatus`, which is `ConnectorOrderStatus` too.
pub record OrderStatus (N : Type 0) : Type 0 where
  pub order_id : String
  pub symbol : String
  pub side : String
  pub status : String
  pub executed_qty : N
  pub avg_price : N

pub data ReconciliationStatus : Type 0 where
  matched discrepancy unobserved : ReconciliationStatus

pub record Reconciliation (N : Type 0) : Type 0 where
  pub status : ReconciliationStatus
  pub checked_at : String
  pub expected : OrderStatus N
  pub observed : Option (OrderStatus N)
  pub discrepancies : List String

pub record SimulationEvidence : Type 0 where
  pub simulation_id : Option String
  pub provider : String

-- `ConnectorExecutionResult`: what a connector answers for an execution.
pub record Evidence (N : Type 0) : Type 0 where
  pub order_id : Option String
  pub transaction_hash : Option String
  pub order_status : Option (OrderStatus N)
  pub reconciliation : Option (Reconciliation N)
  pub simulation_evidence : Option SimulationEvidence

abbrev pub no_evidence : {N : Type 0} → Evidence N
no_evidence = record {
  order_id = none;
  transaction_hash = none;
  order_status = none;
  reconciliation = none;
  simulation_evidence = none;
}

-- The union `BrokerExecutionResult`; a property that a variant lacks is `none`.
pub record BrokerExecutionResult (N : Type 0) : Type 0 where
  pub intent_id : String
  pub idempotency_key : String
  pub status : BrokerExecutionStatus
  pub execution_kind : Option BrokerExecutionKind
  pub evidence : Evidence N
  pub revalidation_passed : Bool
  pub rejection_reason : Option String
  pub executed_at : String

pub data KillSwitchScope : Type 0 where
  global : KillSwitchScope
  agent : String → KillSwitchScope
  account : String → KillSwitchScope
  exchange : String → KillSwitchScope
  chain : String → KillSwitchScope

pub data AuditEventType : Type 0 where
  broker_revalidated broker_preflight broker_dry_run broker_executed broker_failed : AuditEventType
  killswitch_activated killswitch_blocked : AuditEventType

pub record PreflightCheckResult : Type 0 where
  pub check : String
  pub passed : Bool
  pub message : Option String

-- The object literals that the broker passes as `data`.
pub data AuditData (N : Type 0) : Type 0 where
  scope_data : KillSwitchScope → AuditData N
  revalidation_data : Bool → Option String → AuditData N
  reason_data : String → AuditData N
  rejection_data : (rule message : String) → AuditData N
  preflight_data : Bool → List PreflightCheckResult → AuditData N
  dry_run_data :
      (intent_id correlation_id checked_at : String) (passed requires_human : Bool)
      → List PreflightCheckResult
      → AuditData N
  execution_data : BrokerExecutionStatus → Evidence N → AuditData N
  failure_data :
      BrokerExecutionStatus
      → Option String
      → (reason : Option String) → (error : String) → AuditData N

pub record BrokerAuditEvent (N : Type 0) : Type 0 where
  pub event_id : Option String
  pub event_type : AuditEventType
  pub environment : Environment
  pub intent_id : Option String
  pub principal : Option String
  pub correlation_id : String
  pub content : AuditData N
