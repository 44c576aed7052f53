-- ===== src/Broker/FileStore/Encode.antt =====
-- The JSON values that `writeState` of packages/broker/src/idempotency-store.ts writes; a property that is
-- `undefined` is left out, as JSON.stringify leaves it out.
use agent_trading_guardrails.Base.{String, Option}
use agent_trading_guardrails.Schemas.Json.{Json, num, str, arr, obj, JsonFields, no_fields, field}
use agent_trading_guardrails.Schemas.Encode.{environment_text, optional, strings}
use agent_trading_guardrails.Broker.Types.{
  BrokerExecutionStatus, executed, rejected, failed, OrderStatus, ReconciliationStatus, matched,
  discrepancy, unobserved, Reconciliation, SimulationEvidence, Evidence, AuditEventType,
  broker_revalidated, broker_preflight, broker_dry_run, broker_executed, broker_failed,
  killswitch_activated, killswitch_blocked, BrokerAuditEvent,
}

abbrev pub status_text : BrokerExecutionStatus → String
status_text executed = "executed"
status_text rejected = "rejected"
status_text failed = "failed"

abbrev reconciliation_text : ReconciliationStatus → String
reconciliation_text matched = "matched"
reconciliation_text discrepancy = "discrepancy"
reconciliation_text unobserved = "unavailable"

abbrev pub event_type_text : AuditEventType → String
event_type_text broker_revalidated = "broker.revalidated"
event_type_text broker_preflight = "broker.preflight"
event_type_text broker_dry_run = "broker.dry_run"
event_type_text broker_executed = "broker.executed"
event_type_text broker_failed = "broker.failed"
event_type_text killswitch_activated = "killswitch.activated"
event_type_text killswitch_blocked = "killswitch.blocked"

module _ {N : Type 0} where
  unfoldable pub order_status_json : OrderStatus N → Json N
  order_status_json s = obj (
      field "orderId" (str s.order_id) (
        field "symbol" (str s.symbol) (
          field "side" (str s.side) (
            field "status" (str s.status) (
              field "executedQty" (num s.executed_qty)
                (field "avgPrice" (num s.avg_price) no_fields))))))

  unfoldable pub reconciliation_json : Reconciliation N → Json N
  unfolding order_status_json
  reconciliation_json r = obj (
      field "status" (str (reconciliation_text r.status)) (
        field "checkedAt" (str r.checked_at) (
          field "expected" (order_status_json r.expected) (
            optional "observed" order_status_json r.observed
              (field "discrepancies" (arr (strings r.discrepancies)) no_fields)))))

  unfoldable pub simulation_json : SimulationEvidence → Json N
  simulation_json s =
      obj
        (optional "simulationId" str s.simulation_id (field "provider" (str s.provider) no_fields))

  -- The evidence, among the properties of a result and of the data of its event.
  abbrev pub evidence_fields : Evidence N → JsonFields N
  evidence_fields e = optional "orderId" str e.order_id (
      optional "transactionHash" str e.transaction_hash (
        optional "orderStatus" order_status_json e.order_status (
          optional "reconciliation" reconciliation_json e.reconciliation
            (optional "simulationEvidence" simulation_json e.simulation_evidence no_fields))))

  -- `data` of the event "broker.executed"
  abbrev pub executed_fields : Evidence N → JsonFields N
  executed_fields e = field "status" (str "executed") (evidence_fields e)

  -- `data` of the event "broker.failed"
  abbrev pub failed_fields :
      (rejection_reason : String) (reason : Option String) (error : String) → JsonFields N
  failed_fields rejection_reason reason error = field "status" (str "failed") (
      field "rejectionReason" (str rejection_reason)
        (optional "reason" str reason (field "error" (str error) no_fields)))

  -- An event, with its data.
  unfoldable pub event_fields : BrokerAuditEvent N → JsonFields N → JsonFields N
  event_fields event content = optional "eventId" str event.event_id (
      field "eventType" (str (event_type_text event.event_type)) (
        field "environment" (str (environment_text event.environment)) (
          optional "intentId" str event.intent_id (
            optional "principal" str event.principal (
              field "correlationId" (str event.correlation_id)
                (field "data" (obj content) no_fields))))))

  -- An entry in the state "in_progress".
  abbrev pub in_progress_json : (payload_hash : String) → Json N
  in_progress_json payload_hash =
      obj (field "status" (str "in_progress") (field "payloadHash" (str payload_hash) no_fields))

  -- A cached entry, with its result as JSON and with the hash of its event.
  abbrev pub cached_json :
      (payload_hash : String)
      → Json N
      → (event : Option (JsonFields N)) (event_hash : Option String) → Json N
  cached_json payload_hash result event event_hash = obj (
      field "status" (str "cached") (
        field "payloadHash" (str payload_hash) (
          field "result" result (
            optional "pendingAudit" obj event
              (optional "pendingAuditHash" str event_hash no_fields)))))
