-- ===== src/Broker/Execute/Run.antt =====
-- `ExecutionBroker.execute` in broker.ts: what the holder of a reservation does, and
-- `finishExecutionWithAudit`.
use agent_trading_guardrails.Base.{
  String, Bool, true, false, not, Option, none, some, [], ◌∷◌, if◌then◌else◌,
}
use agent_trading_guardrails.Js.{JsNumber}
use agent_trading_guardrails.Js.Text.{template}
use agent_trading_guardrails.Schemas.{TradingIntent, envelope}
use agent_trading_guardrails.Broker.Types.{
  BrokerExecutionResult, Evidence, BrokerAuditEvent, broker_failed, broker_executed, execution_data,
  failure_data, AuditEventType, AuditData, failed, executed,
}
use agent_trading_guardrails.Broker.Host.{Host, BrokerConfig, DryRunAuthorization}
use agent_trading_guardrails.Broker.Idempotency
use agent_trading_guardrails.Broker.Idempotency.{Reservation, conflict, reserved, known, waiting}
use agent_trading_guardrails.Broker.Keys.{terminal_audit_event_id}
use agent_trading_guardrails.Broker.World.{
  M, Fault, audit_fault, kill_switch_unreachable, connector_revalidation, connector_fault,
  revalidation_fault, approval_fault, message, Outcome, returned, threw, pure, on_throw, catching,
  update_store, ◌>>=◌, ◌>>◌,
}
use agent_trading_guardrails.Broker.Preflight.{audit}
use agent_trading_guardrails.Broker.Execute.Evidence.{
  subject, failed_result, executed_result, Judgement, accepted, refused,
}
use agent_trading_guardrails.Broker.Execute.Stages.{
  abort, scoped_key, payload_hash, authorise, pass_kill_switch,
}
use agent_trading_guardrails.Broker.Execute.Connector.{
  revalidate, recheck_dry_run, consume_approval, call_connector,
}

-- How the part of `execute` that holds the reservation goes on: it has its result, or it has one
-- that is to be recorded together with its audit event.
pub data Progress (N : Type 0) : Type 0 where
  settled : BrokerExecutionResult N → Progress N
  terminal : BrokerExecutionResult N → BrokerAuditEvent N → Progress N

-- String(err). The last three are not thrown while the connector runs.
unfoldable pub fault_text : Fault → String
unfolding template
fault_text (audit_fault error) = error
fault_text (connector_revalidation explanation) =
    template ("ConnectorRevalidationError: " ∷ explanation ∷ [])
fault_text (connector_fault error) = error
fault_text (message explanation) = template ("Error: " ∷ explanation ∷ [])
fault_text kill_switch_unreachable = "KillSwitchReachabilityError: Kill switch is not reachable."
fault_text revalidation_fault = ""
fault_text approval_fault = ""

abbrev pub is_revalidation_fault : Fault → Bool
is_revalidation_fault (connector_revalidation explanation) = true
is_revalidation_fault _ = false

module _ {N S : Type 0} ⦃number : JsNumber N⦄ (host : Host N S) (cfg : BrokerConfig N) where
  module _ (intent : TradingIntent N) (correlation_id now : String) where
    abbrev pub terminal_event : String → AuditEventType → AuditData N → BrokerAuditEvent N
    terminal_event event_name event_type content = record {
      event_id = some (terminal_audit_event_id host.sha256 intent correlation_id event_name);
      event_type = event_type;
      environment = cfg.environment;
      intent_id = some (envelope intent).intent_id;
      principal = some (envelope intent).principal;
      correlation_id = correlation_id;
      content = content;
    }

    -- The `catch` of `connector.execute`.
    unfoldable pub execution_failed : Fault → Progress N
    unfolding fault_text
    execution_failed fault =
        let reason =
          if is_revalidation_fault fault
          then "Connector revalidation failed."
          else "Execution failed." in
        terminal (failed_result (subject intent) now (not (is_revalidation_fault fault)) reason) (
          terminal_event "broker.failed" broker_failed
            (failure_data failed (some reason) none (host.redact_secrets (fault_text fault))))

    -- The `catch` of `executedResult`.
    unfoldable pub evidence_rejected : (error : String) → Progress N
    evidence_rejected error =
        terminal (failed_result (subject intent) now true "Execution evidence validation failed.") (
          terminal_event "broker.failed" broker_failed (
            failure_data failed (some "Execution evidence validation failed.")
              (some "Execution evidence validation failed.") (host.redact_secrets error)))

    unfoldable pub executed_with : BrokerExecutionResult N → Evidence N → Progress N
    executed_with result evidence =
        terminal result
          (terminal_event "broker.executed" broker_executed (execution_data executed evidence))

    abbrev pub progress_of_result : Evidence N → Judgement N → Progress N
    progress_of_result evidence (refused error) = evidence_rejected error
    progress_of_result evidence (accepted result) = executed_with result evidence

    abbrev pub progress_of : Outcome (Evidence N) → Progress N
    progress_of (threw fault) = execution_failed fault
    progress_of (returned evidence) =
        progress_of_result evidence (executed_result host intent evidence now)

    -- From the call of the connector to the audit event of its end.
    unfoldable pub connect : Option DryRunAuthorization → M N S (Progress N)
    unfolding ◌>>=◌ pure catching
    connect authorization = do
      outcome ← catching (call_connector host cfg intent correlation_id now authorization)
      pure (progress_of outcome)

    abbrev pub unless_settled :
        M N S (Option (BrokerExecutionResult N)) → M N S (Progress N) → M N S (Progress N)
    unless_settled stage next = do
      ended ← stage
      (elim ended [ none ↦ next | some result ↦ pure (settled result) ])

    -- The second `try` block, up to the persistence of its end.
    unfoldable pub perform : Option DryRunAuthorization → Option String → M N S (Progress N)
    unfolding ◌>>=◌ pure
    perform authorization approval_id =
        unless_settled (pass_kill_switch host cfg intent correlation_id now) (
          unless_settled (revalidate host cfg intent correlation_id now) (
            unless_settled (pass_kill_switch host cfg intent correlation_id now) (
              unless_settled (recheck_dry_run host cfg intent correlation_id now authorization) (
                unless_settled (consume_approval host cfg intent correlation_id now approval_id)
                  (connect authorization)))))

    -- finishExecutionWithAudit(reservation, result, auditEvent)
    unfoldable pub finish_execution_with_audit :
        BrokerExecutionResult N → BrokerAuditEvent N → M N S (BrokerExecutionResult N)
    unfolding ◌>>=◌ pure update_store on_throw
    finish_execution_with_audit result event = do
      update_store (λ s.
          Idempotency.complete (scoped_key host cfg intent correlation_id now)
            (payload_hash host cfg intent correlation_id now) result (some event) s)
      on_throw
          (λ fault. update_store (λ s.
            Idempotency.fail_audit (scoped_key host cfg intent correlation_id now)
              (payload_hash host cfg intent correlation_id now) fault s))
          (audit host event)
      update_store (λ s.
          Idempotency.complete_audit (scoped_key host cfg intent correlation_id now)
            (payload_hash host cfg intent correlation_id now) s)
      pure result

    abbrev pub conclude : Progress N → M N S (BrokerExecutionResult N)
    conclude (settled result) = pure result
    conclude (terminal result event) = finish_execution_with_audit result event

    abbrev pub proceed :
        Option DryRunAuthorization
        → Option String
        → Option (BrokerExecutionResult N)
        → M N S (BrokerExecutionResult N)
    proceed authorization approval_id (some result) = pure result
    proceed authorization approval_id none = do
      progress ←
          on_throw (abort host cfg intent correlation_id now) (perform authorization approval_id)
      conclude progress

    -- All that follows a new reservation.
    unfoldable pub run_reserved :
        Option DryRunAuthorization → Option String → M N S (BrokerExecutionResult N)
    unfolding ◌>>=◌ pure on_throw
    run_reserved authorization approval_id = do
      ended ←
          on_throw (abort host cfg intent correlation_id now)
            (authorise host cfg intent correlation_id now authorization approval_id)
      proceed authorization approval_id ended
