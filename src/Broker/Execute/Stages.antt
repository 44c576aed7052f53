-- ===== src/Broker/Execute/Stages.antt =====
-- The stages of `ExecutionBroker.execute` in broker.ts that follow the reservation, and the stage
-- before it.
use agent_trading_guardrails.Base.{String, Bool, not, ◌&&◌, ◌||◌, Option, none, some, if◌then◌else◌}
use agent_trading_guardrails.Js.{JsNumber}
use agent_trading_guardrails.Js.Text.{is_empty, trim}
use agent_trading_guardrails.Schemas.{TradingIntent, envelope, is_place_order}
use agent_trading_guardrails.Approval.Types.{ApprovalRequest, is_approved, is_consumed, is_one_time}
use agent_trading_guardrails.Broker.Types.{
  KillSwitchScope, BrokerExecutionResult, BrokerAuditEvent, broker_failed, killswitch_blocked,
  scope_data, rejection_data, AuditEventType, AuditData,
}
use agent_trading_guardrails.Broker.Host.{Host, BrokerConfig, DryRunAuthorization}
use agent_trading_guardrails.Broker.Idempotency
use agent_trading_guardrails.Broker.Keys.{scope_idempotency_key, hash_intent_payload}
use agent_trading_guardrails.Broker.World.{
  M, Fault, approval_fault, message, pure, ask, from_option, update_store, ◌>>=◌, ◌>>◌,
}
use agent_trading_guardrails.Broker.Preflight.{audit, first_blocking, get_kill_switch_scopes}
use agent_trading_guardrails.Broker.DryRun.{dry_run_authorization_matches}
use agent_trading_guardrails.Broker.Decision.{is_canary, approval_matches_intent}
use agent_trading_guardrails.Broker.Execute.Evidence.{Subject, subject, rejected_result}

module _ {N S : Type 0} ⦃number : JsNumber N⦄ (host : Host N S) (cfg : BrokerConfig N) where
  -- nonEmptyReason(value, fallback)
  unfoldable pub non_empty_reason : Option String → String → String
  unfolding trim
  non_empty_reason none fallback = host.redact_secrets fallback
  non_empty_reason (some reason) fallback =
      host.redact_secrets (if is_empty (trim reason) then fallback else trim reason)

  abbrev pub audit_event : Subject → String → AuditEventType → AuditData N → BrokerAuditEvent N
  audit_event s correlation_id event_type content = record {
    event_id = none;
    event_type = event_type;
    environment = cfg.environment;
    intent_id = some s.intent_id;
    principal = some s.principal;
    correlation_id = correlation_id;
    content = content;
  }

  -- reject(intent, now, correlationId, rule, message)
  unfoldable pub reject :
      Subject → String → String → String → String → M N S (BrokerExecutionResult N)
  unfolding ◌>>=◌ pure
  reject s now correlation_id rule explanation = do
    let reason = non_empty_reason (some explanation) "Broker rejected execution."
    audit host (audit_event s correlation_id broker_failed (rejection_data rule reason))
    pure (rejected_result s now reason)

  module _ (intent : TradingIntent N) (correlation_id now : String) where
    abbrev pub scoped_key : String
    scoped_key = scope_idempotency_key (envelope intent).idempotency_key intent

    abbrev pub payload_hash : String
    payload_hash = hash_intent_payload host.sha256 intent

    -- finish(result), of a reservation
    unfoldable pub finish : BrokerExecutionResult N → M N S (BrokerExecutionResult N)
    unfolding ◌>>=◌ pure update_store
    finish result = do
      update_store (λ s. Idempotency.complete scoped_key payload_hash result none s)
      pure result

    -- reservation.abort(error)
    unfoldable pub abort : Fault → M N S (Unit {0})
    unfolding update_store
    abort fault = update_store (λ s. Idempotency.abort scoped_key payload_hash fault s)

    -- `return finish(this.reject(...))`
    unfoldable pub finish_rejected : String → String → M N S (BrokerExecutionResult N)
    unfolding ◌>>=◌
    finish_rejected rule explanation = do
      result ← reject (subject intent) now correlation_id rule explanation
      finish result

    abbrev pub reason_of : Option String → String
    reason_of none = ""
    reason_of (some reason) = reason

    -- A rejection after which the key is free again.
    unfoldable pub abort_rejected : String → String → M N S (BrokerExecutionResult N)
    unfolding ◌>>=◌ pure
    abort_rejected rule explanation = do
      result ← reject (subject intent) now correlation_id rule explanation
      abort (message (reason_of result.rejection_reason))
      pure result

    abbrev pub is_expired : ApprovalRequest N → String → Bool
    is_expired request read_at =
        number.lt (host.date_parse request.timeout_at) (host.date_parse read_at)

    abbrev pub misfits : ApprovalRequest N → Bool
    misfits request =
        not (is_one_time request.approval_type)
        || not (approval_matches_intent host request intent (some correlation_id))

    -- The end of the execution with one of the two kinds of rejection.
    abbrev pub ends_finished : String → String → M N S (Option (BrokerExecutionResult N))
    ends_finished rule explanation = do
      result ← finish_rejected rule explanation
      pure (some result)

    abbrev pub ends_aborted : String → String → M N S (Option (BrokerExecutionResult N))
    ends_aborted rule explanation = do result ← abort_rejected rule explanation; pure (some result)

    -- The stage between `approvalStore.get` and its end, for the request that was found.
    unfoldable pub judge_approval :
        Option (ApprovalRequest N) → String → M N S (Option (BrokerExecutionResult N))
    unfolding ◌>>=◌ pure
    judge_approval none read_at =
        ends_aborted "approval_missing" "Human approval is required before execution."
    judge_approval (some request) read_at =
        if is_consumed request.state
        then ends_finished "approval_consumed" "Human approval has already been used."
        else if not (is_approved request.state)
        then ends_aborted "approval_missing" "Human approval is required before execution."
        else if is_expired request read_at
        then ends_finished "approval_expired" "Human approval has expired."
        else if misfits request
        then ends_finished "approval_mismatch" "Human approval does not match the execution intent."
        else pure none

    abbrev pub judge_approval_id : Option String → M N S (Option (BrokerExecutionResult N))
    judge_approval_id none = pure none
    judge_approval_id (some id) = do
      answer ← ask (host.approval_get id)
      found ← from_option approval_fault answer
      read_at ← ask host.clock
      judge_approval found read_at

    -- The first `try` block after the reservation: the dry-run authorization of a canary order, and
    -- the human approval. The answer is the result with which `execute` ends there.
    unfoldable pub authorise :
        Option DryRunAuthorization → Option String → M N S (Option (BrokerExecutionResult N))
    unfolding ◌>>=◌ pure ask from_option
    authorise authorization approval_id =
        if (is_canary host cfg && is_place_order intent)
          && not (
              dry_run_authorization_matches host authorization cfg.decision_verification_secret
                intent now cfg.decision_max_age_ms)
        then ends_aborted "dry_run_required"
            "A fresh successful dry-run report is required for this live order."
        else judge_approval_id approval_id

    abbrev pub blocked_answer : Option KillSwitchScope → M N S (Option (BrokerExecutionResult N))
    blocked_answer none = pure none
    blocked_answer (some scope) = do
      audit host (audit_event (subject intent) correlation_id killswitch_blocked (scope_data scope))
      result ← finish_rejected "killswitch_active" "Kill switch is active."
      pure (some result)

    -- One of the two loops over the scopes.
    unfoldable pub pass_kill_switch : M N S (Option (BrokerExecutionResult N))
    unfolding ◌>>=◌ pure
    pass_kill_switch = do
      blocked ← first_blocking host intent (get_kill_switch_scopes intent)
      blocked_answer blocked
