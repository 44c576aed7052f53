-- ===== src/Broker/Execute/Connector.antt =====
-- The stages of `ExecutionBroker.execute` in broker.ts between the first look at the kill switch and
-- the answer of the connector.
use agent_trading_guardrails.Base.{
  String, ◌==◌, Bool, not, ◌&&◌, ◌||◌, Option, none, some, List, [], ◌∷◌, if◌then◌else◌,
}
use agent_trading_guardrails.Js.{JsNumber}
use agent_trading_guardrails.Schemas.{TradingIntent, is_place_order}
use agent_trading_guardrails.Broker.Types.{
  KillSwitchScope, BrokerExecutionResult, BrokerAuditEvent, Evidence, broker_failed,
  broker_revalidated, killswitch_blocked, scope_data, revalidation_data, reason_data,
}
use agent_trading_guardrails.Broker.Host.{
  Host, BrokerConfig, Revalidation, DryRunAuthorization, ConnectorStep, before_side_effect,
  side_effect, ConnectorEnd, answers, throws_revalidation, throws_other,
}
use agent_trading_guardrails.Broker.World.{
  M, connector_revalidation, connector_fault, revalidation_fault, approval_fault,
  asked_revalidation, consumed, called_connector, acted, Outcome, returned, threw, pure, throw, ask,
  from_option, catching, log, ◌>>=◌, ◌>>◌,
}
use agent_trading_guardrails.Broker.Preflight.{audit, first_blocking, get_kill_switch_scopes}
use agent_trading_guardrails.Broker.DryRun.{dry_run_is_fresh}
use agent_trading_guardrails.Broker.Decision.{is_canary}
use agent_trading_guardrails.Broker.Execute.Evidence.{subject}
use agent_trading_guardrails.Broker.Execute.Stages.{
  non_empty_reason, audit_event, scoped_key, finish_rejected, abort_rejected,
}

module _ {N S : Type 0} ⦃number : JsNumber N⦄ (host : Host N S) (cfg : BrokerConfig N)
    (intent : TradingIntent N) (correlation_id now : String) where
  abbrev pub redacted : Option String → Option String
  redacted none = none
  redacted (some reason) = if reason == "" then none else some (host.redact_secrets reason)

  abbrev pub revalidated_event : Revalidation → BrokerAuditEvent N
  revalidated_event revalidation =
      audit_event host cfg (subject intent) correlation_id broker_revalidated
        (revalidation_data revalidation.passed (redacted revalidation.reason))

  abbrev pub failed_event : String → BrokerAuditEvent N
  failed_event reason =
      audit_event host cfg (subject intent) correlation_id broker_failed (reason_data reason)

  abbrev pub revalidation_reason : Revalidation → String
  revalidation_reason revalidation =
      non_empty_reason host cfg revalidation.reason "Broker-side revalidation failed."

  -- `connector.revalidate` and the audit of its answer.
  unfoldable pub revalidate : M N S (Option (BrokerExecutionResult N))
  unfolding ◌>>=◌ pure ask from_option log
  revalidate = do
    log (asked_revalidation intent)
    answer ← ask (host.revalidate intent)
    revalidation ← from_option revalidation_fault answer
    audit host (revalidated_event revalidation)
    (if revalidation.passed then pure none else (do
      audit host (failed_event (revalidation_reason revalidation))
      result ←
          finish_rejected host cfg intent correlation_id now "revalidation_failed"
            (revalidation_reason revalidation)
      pure (some result)))

  abbrev pub checked_at_of : Option DryRunAuthorization → String
  checked_at_of none = ""
  checked_at_of (some authorization) = authorization.checked_at

  abbrev pub is_canary_order : Bool
  is_canary_order = is_canary host cfg && is_place_order intent

  -- Whether the order is no canary order, or its dry run is fresh at this time.
  unfoldable pub dry_run_still_fresh : Option DryRunAuthorization → String → Bool
  dry_run_still_fresh authorization read_at =
      not is_canary_order
      || dry_run_is_fresh host (checked_at_of authorization) read_at cfg.decision_max_age_ms

  -- The second look at the dry run's age.
  unfoldable pub recheck_dry_run :
      Option DryRunAuthorization → M N S (Option (BrokerExecutionResult N))
  unfolding ◌>>=◌ pure ask
  recheck_dry_run authorization = do
    read_at ← ask host.clock
    (if dry_run_still_fresh authorization read_at then pure none else (do
      result ←
          abort_rejected host cfg intent correlation_id now "dry_run_expired"
            "Dry-run report expired during broker revalidation."
      pure (some result)))

  abbrev pub taken_answer : String → Option Bool → M N S (Option (BrokerExecutionResult N))
  taken_answer id answer = do
    taken ← from_option approval_fault answer
    (if taken then log (consumed id) >> pure none else (do
      result ←
          finish_rejected host cfg intent correlation_id now "approval_consumed"
            "Human approval has already been used."
      pure (some result)))

  -- `consumeOneTime`, if there is an approval.
  unfoldable pub consume_approval : Option String → M N S (Option (BrokerExecutionResult N))
  unfolding ◌>>=◌ pure ask from_option log
  consume_approval none = pure none
  consume_approval (some id) = do answer ← ask (host.consume_one_time id); taken_answer id answer

  abbrev pub assert_not_blocked : Outcome (Option KillSwitchScope) → M N S (Unit {0})
  assert_not_blocked (returned none) = pure tt
  assert_not_blocked (returned (some scope)) = do
    audit host
        (audit_event host cfg (subject intent) correlation_id killswitch_blocked (scope_data scope))
    throw (connector_revalidation "Kill switch is active.")
  assert_not_blocked (threw fault) = throw (connector_revalidation "Kill switch is not reachable.")

  -- The callback that the connector runs before a side effect: assertKillSwitchAllowsExecution
  -- and the third look at the dry run's age. Only a reading of the switch throws in the loop.
  unfoldable pub before_connector_side_effect : Option DryRunAuthorization → M N S (Unit {0})
  unfolding ◌>>=◌ pure ask throw catching
  before_connector_side_effect authorization = do
    blocked ← catching (first_blocking host intent (get_kill_switch_scopes intent))
    assert_not_blocked blocked
    read_at ← ask host.clock
    (if dry_run_still_fresh authorization read_at
        then pure tt
        else throw (connector_revalidation "Dry-run report expired before submission."))

  abbrev pub run_step : Option DryRunAuthorization → ConnectorStep → M N S (Unit {0})
  run_step authorization before_side_effect = before_connector_side_effect authorization
  run_step authorization side_effect = log (acted intent)

  unfoldable pub run_steps : Option DryRunAuthorization → List ConnectorStep → M N S (Unit {0})
  unfolding ◌>>=◌ pure log
  run_steps authorization [] = pure tt
  run_steps authorization (step ∷ steps) =
      let rest = run_steps authorization steps in run_step authorization step >> rest

  abbrev pub end_run : ConnectorEnd N → M N S (Evidence N)
  end_run (answers evidence) = pure evidence
  end_run (throws_revalidation explanation) = throw (connector_revalidation explanation)
  end_run (throws_other explanation) = throw (connector_fault explanation)

  abbrev pub after_call : Option DryRunAuthorization → M N S (Evidence N)
  after_call authorization = do
    plan ← ask (host.connector_plan intent)
    run_steps authorization plan.steps
    end_run plan.end

  -- `connector.execute(intent, callback)`
  unfoldable pub call_connector : Option DryRunAuthorization → M N S (Evidence N)
  unfolding ◌>>=◌ pure ask log throw
  call_connector authorization = do
    log (called_connector (scoped_key host cfg intent correlation_id now) intent)
    after_call authorization
