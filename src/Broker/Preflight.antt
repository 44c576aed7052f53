-- ===== src/Broker/Preflight.antt =====
-- packages/broker/src/preflight.ts: the scopes of the kill switch that an intent falls under, the
-- reading of the switch, and `LiveModePreflightCheck`.
use agent_trading_guardrails.Base.{
  String, ◌==◌, Bool, true, false, not, ◌&&◌, Option, none, some, List, [], ◌∷◌, ◌++◌, every,
  if◌then◌else◌,
}
use agent_trading_guardrails.Schemas.{
  TradingIntent, envelope, account_of, exchange_of, chain_of, is_cancel_order,
}
use agent_trading_guardrails.Schemas.Encode.{chain_text}
use agent_trading_guardrails.Broker.Types.{
  KillSwitchScope, global, agent, account, exchange, chain, PreflightCheckResult, BrokerAuditEvent,
  broker_preflight, preflight_data,
}
use agent_trading_guardrails.Broker.Host.{
  Host, BrokerConfig, Reading, says, not_boolean, unreadable, LiveApprovals,
}
use agent_trading_guardrails.Broker.World.{
  M, wrote, read_switch, audit_fault, kill_switch_unreachable, Outcome, returned, threw, pure,
  throw, ask, catching, log, ◌>>=◌, ◌>>◌,
}

abbrev pub scope_if : {A : Type 0} → (A → KillSwitchScope) → Option A → List KillSwitchScope
scope_if f none = []
scope_if f (some a) = f a ∷ []

module _ {N : Type 0} where
  unfoldable pub get_kill_switch_scopes : TradingIntent N → List KillSwitchScope
  get_kill_switch_scopes intent =
      global
      ∷ agent (envelope intent).principal
      ∷ (scope_if exchange (exchange_of intent)
          ++ (scope_if account (account_of intent)
              ++ scope_if (λ c. chain (chain_text c)) (chain_of intent)))

module _ {N S : Type 0} (host : Host N S) where
  abbrev pub after_write : BrokerAuditEvent N → Option String → M N S (Unit {0})
  after_write event none = log (wrote event)
  after_write event (some error) = throw (audit_fault error)

  -- A call of `audit.write`, which is a fault if the writer throws.
  unfoldable pub audit : BrokerAuditEvent N → M N S (Unit {0})
  unfolding ◌>>=◌ ask log throw
  audit event = do error ← ask (host.audit_write event); after_write event error

  abbrev pub blocking : TradingIntent N → Reading → M N S Bool
  blocking intent (says active) = pure (active && not (is_cancel_order intent))
  blocking intent not_boolean = throw kill_switch_unreachable
  blocking intent unreadable = throw kill_switch_unreachable

  -- `readKillSwitchBlocking`: cancellation may proceed during a known stop, never with an unknown
  -- controller state.
  unfoldable pub read_kill_switch_blocking : KillSwitchScope → TradingIntent N → M N S Bool
  unfolding ◌>>=◌ ask log throw pure
  read_kill_switch_blocking scope intent = do
    reading ← ask (host.is_active scope)
    log (read_switch scope reading)
    blocking intent reading

  -- The loop over the scopes, up to the first that blocks.
  unfoldable pub first_blocking :
      TradingIntent N → List KillSwitchScope → M N S (Option KillSwitchScope)
  unfolding ◌>>=◌ pure
  first_blocking intent [] = pure none
  first_blocking intent (scope ∷ scopes) =
      let rest = first_blocking intent scopes in
      do
        blocked ← read_kill_switch_blocking scope intent
        (if blocked then pure (some scope) else rest)

  abbrev pub check_passed : String → PreflightCheckResult
  check_passed check = record { check = check; passed = true; message = none }

  abbrev pub check_failed : String → String → PreflightCheckResult
  check_failed check message = record { check = check; passed = false; message = some message }

  abbrev pub kill_switch_result : Outcome (Option KillSwitchScope) → PreflightCheckResult
  kill_switch_result (returned none) = check_passed "kill_switch"
  kill_switch_result (returned (some scope)) = check_failed "kill_switch" "Kill switch is active."
  kill_switch_result (threw fault) = check_failed "kill_switch" "Kill switch is not reachable."

  -- checkKillSwitch()
  unfoldable pub check_kill_switch : TradingIntent N → M N S PreflightCheckResult
  unfolding ◌>>=◌ pure catching
  check_kill_switch intent = do
    outcome ← catching (first_blocking intent (get_kill_switch_scopes intent))
    pure (kill_switch_result outcome)

  abbrev pub audit_probe : Option (S → Bool × S) → M N S PreflightCheckResult
  audit_probe none = pure (check_failed "audit" "Audit writer health check is not available.")
  audit_probe (some probe) = do
    healthy ← ask probe
    pure (
        if healthy
        then check_passed "audit"
        else check_failed "audit" "Audit writer health check failed.")

  -- checkAudit()
  unfoldable pub check_audit : M N S PreflightCheckResult
  unfolding ◌>>=◌ pure ask
  check_audit = audit_probe host.audit_health

  abbrev pub approval_probe : Option (LiveApprovals S) → M N S PreflightCheckResult
  approval_probe none =
      pure (check_failed "approval" "Approval store health check is not available.")
  approval_probe (some store) =
      if not store.live_configured
      then pure
          (check_failed "approval" "Approval store is not explicitly configured for live trading.")
      else (do
        healthy ← ask store.check_health
        pure (
            if healthy
            then check_passed "approval"
            else check_failed "approval" "Approval store health check failed."))

  -- checkApproval()
  unfoldable pub check_approval : M N S PreflightCheckResult
  unfolding ◌>>=◌ pure ask
  check_approval = approval_probe host.live_approvals

  abbrev pub all_passed : List PreflightCheckResult → Bool
  all_passed = every (λ c. c.passed)

  abbrev pub written : Outcome (Unit {0}) → Bool
  written (returned u) = true
  written (threw fault) = false

  abbrev pub summary_event :
      BrokerConfig N → TradingIntent N → String → List PreflightCheckResult → BrokerAuditEvent N
  summary_event cfg intent correlation_id checks = record {
    event_id = none;
    event_type = broker_preflight;
    environment = cfg.environment;
    intent_id = some (envelope intent).intent_id;
    principal = some (envelope intent).principal;
    correlation_id = correlation_id;
    content = preflight_data (all_passed checks) checks;
  }

  -- writeSummary(passed, checks): nothing is written without a correlation id.
  unfoldable pub write_summary :
      BrokerConfig N → TradingIntent N → String → List PreflightCheckResult → M N S Bool
  unfolding ◌>>=◌ pure catching
  write_summary cfg intent correlation_id checks = if correlation_id == "" then pure false else (do
    outcome ← catching (audit (summary_event cfg intent correlation_id checks))
    pure (written outcome))

  -- recordFailedAuditCheck: the audit check that passed is replaced.
  unfoldable pub record_failed_audit_check :
      String → List PreflightCheckResult → List PreflightCheckResult
  record_failed_audit_check message [] = check_failed "audit" message ∷ []
  record_failed_audit_check message (c ∷ cs) =
      let rest = record_failed_audit_check message cs in
      if c.check == "audit"
      then (if c.passed then check_failed "audit" message ∷ cs else c ∷ cs)
      else c ∷ rest

  -- run()
  unfoldable pub preflight :
      BrokerConfig N → TradingIntent N → String → M N S (Bool × List PreflightCheckResult)
  unfolding ◌>>=◌ pure
  preflight cfg intent correlation_id = do
    kill_switch ← check_kill_switch intent
    audit_check ← check_audit
    approval ← check_approval
    let checks = kill_switch ∷ audit_check ∷ approval ∷ []
    summarised ← write_summary cfg intent correlation_id checks
    let final =
        if summarised
        then checks
        else record_failed_audit_check "Audit preflight summary could not be written." checks
    pure (all_passed final, final)
