-- ===== src/Broker/Rehearsal.antt =====
-- `ExecutionBroker.dryRun` of broker.ts, and what its constructor tests. The approval is a
-- `GuardrailDryRunApproval`: `dry_run` is whether its property "dryRun" is true. It has no approval id.
pub mod Inverse
pub mod Readings
pub mod Finished
pub mod Laws
pub mod Accepted
use agent_trading_guardrails.Base.{
  String, ◌==◌, Bool, true, false, not, ◌&&◌, ◌||◌, Option, none, some, List, [], ◌∷◌, ◌++◌, length,
  ltb, if◌then◌else◌,
}
use agent_trading_guardrails.Js.{JsNumber}
use agent_trading_guardrails.Js.Text.{codes, is_empty}
use agent_trading_guardrails.Schemas.{Environment, dev, production, TradingIntent, envelope}
use agent_trading_guardrails.Broker.Types.{
  KillSwitchScope, BrokerAuditEvent, broker_dry_run, dry_run_data, PreflightCheckResult,
}
use agent_trading_guardrails.Broker.Keys.{units}
use agent_trading_guardrails.Broker.Host.{
  Host, BrokerConfig, GuardrailApproval, absent, Revalidation, DryRunAuthorization,
}
use agent_trading_guardrails.Broker.DryRun.{
  is_hex64_any_case, same_digest, dry_run_is_fresh, create_dry_run_authorization,
}
use agent_trading_guardrails.Broker.Decision.{
  same_environment, is_canary, create_guardrail_decision_token,
}
use agent_trading_guardrails.Broker.World.{
  M, Outcome, returned, threw, revalidation_fault, pure, ask, from_option, catching, ◌>>=◌,
}
use agent_trading_guardrails.Broker.Preflight.{
  audit, first_blocking, get_kill_switch_scopes, all_passed, preflight,
}
use agent_trading_guardrails.Broker.Execute.Stages.{non_empty_reason}

-- assertDecisionSecret: the message that is thrown, if any
unfoldable pub assert_decision_verification_secret : Environment → String → Option String
unfolding units
assert_decision_verification_secret environment secret =
    if is_empty secret
    then some "Guardrail decision verification secret is required."
    else if not (same_environment environment dev) && secret == "dev-decision-secret"
    then some "Default guardrail decision verification secret cannot be used outside dev."
    else if not (same_environment environment dev) && ltb (length (units (codes secret))) 32
    then some "Guardrail decision verification secret must be at least 32 characters outside dev."
    else none

-- `BrokerDryRunResult`
pub record DryRunReport : Type 0 where
  pub intent_id : String
  pub correlation_id : String
  pub checked_at : String
  pub passed : Bool
  pub requires_human_approval : Bool
  pub checks : List PreflightCheckResult
  pub authorization : Option DryRunAuthorization

abbrev pub passes : String → PreflightCheckResult
passes check = record { check = check; passed = true; message = none }

abbrev pub fails : String → String → PreflightCheckResult
fails check message = record { check = check; passed = false; message = some message }

abbrev pub check_if : String → Bool → String → PreflightCheckResult
check_if check passed message = if passed then passes check else fails check message

module _ {N S : Type 0} ⦃number : JsNumber N⦄ (host : Host N S) (cfg : BrokerConfig N)
    (approval : GuardrailApproval N) where
  unfoldable pub dry_run_token_matches : TradingIntent N → Bool
  unfolding create_guardrail_decision_token
  dry_run_token_matches intent =
      is_hex64_any_case approval.decision_token
      && same_digest approval.decision_token (
          create_guardrail_decision_token host cfg.decision_verification_secret intent
            approval.outcome approval.correlation_id approval.decided_at absent approval.dry_run)

  unfoldable pub valid_decision : String → TradingIntent N → Bool
  unfolding dry_run_token_matches
  valid_decision now intent =
      approval.dry_run
      && approval.intent_id == (envelope intent).intent_id
      && (approval.outcome == "allow" || approval.outcome == "needs_human")
      && dry_run_is_fresh host approval.decided_at now cfg.decision_max_age_ms
      && dry_run_token_matches intent

  unfoldable pub environment_matches : TradingIntent N → Bool
  environment_matches intent =
      same_environment (envelope intent).environment cfg.environment
      && not (same_environment cfg.environment production)
      && (not (is_canary host cfg) || cfg.canary_live_enabled)

  abbrev fields_of : {A : Type 0} → (TradingIntent N → A) → Option (TradingIntent N) → Option A
  fields_of f none = none
  fields_of f (some intent) = some (f intent)

  -- The check that `finish` adds when the decision has become too old.
  abbrev freshness_checks : Bool → List PreflightCheckResult
  freshness_checks true = []
  freshness_checks false =
      fails "decision_freshness" "Dry-run decision expired during broker revalidation." ∷ []

  abbrev pub report : String → Bool → List PreflightCheckResult → DryRunReport
  report checked_at passed checks = record {
    intent_id = approval.intent_id;
    correlation_id = approval.correlation_id;
    checked_at = checked_at;
    passed = passed;
    requires_human_approval = approval.outcome == "needs_human";
    checks = checks;
    authorization = none;
  }

  -- Whether the decision was still fresh at the end; a report that failed is not asked.
  abbrev pub still_fresh : List PreflightCheckResult → String → Bool
  still_fresh checks checked_at =
      not (all_passed host checks)
      || dry_run_is_fresh host approval.decided_at checked_at cfg.decision_max_age_ms

  abbrev pub written : List PreflightCheckResult → String → DryRunReport
  written checks checked_at =
      report checked_at (all_passed host checks && still_fresh checks checked_at)
        (checks ++ freshness_checks (still_fresh checks checked_at))

  abbrev pub dry_run_event : Option (TradingIntent N) → DryRunReport → BrokerAuditEvent N
  dry_run_event intent r = record {
    event_id = none;
    event_type = broker_dry_run;
    environment = cfg.environment;
    intent_id = fields_of (λ i. (envelope i).intent_id) intent;
    principal = fields_of (λ i. (envelope i).principal) intent;
    correlation_id = approval.correlation_id;
    content =
        dry_run_data r.intent_id r.correlation_id r.checked_at r.passed r.requires_human_approval
          r.checks;
  }

  -- The authorization of a report that passed.
  abbrev pub authorized : Option (TradingIntent N) → DryRunReport → DryRunReport
  authorized none r = r
  authorized (some intent) r =
      if r.passed
      then record r {
        authorization = some (
            create_dry_run_authorization host cfg.decision_verification_secret intent r.checked_at);
      }
      else r

  abbrev pub audited : DryRunReport → Outcome (Unit {0}) → DryRunReport
  audited r (returned u) = r
  audited r (threw fault) = record r {
    passed = false;
    checks = r.checks ++ fails "audit" "Dry-run audit could not be written." ∷ [];
  }

  -- The function `finish` of `dryRun`.
  unfoldable pub finish_dry_run :
      Option (TradingIntent N) → List PreflightCheckResult → M N S DryRunReport
  unfolding ask catching pure ◌>>=◌ create_dry_run_authorization
  finish_dry_run intent checks = do
    checked_at ← ask host.clock
    outcome ← catching (audit host (dry_run_event intent (written checks checked_at)))
    pure (authorized intent (audited (written checks checked_at) outcome))

  abbrev connector_check : Revalidation → PreflightCheckResult
  connector_check validation =
      check_if "connector" validation.passed
        (non_empty_reason host cfg validation.reason "Connector revalidation failed.")

  abbrev revalidation_failed : List PreflightCheckResult
  revalidation_failed =
      fails "broker_revalidation" "Broker revalidation or kill-switch reachability failed." ∷ []

  abbrev is_open : Outcome (Option KillSwitchScope) → List PreflightCheckResult
  is_open (returned none) = passes "late_kill_switch" ∷ []
  is_open (returned (some scope)) = fails "late_kill_switch" "Kill switch is active." ∷ []
  is_open (threw fault) = revalidation_failed

  abbrev pub after_revalidation :
      TradingIntent N → Option Revalidation → M N S (List PreflightCheckResult)
  after_revalidation intent none = pure revalidation_failed
  after_revalidation intent (some validation) = do
    blocked ← catching (first_blocking host intent (get_kill_switch_scopes intent))
    pure (connector_check validation ∷ is_open blocked)

  -- The block `try` of `dryRun`: the checks that it adds.
  unfoldable pub broker_revalidation : TradingIntent N → M N S (List PreflightCheckResult)
  unfolding ask catching pure ◌>>=◌ non_empty_reason
  broker_revalidation intent = do
    answer ← ask (host.revalidate intent)
    after_revalidation intent answer

  abbrev pub decision_check : Bool → PreflightCheckResult
  decision_check valid =
      check_if "decision" valid "A fresh, authentic dry-run decision is required."

  abbrev pub environment_check : Bool → PreflightCheckResult
  environment_check matches =
      check_if "environment" matches "Broker environment is mismatched or execution is disabled."

  abbrev pub after_preflight :
      TradingIntent N
      → List PreflightCheckResult
      → Bool × List PreflightCheckResult
      → M N S DryRunReport
  after_preflight intent checks (passed, preflight_checks) =
      if not passed then finish_dry_run (some intent) (checks ++ preflight_checks) else (do
        late ← broker_revalidation intent
        finish_dry_run (some intent) (checks ++ preflight_checks ++ late))

  unfoldable pub dry_run_checked : TradingIntent N → List PreflightCheckResult → M N S DryRunReport
  unfolding finish_dry_run broker_revalidation pure ◌>>=◌
  dry_run_checked intent checks = do
    preflight_result ←
        (if is_canary host cfg
          then preflight host cfg intent approval.correlation_id
          else pure (true, []))
    after_preflight intent checks preflight_result

  abbrev pub dry_run_of : String → Option (TradingIntent N) → M N S DryRunReport
  dry_run_of now none = finish_dry_run none (decision_check false ∷ [])
  dry_run_of now (some intent) =
      if not (valid_decision now intent)
      then finish_dry_run (some intent) (decision_check false ∷ [])
      else if not (environment_matches intent)
      then finish_dry_run (some intent) (decision_check true ∷ environment_check false ∷ [])
      else dry_run_checked intent (decision_check true ∷ environment_check true ∷ [])

  -- dryRun(approval)
  unfoldable pub dry_run : M N S DryRunReport
  unfolding ask finish_dry_run dry_run_checked valid_decision environment_matches ◌>>=◌
  dry_run = do now ← ask host.clock; dry_run_of now approval.intent
