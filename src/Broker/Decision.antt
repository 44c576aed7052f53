-- ===== src/Broker/Decision.antt =====
-- The pure guards of `ExecutionBroker.execute` in broker.ts: the authenticity and the age of the
-- guardrail's decision, and whether it fits the broker and the intent.
use agent_trading_guardrails.Base.{
  String, ◌==◌, Bool, true, false, not, ◌&&◌, ◌||◌, Option, none, some, if◌then◌else◌,
}
use agent_trading_guardrails.Js.{JsNumber}
use agent_trading_guardrails.Schemas.{
  Environment, canary_live, production, TradingIntent, envelope, action,
}
use agent_trading_guardrails.Schemas.Json.{
  Json, null, bool, str, obj, JsonFields, no_fields, field, stable_json,
}
use agent_trading_guardrails.Schemas.Encode.{intent_json, environment_text, action_text}
use agent_trading_guardrails.Approval.Types.{ApprovalRequest}
use agent_trading_guardrails.Broker.Host.{
  Host, BrokerConfig, GuardrailApproval, ApprovalIdField, absent, given, other,
}
use agent_trading_guardrails.Broker.DryRun.{is_hex64_any_case, same_digest, or_default}

-- a === b on environments
abbrev pub same_environment : Environment → Environment → Bool
same_environment a b = environment_text a == environment_text b

-- The rule and the message of a rejection.
pub record Refusal : Type 0 where
  pub rule : String
  pub message : String

abbrev pub refusal : String → String → Refusal
refusal rule message = record { rule = rule; message = message }

module _ {N S : Type 0} ⦃number : JsNumber N⦄ (host : Host N S) where
  -- `approvalId ?? null`
  abbrev approval_id_json : ApprovalIdField N → Json N
  approval_id_json absent = null
  approval_id_json (given id) = str id
  approval_id_json (other j) = j

  abbrev dry_run_field : Bool → JsonFields N
  dry_run_field true = field "dryRun" (bool true) no_fields
  dry_run_field false = no_fields

  unfoldable pub create_guardrail_decision_token :
      (secret : String)
      → TradingIntent N
      → (outcome correlation_id decided_at : String) → ApprovalIdField N
      → (dry_run : Bool) → String
  unfolding intent_json stable_json
  create_guardrail_decision_token secret intent outcome correlation_id decided_at approval_id
        dry_run =
      host.hmac_sha256 secret (
        stable_json host.locale_le (
          obj (
            field "intent" (obj (intent_json intent)) (
              field "outcome" (str outcome) (
                field "correlationId" (str correlation_id) (
                  field "decidedAt" (str decided_at) (
                    field "approvalId" (approval_id_json approval_id) (dry_run_field dry_run))))))))

  -- For a decision without the property "dryRun".
  unfoldable pub decision_token_matches :
      BrokerConfig N → GuardrailApproval N → TradingIntent N → Bool
  decision_token_matches cfg approval intent =
      is_hex64_any_case approval.decision_token
      && same_digest approval.decision_token (
          create_guardrail_decision_token cfg.decision_verification_secret intent approval.outcome
            approval.correlation_id approval.decided_at approval.approval_id false)

  -- 48 hours is the default age.
  unfoldable pub decision_is_stale : BrokerConfig N → String → String → Bool
  decision_is_stale cfg decided_at now =
      let decided_at_ms = host.date_parse decided_at in
      let now_ms = host.date_parse now in
      not (number.is_finite decided_at_ms)
      || number.lt (number.add now_ms (number.of_nat 60_000)) decided_at_ms
      || number.lt (or_default host (number.of_nat 172_800_000) cfg.decision_max_age_ms)
          (number.sub now_ms decided_at_ms)

  abbrev pub is_canary : BrokerConfig N → Bool
  is_canary cfg = same_environment cfg.environment canary_live

  -- From `if ("dryRun" in approval)` to the block of the canary environment.
  unfoldable pub decision_refusal :
      BrokerConfig N → GuardrailApproval N → TradingIntent N → String → Option Refusal
  decision_refusal cfg approval intent now =
      if approval.dry_run
      then some (refusal "dry_run_only" "A dry-run decision cannot execute.")
      else if not (approval.outcome == "allow") && not (approval.outcome == "needs_human")
      then some (refusal "broker_rejected" "Only approved decisions can be executed.")
      else if not (decision_token_matches cfg approval intent)
      then some (refusal "decision_token_invalid" "Guardrail decision token is invalid.")
      else if decision_is_stale cfg approval.decided_at now
      then some (refusal "decision_stale" "Guardrail decision is stale.")
      else if same_environment cfg.environment production
      then some (refusal "production_not_supported" "Production execution is not yet supported.")
      else if not (same_environment (envelope intent).environment cfg.environment)
      then some
          (refusal "environment_mismatch" "Intent environment does not match broker environment.")
      else if not (approval.intent_id == (envelope intent).intent_id)
      then some
          (refusal "approval_mismatch" "Approved decision does not match the execution intent.")
      else if is_canary cfg && not cfg.canary_live_enabled
      then some (refusal "canary_live_disabled" "Canary-live execution is not enabled.")
      else none

  -- What `approvalMatchesIntent` demands of the correlation id; `none` is `undefined`.
  abbrev correlates : Option String → ApprovalRequest N → Bool
  correlates none request = true
  correlates (some id) request = request.correlation_id == id

  unfoldable pub approval_matches_intent :
      ApprovalRequest N → TradingIntent N → Option String → Bool
  approval_matches_intent request intent correlation_id =
      request.intent_id == (envelope intent).intent_id
      && request.principal == (envelope intent).principal
      && request.action == action_text (action intent)
      && request.resource == (envelope intent).resource
      && same_environment request.environment (envelope intent).environment
      && correlates correlation_id request
      && stable_json host.locale_le (obj request.intent_data)
        == stable_json host.locale_le (obj (intent_json intent))
