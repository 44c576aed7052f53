-- ===== src/Guardrail/Evaluate.antt =====
-- `evaluate` of service.ts, with the methods that it calls. A cached decision that is still a promise
-- ends the model of a call; the call goes on with `finalize_cached` when the promise is settled.
use agent_trading_guardrails.Base.{
  String, ◌==◌, Bool, true, false, not, Option, none, some, List, [], ◌∷◌, if◌then◌else◌,
}
use agent_trading_guardrails.Js.{JsNumber}
use agent_trading_guardrails.Js.Text.{template}
use agent_trading_guardrails.Schemas.{
  TradingIntent, envelope, Review, DynamicRiskResult, RiskCheckResult, RiskCheckStatus,
}
use agent_trading_guardrails.Schemas.Json.{Json, stable_json}
use agent_trading_guardrails.Broker.Decision.{same_environment}
use agent_trading_guardrails.Guardrail.Types.{deny, Reason, PolicyOutput, GuardrailDecision}
use agent_trading_guardrails.Guardrail.Idempotency
use agent_trading_guardrails.Guardrail.Idempotency.{Cached, missing, conflict, known, waiting}
use agent_trading_guardrails.Guardrail.Opa.{lacks_time, transform_opa_output}
use agent_trading_guardrails.Guardrail.Unsafe.{detect_unsafe_content}
use agent_trading_guardrails.Guardrail.Facts.{canonical_resource, idempotency_scope, policy_input}
use agent_trading_guardrails.Guardrail.Host.{
  EvaluationOptions, intent_received, reviewer_completed, risk_evaluated, policy_evaluated,
  intent_data, review_data, risk_data, policy_data, Parsed, invalid, parsed, GuardrailHost,
  GuardrailConfig,
}
use agent_trading_guardrails.Guardrail.World.{M, pure, throw, ask, catch, update_store, ◌>>=◌, ◌>>◌}
use agent_trading_guardrails.Guardrail.Finish.{
  decided, awaiting, Evaluated, write_audit, intent_event, finalize_invalid_decision,
  finalize_decision, scope, abort_decision, conclude, finalize_cached, conclude_policy,
}

abbrev pub reason : String → String → Reason
reason rule message = record { rule = rule; message = message }

-- A decision with the outcome "deny".
abbrev pub denial :
    {N : Type 0}
    → (intent_id correlation_id decided_at : String) → List Reason
    → Option Review
    → Option (DynamicRiskResult N)
    → GuardrailDecision N
denial intent_id correlation_id decided_at reasons review risk = record {
  intent_id = intent_id;
  correlation_id = correlation_id;
  outcome = deny;
  reasons = reasons;
  requires_human_approval = false;
  approval_id = none;
  reviewer_verdict = review;
  policy_output = none;
  risk_result = risk;
  decided_at = decided_at;
  decision_token = none;
  dry_run = false;
}

abbrev or_first : Option String → List String → Option String
or_first (some s) ss = some s
or_first none [] = none
or_first none (s ∷ ss) = some s

abbrev is_passed : RiskCheckStatus → Bool
is_passed RiskCheckStatus.pass = true
is_passed _ = false

abbrev risk_message : String → Option String → String
risk_message check none = template ("Risk check " ∷ check ∷ " failed." ∷ [])
risk_message check (some message) = message

module _ {N : Type 0} where
  -- The reasons of a risk result that did not pass.
  unfoldable pub risk_reasons : List (RiskCheckResult N) → List Reason
  unfolding template
  risk_reasons [] = []
  risk_reasons (c ∷ cs) =
      let rest = risk_reasons cs in
      if is_passed c.status
      then rest
      else reason (template ("risk_" ∷ c.check ∷ [])) (risk_message c.check c.message) ∷ rest

module _ {N S : Type 0} ⦃number : JsNumber N⦄ (host : GuardrailHost N S)
    (cfg : GuardrailConfig) where
  module _ (intent : TradingIntent N) (ctx : EvaluationOptions) (hash : String) where
    module _ (correlation_id now : String) where
      abbrev pub denied :
          Reason → Option Review → Option (DynamicRiskResult N) → GuardrailDecision N
      denied r review risk =
          denial (envelope intent).intent_id correlation_id now (r ∷ []) review risk

      abbrev pub decision_of : Review → DynamicRiskResult N → PolicyOutput → GuardrailDecision N
      decision_of review risk p = record {
        intent_id = (envelope intent).intent_id;
        correlation_id = correlation_id;
        outcome = p.decision;
        reasons = p.reasons;
        requires_human_approval = p.requires_human_approval;
        approval_id = none;
        reviewer_verdict = some review;
        policy_output = some p;
        risk_result = some risk;
        decided_at = now;
        decision_token = none;
        dry_run = false;
      }

      abbrev pub transformed : Option (Json N) → String → Option PolicyOutput
      transformed none now = none
      transformed (some raw) now = transform_opa_output host.is_datetime now raw

      -- The steps after the policy's answer, after the risk engine's, the reviewer's and the health.
      abbrev pub after_policy :
          Review → DynamicRiskResult N → Option PolicyOutput → M N S (Evaluated N)
      after_policy review risk none = conclude host cfg intent ctx hash (
          denied (reason "policy_evaluation_failed" "Policy evaluation failed.") (some review)
            (some risk))
      after_policy review risk (some p) = do
        write_audit host cfg (
            intent_event host cfg intent correlation_id ctx policy_evaluated
              (policy_data (policy_input host intent review risk) p))
        conclude_policy host cfg intent ctx hash (decision_of review risk p)

      -- The time that stands for a missing `evaluatedAt`; the others are not asked of the clock.
      abbrev pub policy_time_of : Option (Json N) → M N S String
      policy_time_of none = pure ""
      policy_time_of (some raw) = if lacks_time raw then ask host.clock else pure ""

      unfoldable pub ask_policy : Review → DynamicRiskResult N → M N S (Evaluated N)
      unfolding ask pure lacks_time transform_opa_output conclude conclude_policy write_audit
          policy_input ◌>>=◌
      ask_policy review risk = do
        raw ← ask (host.policy_evaluate (policy_input host intent review risk))
        policy_time ← policy_time_of raw
        after_policy review risk (transformed raw policy_time)

      abbrev pub after_risk : Review → Option (DynamicRiskResult N) → M N S (Evaluated N)
      after_risk review none = conclude host cfg intent ctx hash (
          denied (reason "risk_check_unavailable" "Required risk facts are unavailable.")
            (some review) none)
      after_risk review (some risk) = do
        write_audit host cfg
            (intent_event host cfg intent correlation_id ctx risk_evaluated (risk_data risk))
        (if not risk.passed
            then conclude host cfg intent ctx hash (
                denial (envelope intent).intent_id correlation_id now (risk_reasons risk.checks)
                  (some review) (some risk))
            else ask_policy review risk)

      abbrev pub after_review : Option Review → M N S (Evaluated N)
      after_review none =
          conclude host cfg intent ctx hash
            (denied (reason "reviewer_unavailable" "Reviewer agent is unavailable.") none none)
      after_review (some review) = do
        write_audit host cfg (
            intent_event host cfg intent correlation_id ctx reviewer_completed (review_data review))
        risk ← ask (host.risk_evaluate intent review)
        after_risk review risk

      abbrev pub is_true : Option Bool → Bool
      is_true none = false
      is_true (some b) = b

      abbrev pub after_health : Option Bool → M N S (Evaluated N)
      after_health healthy =
          if not (is_true healthy)
          then conclude host cfg intent ctx hash
              (denied (reason "opa_unavailable" "Policy engine is unavailable.") none none)
          else (do review ← ask (host.review intent); after_review review)

      abbrev pub after_content : Option Reason → M N S (Evaluated N)
      after_content (some rejection) =
          conclude host cfg intent ctx hash (denied rejection none none)
      after_content none = do healthy ← ask host.is_healthy; after_health healthy

      -- The block of the outer `try`.
      unfoldable pub decide : M N S (Evaluated N)
      unfolding detect_unsafe_content conclude write_audit ask_policy ask risk_reasons ◌>>=◌
      decide = after_content (detect_unsafe_content intent)

      -- From the reservation on.
      unfoldable pub evaluate_reserved : M N S (Evaluated N)
      unfolding update_store Idempotency.reserve decide catch abort_decision throw idempotency_scope
          ◌>>=◌
      evaluate_reserved = do
        update_store (λ s.
            if ctx.dry_run then s else Idempotency.reserve (scope host cfg intent ctx hash) hash s)
        catch decide (λ fault. abort_decision host cfg intent ctx hash fault >> throw fault)

      abbrev pub after_lookup : Cached (GuardrailDecision N) → M N S (Evaluated N)
      after_lookup conflict = do
        finalized ←
            finalize_decision host cfg intent
              (denied
                (reason "idempotency_conflict" "Idempotency key reused with different payload.")
                none none)
              correlation_id ctx
        pure (decided finalized)
      after_lookup (known d) = finalize_cached host cfg intent ctx hash correlation_id d
      after_lookup (waiting i) = pure (awaiting i)
      after_lookup missing = evaluate_reserved

      -- From the event of the intent on.
      unfoldable pub evaluate_checked : M N S (Evaluated N)
      unfolding write_audit finalize_decision finalize_cached evaluate_reserved Idempotency.get
          idempotency_scope pure ◌>>=◌
      evaluate_checked = do
        write_audit host cfg (
            intent_event host cfg intent correlation_id
              (record ctx { input_ref = or_first ctx.input_ref (envelope intent).evidence })
              intent_received (intent_data intent))
        λ w.
            after_lookup
              (if ctx.dry_run
                then missing
                else Idempotency.get (scope host cfg intent ctx hash) hash w.idempotency)
              w

  abbrev pub invalid_decision :
      EvaluationOptions
      → (intent_id correlation_id now : String) → List Reason
      → M N S (Evaluated N)
  invalid_decision ctx intent_id correlation_id now reasons = do
    finalized ←
        finalize_invalid_decision host cfg ctx
          (denial intent_id correlation_id now reasons none none)
    pure (decided finalized)

  abbrev pub evaluate_parsed :
      EvaluationOptions → (hash correlation_id now : String) → Parsed N → M N S (Evaluated N)
  evaluate_parsed ctx hash correlation_id now (invalid issues) =
      invalid_decision ctx "" correlation_id now issues
  evaluate_parsed ctx hash correlation_id now (parsed intent) =
      if not ((envelope intent).resource == canonical_resource intent)
      then invalid_decision ctx (envelope intent).intent_id correlation_id now
          (reason "resource_mismatch" "Intent resource does not match intent fields." ∷ [])
      else if not (same_environment (envelope intent).environment cfg.environment)
      then invalid_decision ctx (envelope intent).intent_id correlation_id now (
          reason "environment_mismatch"
            "Intent environment does not match guardrail service environment."
          ∷ [])
      else evaluate_checked intent ctx hash correlation_id now

  abbrev pub or_generated : Option String → M N S String
  or_generated (some id) = pure id
  or_generated none = ask host.generate_correlation_id

  -- evaluate(rawIntent, auditContext)
  unfoldable pub evaluate : Json N → EvaluationOptions → M N S (Evaluated N)
  unfolding ask pure finalize_invalid_decision evaluate_checked canonical_resource stable_json ◌>>=◌
  evaluate raw ctx = do
    correlation_id ← or_generated ctx.correlation_id
    now ← ask host.clock
    evaluate_parsed ctx (stable_json host.locale_le raw) correlation_id now (host.safe_parse raw)
