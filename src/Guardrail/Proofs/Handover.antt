-- ===== src/Guardrail/Proofs/Handover.antt =====
-- The service and the broker together: a token that `createDecisionToken` of service.ts writes is one
-- that `decisionTokenMatches` of broker.ts accepts.
use agent_trading_guardrails.Base.{
  String, ◌≡◌, refl, ap, ◌∙◌, true, false, Option, none, some, arith, &&_iff, if◌then◌else◌,
}
use mathlib.Core.Path.{subst}
use agent_trading_guardrails.Js.{JsNumber}
use agent_trading_guardrails.Schemas.{TradingIntent}
use agent_trading_guardrails.Schemas.Json.{Json, str, null, obj, field, no_fields, stable_json}
use agent_trading_guardrails.Schemas.Encode.{intent_json}
use agent_trading_guardrails.Broker.Host.{
  Host, BrokerConfig, GuardrailApproval, ApprovalIdField, absent, given,
}
use agent_trading_guardrails.Broker.DryRun.{is_hex64_any_case}
use agent_trading_guardrails.Broker.DryRun.Laws.{same_digest_refl}
use agent_trading_guardrails.Broker.Decision.{
  create_guardrail_decision_token, decision_token_matches,
}
use agent_trading_guardrails.Guardrail.Types.{GuardrailDecision, outcome_text, is_deny}
use agent_trading_guardrails.Guardrail.Host.{
  GuardrailHost, GuardrailConfig, EvaluationOptions, parsed,
}
use agent_trading_guardrails.Guardrail.World.{World, returned}
use agent_trading_guardrails.Guardrail.World.Rules.{Returns}
use agent_trading_guardrails.Guardrail.Finish.{decided, create_decision_token}
use agent_trading_guardrails.Guardrail.Evaluate.{evaluate}
use agent_trading_guardrails.Guardrail.Proofs.Justified.{AllJustified}
use agent_trading_guardrails.Guardrail.Proofs.Evaluates.{
  IsAuthorized, is_denied, is_authorized, Authorizes, evaluate-IsAuthorized,
}

abbrev pub approval_id_field : {N : Type 0} → Option String → ApprovalIdField N
approval_id_field none = absent
approval_id_field (some id) = given id

-- A decision with its token, as the broker receives it.
abbrev pub handed_over :
    {N : Type 0} → GuardrailDecision N → TradingIntent N → String → GuardrailApproval N
handed_over d intent token = record {
  intent_id = d.intent_id;
  correlation_id = d.correlation_id;
  outcome = outcome_text d.outcome;
  intent = some intent;
  decided_at = d.decided_at;
  decision_token = token;
  approval_id = approval_id_field d.approval_id;
  dry_run = d.dry_run;
}

abbrev id_json : {N : Type 0} → Option String → Json N
id_json none = null
id_json (some id) = str id

abbrev token_json :
    {N : Type 0} → TradingIntent N → (outcome correlation_id decided_at : String) → Json N → Json N
token_json intent outcome correlation_id decided_at approval_id = obj (
    field "intent" (obj (intent_json intent)) (
      field "outcome" (str outcome) (
        field "correlationId" (str correlation_id)
          (field "decidedAt" (str decided_at) (field "approvalId" approval_id no_fields)))))

module _ {N S T : Type 0} ⦃number : JsNumber N⦄ (service : GuardrailHost N S)
    (broker : Host N T) where
  abbrev broker_token : String → TradingIntent N → GuardrailDecision N → Option String
  broker_token secret intent d = some (
      create_guardrail_decision_token broker secret intent (outcome_text d.outcome) d.correlation_id
        d.decided_at (approval_id_field d.approval_id) false)

  broker_text :
      (secret : String) (intent : TradingIntent N) (outcome correlation_id decided_at : String)
      (approval_id : Option String)
      → broker.hmac_sha256 secret (
          stable_json broker.locale_le
            (token_json intent outcome correlation_id decided_at (id_json approval_id)))
        ≡ create_guardrail_decision_token broker secret intent outcome correlation_id decided_at
            (approval_id_field approval_id)
            false
  unfolding create_guardrail_decision_token
  broker_text secret intent outcome correlation_id decided_at none = refl
  broker_text secret intent outcome correlation_id decided_at (some id) = refl

  -- The two packages compute the same text from a decision.
  token_agrees :
      (cfg : GuardrailConfig) (intent : TradingIntent N) (d : GuardrailDecision N)
      → service.hmac_sha256 ≡ broker.hmac_sha256
      → service.locale_le ≡ broker.locale_le
      → is_deny d.outcome ≡ false
      → create_decision_token service cfg intent d d.correlation_id false
        ≡ broker_token cfg.decision_signing_secret intent d
  unfolding create_decision_token
  token_agrees cfg intent d hmac locale undenied =
      let json =
        token_json intent (outcome_text d.outcome) d.correlation_id d.decided_at
          (id_json d.approval_id) in
      ap
        (λ b.
          if b
          then none
          else some (
              service.hmac_sha256 cfg.decision_signing_secret (stable_json service.locale_le json)))
        undenied
      ∙ (λ i. some (hmac i cfg.decision_signing_secret (stable_json (locale i) json)))
      ∙ ap some (
          broker_text cfg.decision_signing_secret intent (outcome_text d.outcome) d.correlation_id
            d.decided_at d.approval_id)

  -- The token of a decision that does not deny is accepted.
  token_matches :
      (cfg : GuardrailConfig) (broker_cfg : BrokerConfig N)
      → service.hmac_sha256 ≡ broker.hmac_sha256
      → service.locale_le ≡ broker.locale_le
      → ((secret content : String) → is_hex64_any_case (broker.hmac_sha256 secret content) ≡ true)
      → cfg.decision_signing_secret ≡ broker_cfg.decision_verification_secret
      → (intent : TradingIntent N) (d : GuardrailDecision N) → is_deny d.outcome ≡ false
      → (token : String) × (create_decision_token service cfg intent d d.correlation_id false
          ≡ some token)
        × (decision_token_matches broker broker_cfg (handed_over d intent token) intent ≡ true)
  unfolding create_guardrail_decision_token decision_token_matches
  token_matches cfg broker_cfg hmac locale hex secrets intent d undenied =
      let token =
        create_guardrail_decision_token broker broker_cfg.decision_verification_secret intent
          (outcome_text d.outcome) d.correlation_id d.decided_at (approval_id_field d.approval_id)
          false in
      (
        token,
        token_agrees cfg intent d hmac locale undenied ∙ ap (λ s. broker_token s intent d) secrets,
        (&&_iff _ _).1 (hex _ _, same_digest_refl token),
      )

  handed_Authorizes :
      (cfg : GuardrailConfig) (broker_cfg : BrokerConfig N)
      → service.hmac_sha256 ≡ broker.hmac_sha256
      → service.locale_le ≡ broker.locale_le
      → ((secret content : String) → is_hex64_any_case (broker.hmac_sha256 secret content) ≡ true)
      → cfg.decision_signing_secret ≡ broker_cfg.decision_verification_secret
      → (raw : Json N) (ctx : EvaluationOptions) (d : GuardrailDecision N) → ctx.dry_run ≡ false
      → is_deny d.outcome ≡ false
      → IsAuthorized service cfg raw ctx d
      → (intent : TradingIntent N) × (token : String) × (service.safe_parse raw ≡ parsed intent)
        × (d.decision_token ≡ some token)
        × (decision_token_matches broker broker_cfg (handed_over d intent token) intent ≡ true)
  handed_Authorizes cfg broker_cfg hmac locale hex secrets raw ctx d wet undenied (is_denied h) =
      absurd (ground (arith, h, undenied))
  handed_Authorizes cfg broker_cfg hmac locale hex secrets raw ctx d wet undenied
        (is_authorized intent h r e j t) =
      let matched = token_matches cfg broker_cfg hmac locale hex secrets intent d undenied in
      (
        intent,
        matched.0,
        h,
        t ∙ ap (λ b. create_decision_token service cfg intent d d.correlation_id b) wet ∙ matched.1,
        matched.2,
      )

  -- The service and the broker have the same digest, the same order of keys and the same secret, and
  -- digests are 64 hex digits. Then each decision that `evaluate` returns for a call that is no dry run, and
  -- that does not deny, has a token, and the broker accepts it for the intent that the request holds. The
  -- decisions in the service's store are taken to be justified.
  pub evaluate-matches :
      (cfg : GuardrailConfig) (broker_cfg : BrokerConfig N)
      → service.hmac_sha256 ≡ broker.hmac_sha256
      → service.locale_le ≡ broker.locale_le
      → ((secret content : String) → is_hex64_any_case (broker.hmac_sha256 secret content) ≡ true)
      → cfg.decision_signing_secret ≡ broker_cfg.decision_verification_secret
      → (raw : Json N) (ctx : EvaluationOptions) (w : World N S) → AllJustified w.idempotency
      → ctx.dry_run ≡ false
      → (d : GuardrailDecision N) → (evaluate service cfg raw ctx w).0 ≡ returned (decided d)
      → is_deny d.outcome ≡ false
      → (intent : TradingIntent N) × (token : String) × (service.safe_parse raw ≡ parsed intent)
        × (d.decision_token ≡ some token)
        × (decision_token_matches broker broker_cfg (handed_over d intent token) intent ≡ true)
  evaluate-matches cfg broker_cfg hmac locale hex secrets raw ctx w justified wet d h undenied =
      handed_Authorizes cfg broker_cfg hmac locale hex secrets raw ctx d wet undenied (
        subst (Returns (Authorizes service cfg raw ctx)) h
          (evaluate-IsAuthorized service cfg raw ctx w justified).1)
