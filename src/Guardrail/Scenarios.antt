-- ===== src/Guardrail/Scenarios.antt =====
-- A guardrail service on concrete collaborators: an order that is allowed, and what the theorems say of
-- it and of its token.
use agent_trading_guardrails.Base.{ℕ, suc, String, ◌≡◌, refl, true, false, none, some, [], ◌∷◌}
use agent_trading_guardrails.Base.Dict
use agent_trading_guardrails.Base.Int.{pos}
use agent_trading_guardrails.Js.Grid.{Grid, whole, grid_number}
use agent_trading_guardrails.Schemas.{
  Envelope, TradingIntent, place_order, paper, spot, buy, Review, approve, low, DynamicRiskResult,
  request_signature, ethereum, sepolia,
}
use agent_trading_guardrails.Schemas.Json.{
  Json, obj, arr, str, bool, field, no_fields, item, no_items,
}
use agent_trading_guardrails.Broker.DryRun.{is_hex64_any_case}
use agent_trading_guardrails.Broker.Decision.{decision_token_matches}
use agent_trading_guardrails.Broker.Scenarios.{quiet_host, paper_config, token}
use agent_trading_guardrails.Guardrail.Types.{allow, Reason, GuardrailDecision}
use agent_trading_guardrails.Guardrail.Idempotency
use agent_trading_guardrails.Guardrail.Opa.{transform_opa_output}
use agent_trading_guardrails.Guardrail.Amounts.{token_approval_facts}
use agent_trading_guardrails.Guardrail.Host.{
  EvaluationOptions, GuardrailHost, GuardrailConfig, parsed,
}
use agent_trading_guardrails.Guardrail.World.{World, returned}
use agent_trading_guardrails.Guardrail.World.Rules.{Returns}
use agent_trading_guardrails.Guardrail.Finish.{decided}
use agent_trading_guardrails.Guardrail.Evaluate.{evaluate}
use agent_trading_guardrails.Guardrail.Proofs.Sound.{IsSound, Given, transform-IsSound}
use agent_trading_guardrails.Guardrail.Proofs.Justified.{AllJustified, empty-AllJustified}
use agent_trading_guardrails.Guardrail.Proofs.Evaluates.{Authorizes, evaluate-IsAuthorized}
use agent_trading_guardrails.Guardrail.Proofs.Handover.{handed_over, evaluate-matches}
use agent_trading_guardrails.Guardrail.Proofs.Bounds.{Fits, token_approval_facts-bound}

abbrev order_envelope : Envelope
order_envelope = record {
  intent_id = "i-1";
  principal = "agent-1";
  resource = "cex:binance:sub-1:ETH-USDC";
  environment = paper;
  requested_at = "noon";
  idempotency_key = "k-1";
  rationale = "rebalance";
  evidence = "snapshot-7" ∷ [];
}

abbrev order : TradingIntent Grid
order = place_order order_envelope (record {
  account = "sub-1";
  account_mode = spot;
  symbol = "ETH-USDC";
  side = buy;
  quantity = whole (pos 1);
  price = whole (pos 3500);
  max_notional_usd = whole (pos 10);
  max_slippage_bps = whole (pos 50);
  leverage = none;
  margin_type = none;
})

abbrev good_review : Review
good_review = record {
  intent_id = "i-1";
  verdict = approve;
  risk_level = low;
  reasons = [];
  detected_issues = [];
  required_policy_tags = [];
  reviewer_model = "m";
  reviewer_provider = "p";
  reviewed_at = "noon";
}

abbrev good_risk : DynamicRiskResult Grid
good_risk = record {
  intent_id = "i-1";
  passed = true;
  checks = [];
  daily_stats = none;
  evaluated_at = "noon";
}

abbrev policy_answer : Json Grid
policy_answer = obj (
    field "decision" (str "allow") (
      field "reasons" (arr (item (str "small_order") no_items)) (
        field "requires_human_approval" (bool false) (
          field "matched_allow_rules" (arr (item (str "small_order") no_items))
            (field "matched_deny_rules" (arr no_items) no_fields)))))

-- The collaborators count the audit events.
abbrev service : GuardrailHost Grid ℕ
service = record {
  clock = λ s. ("noon", s);
  generate_correlation_id = λ s. ("c-1", s);
  safe_parse = λ raw. parsed order;
  hmac_sha256 = λ secret text. token;
  locale_le = λ a b. true;
  is_datetime = λ text. true;
  parse_instructions = λ is. none;
  audit_write = λ event s. (true, suc s);
  is_healthy = λ s. (some true, s);
  review = λ intent s. (some good_review, s);
  risk_evaluate = λ intent review s. (some good_risk, s);
  policy_evaluate = λ input s. (some policy_answer, s);
  approval_create = λ intent id reason s. (none, s);
  approval_delete = λ id s. (true, s);
}

abbrev config : GuardrailConfig
config = record { environment = paper; decision_signing_secret = "secret" }

abbrev options : EvaluationOptions
options = record {
  prompt_id = none;
  session_id = none;
  input_ref = none;
  correlation_id = none;
  dry_run = false;
}

abbrev request : Json Grid
request = obj (field "intentId" (str "i-1") no_fields)

abbrev first_world : World Grid ℕ
first_world = record { host = 0; idempotency = Idempotency.empty }

abbrev small_order : Reason
small_order = record { rule = "small_order"; message = "small_order" }

abbrev allowed : GuardrailDecision Grid
allowed = record {
  intent_id = "i-1";
  correlation_id = "c-1";
  outcome = allow;
  reasons = small_order ∷ [];
  requires_human_approval = false;
  approval_id = none;
  reviewer_verdict = some good_review;
  policy_output = some (record {
    decision = allow;
    reasons = small_order ∷ [];
    requires_human_approval = false;
    matched_allow_rules = "small_order" ∷ [];
    matched_deny_rules = [];
    evaluated_at = "noon";
  });
  risk_result = some good_risk;
  decided_at = "noon";
  decision_token = some token;
  dry_run = false;
}

order_allowed : (evaluate service config request options first_world).0 ≡ returned (decided allowed)
unfolding evaluate Dict.get agent_trading_guardrails.Guardrail.Opa.◌>>=◌
order_allowed = refl

evaluate-IsAuthorized_example :
    AllJustified (evaluate service config request options first_world).1.idempotency
    × Returns
        (Authorizes service config request options)
        (evaluate service config request options first_world).0
evaluate-IsAuthorized_example =
    evaluate-IsAuthorized service config request options first_world empty-AllJustified

token_hex : is_hex64_any_case token ≡ true
unfolding is_hex64_any_case
token_hex = refl

evaluate-matches_example :
    (intent : TradingIntent Grid) × (t : String) × (service.safe_parse request ≡ parsed intent)
    × (allowed.decision_token ≡ some t)
    × (decision_token_matches quiet_host paper_config (handed_over allowed intent t) intent ≡ true)
evaluate-matches_example =
    evaluate-matches service quiet_host config paper_config refl refl (λ secret content. token_hex)
      refl request options first_world empty-AllJustified refl allowed order_allowed refl

transform-IsSound_example : Given IsSound (transform_opa_output (λ text. true) "noon" policy_answer)
transform-IsSound_example = transform-IsSound (λ text. true) "noon" policy_answer

abbrev unlimited_approval : TradingIntent Grid
unlimited_approval =
    request_signature order_envelope
      (record {
        chain = ethereum;
        chain_environment = sepolia;
        to = "0xtoken";
        calldata = some "0x095ea7b3";
        value = none;
        program_id = none;
        instructions = none;
        expected_deltas = none;
      })
      (record {
        simulation_id = "s-1";
        max_token_approval_amount =
            some "115792089237316195423570985008687907853269984665640564039457584007913129639935";
      })

token_approval_facts-bound_example : Given Fits (token_approval_facts unlimited_approval).amount
token_approval_facts-bound_example = token_approval_facts-bound unlimited_approval
