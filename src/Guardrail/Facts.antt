-- ===== src/Guardrail/Facts.antt =====
-- What service.ts computes from an intent: `canonicalResource`, `idempotencyScope`,
-- `projectedDailyNotionalUsd`, `extractSolanaInstructionType`, and the input of the policy engine.
use agent_trading_guardrails.Base.{
  String, ◌==◌, Bool, false, ◌||◌, Option, none, some, List, [], ◌∷◌, every, if◌then◌else◌,
}
use agent_trading_guardrails.Js.{JsNumber}
use agent_trading_guardrails.Js.Text.{template, is_empty}
use agent_trading_guardrails.Schemas.{
  TradingIntent, place_order, cancel_order, get_order_status, simulate_transaction,
  request_signature, envelope, action, CexOrder, CexReference, OnchainCall, Signing, Chain, Review,
  DynamicRiskResult, DailyStats,
}
use agent_trading_guardrails.Schemas.Json.{str, obj, no_fields, field, stable_json, JsonFields}
use agent_trading_guardrails.Schemas.Encode.{action_text, chain_text, chain_environment_text}
use agent_trading_guardrails.Guardrail.Types.{PolicyInput}
use agent_trading_guardrails.Guardrail.Host.{GuardrailHost, SolanaInstruction}
use agent_trading_guardrails.Guardrail.Amounts.{token_approval_facts}

abbrev cex_resource : (account symbol : String) → String
cex_resource account symbol = template ("cex:" ∷ "binance" ∷ ":" ∷ account ∷ ":" ∷ symbol ∷ [])

abbrev onchain_resource : {N : Type 0} → OnchainCall N → String
onchain_resource c = template (
    "onchain:"
    ∷ chain_text c.chain
    ∷ ":"
    ∷ chain_environment_text c.chain_environment
    ∷ ":"
    ∷ c.to
    ∷ [])

-- canonicalResource(intent), which is null for no intent of the schema
unfoldable pub canonical_resource : {N : Type 0} → TradingIntent N → String
unfolding template
canonical_resource (place_order e o) = cex_resource o.account o.symbol
canonical_resource (cancel_order e c) = cex_resource c.account c.symbol
canonical_resource (get_order_status e c) = cex_resource c.account c.symbol
canonical_resource (simulate_transaction e c) = onchain_resource c
canonical_resource (request_signature e c s) = onchain_resource c

abbrev is_transfer : SolanaInstruction → Bool
is_transfer i = i.kind == "transfer" || i.kind == "transferChecked"

abbrev some_authority_change : List SolanaInstruction → Bool
some_authority_change [] = false
some_authority_change (i ∷ is) = i.changes_authority || some_authority_change is

abbrev instruction_type : Option (List SolanaInstruction) → String
instruction_type none = "unknown"
instruction_type (some is) =
    if some_authority_change is
    then "setAuthority"
    else if every is_transfer is
    then "transfer"
    else "unknown"

module _ {N S : Type 0} ⦃number : JsNumber N⦄ (host : GuardrailHost N S) where
  unfoldable pub idempotency_scope : TradingIntent N → String
  unfolding stable_json
  idempotency_scope intent = stable_json {N = N} host.locale_le (
      obj (
        field "key" (str (envelope intent).idempotency_key) (
          field "principal" (str (envelope intent).principal) (
            field "action" (str (action_text (action intent)))
              (field "resource" (str (envelope intent).resource) no_fields)))))

  abbrev solana_type : Option (List (JsonFields N)) → String
  solana_type none = "unknown"
  solana_type (some []) = "unknown"
  solana_type (some (i ∷ is)) = instruction_type (host.parse_instructions (i ∷ is))

  unfoldable pub extract_solana_instruction_type : TradingIntent N → Option String
  extract_solana_instruction_type (request_signature e c s) = elim c.chain [
    | Chain.solana ↦ some (solana_type c.instructions)
    | Chain.ethereum ↦ none
  ]
  extract_solana_instruction_type _ = none

  unfoldable pub projected_daily_notional_usd : TradingIntent N → Option (DailyStats N) → Option N
  projected_daily_notional_usd (place_order e o) (some stats) =
      some (number.add stats.total_notional_usd o.max_notional_usd)
  projected_daily_notional_usd _ _ = none

  abbrev of_stats : {A : Type 0} → (DailyStats N → A) → Option (DailyStats N) → Option A
  of_stats f none = none
  of_stats f (some stats) = some (f stats)

  -- A program id that is there and not "".
  abbrev given_program : Option String → Option String
  given_program none = none
  given_program (some id) = if is_empty id then none else some id

  -- The properties that every intent has.
  abbrev base_input : TradingIntent N → Review → DynamicRiskResult N → PolicyInput N
  base_input intent review risk = record {
    intent_id = (envelope intent).intent_id;
    principal = (envelope intent).principal;
    action = action_text (action intent);
    resource = canonical_resource intent;
    environment = (envelope intent).environment;
    reviewer_verdict = review.verdict;
    reviewer_risk_level = review.risk_level;
    reviewer_detected_issues = review.detected_issues;
    daily_notional_usd = of_stats (λ s. s.total_notional_usd) risk.daily_stats;
    projected_daily_notional_usd = projected_daily_notional_usd intent risk.daily_stats;
    daily_realized_loss_usd = of_stats (λ s. s.realized_loss_usd) risk.daily_stats;
    exchange = none;
    account_mode = none;
    margin_type = none;
    symbol = none;
    chain = none;
    chain_environment = none;
    contract_address = none;
    program_id = none;
    instruction_type = extract_solana_instruction_type intent;
    max_notional_usd = none;
    leverage = none;
    max_token_approval_amount = none;
    token_approval = token_approval_facts intent;
  }

  abbrev with_order : CexOrder N → PolicyInput N → PolicyInput N
  with_order o input = record input {
    exchange = some "binance";
    account_mode = some o.account_mode;
    margin_type = o.margin_type;
    symbol = some o.symbol;
    max_notional_usd = some o.max_notional_usd;
    leverage = o.leverage;
  }

  abbrev with_reference : CexReference → PolicyInput N → PolicyInput N
  with_reference c input = record input { exchange = some "binance"; symbol = some c.symbol }

  abbrev contract_of : OnchainCall N → Option String
  contract_of c = elim c.chain [ Chain.ethereum ↦ some c.to | Chain.solana ↦ none ]

  abbrev with_call : OnchainCall N → PolicyInput N → PolicyInput N
  with_call c input = record input {
    chain = some c.chain;
    chain_environment = some c.chain_environment;
    contract_address = contract_of c;
    program_id = given_program c.program_id;
  }

  abbrev with_signing : Signing → PolicyInput N → PolicyInput N
  with_signing s input = record input { max_token_approval_amount = s.max_token_approval_amount }

  abbrev with_fields : TradingIntent N → PolicyInput N → PolicyInput N
  with_fields (place_order e o) input = with_order o input
  with_fields (cancel_order e c) input = with_reference c input
  with_fields (get_order_status e c) input = with_reference c input
  with_fields (simulate_transaction e c) input = with_call c input
  with_fields (request_signature e c s) input = with_signing s (with_call c input)

  -- The `policyInput` of `evaluate`.
  unfoldable pub policy_input : TradingIntent N → Review → DynamicRiskResult N → PolicyInput N
  unfolding canonical_resource extract_solana_instruction_type projected_daily_notional_usd
      token_approval_facts
  policy_input intent review risk = with_fields intent (base_input intent review risk)
