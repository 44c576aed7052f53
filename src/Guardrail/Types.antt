-- ===== src/Guardrail/Types.antt =====
-- packages/guardrail-service/src/interfaces.ts and packages/schemas/src/policy.ts: the decision, and
-- what goes to and comes from the policy engine.
use agent_trading_guardrails.Base.{ℕ, String, Bool, true, false, Option, List}
use agent_trading_guardrails.Schemas.{
  Environment, Chain, ChainEnvironment, AccountMode, MarginType, Review, ReviewerVerdict, RiskTier,
  DetectedIssue, DynamicRiskResult,
}

pub data DecisionOutcome : Type 0 where
  allow deny needs_human : DecisionOutcome

abbrev pub outcome_text : DecisionOutcome → String
outcome_text allow = "allow"
outcome_text deny = "deny"
outcome_text needs_human = "needs_human"

abbrev pub is_allow : DecisionOutcome → Bool
is_allow allow = true
is_allow _ = false

abbrev pub is_deny : DecisionOutcome → Bool
is_deny deny = true
is_deny _ = false

abbrev pub is_needs_human : DecisionOutcome → Bool
is_needs_human needs_human = true
is_needs_human _ = false

pub record Reason : Type 0 where
  pub rule : String
  pub message : String

-- `PolicyOutput`
pub record PolicyOutput : Type 0 where
  pub decision : DecisionOutcome
  pub reasons : List Reason
  pub requires_human_approval : Bool
  pub matched_allow_rules : List String
  pub matched_deny_rules : List String
  pub evaluated_at : String

pub record TokenApprovalFacts : Type 0 where
  pub is_token_approval : Bool
  pub amount : Option ℕ  -- a bigint, whose decimal text is passed
  pub amount_missing : Bool
  pub is_unlimited : Bool
  pub amount_exceeds_cap : Bool

-- `PolicyInput`; a property that is absent or undefined is `none`.
pub record PolicyInput (N : Type 0) : Type 0 where
  pub intent_id : String
  pub principal : String
  pub action : String
  pub resource : String
  pub environment : Environment
  pub reviewer_verdict : ReviewerVerdict
  pub reviewer_risk_level : RiskTier
  pub reviewer_detected_issues : List DetectedIssue
  pub daily_notional_usd : Option N
  pub projected_daily_notional_usd : Option N
  pub daily_realized_loss_usd : Option N
  pub exchange : Option String
  pub account_mode : Option AccountMode
  pub margin_type : Option MarginType
  pub symbol : Option String
  pub chain : Option Chain
  pub chain_environment : Option ChainEnvironment
  pub contract_address : Option String
  pub program_id : Option String
  pub instruction_type : Option String
  pub max_notional_usd : Option N
  pub leverage : Option N
  pub max_token_approval_amount : Option String
  pub token_approval : TokenApprovalFacts

-- `GuardrailDecision`; null and an absent property are `none`.
pub record GuardrailDecision (N : Type 0) : Type 0 where
  pub intent_id : String
  pub correlation_id : String
  pub outcome : DecisionOutcome
  pub reasons : List Reason
  pub requires_human_approval : Bool
  pub approval_id : Option String
  pub reviewer_verdict : Option Review
  pub policy_output : Option PolicyOutput
  pub risk_result : Option (DynamicRiskResult N)
  pub decided_at : String
  pub decision_token : Option String
  pub dry_run : Bool
