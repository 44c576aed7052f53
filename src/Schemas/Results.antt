-- ===== src/Schemas/Results.antt =====
-- risk.ts and reviewer.ts: what the risk engine and the reviewer answer.
use agent_trading_guardrails.Base.{String, Bool, Option, List}

pub data RiskCheckStatus : Type 0 where
  pass fail unavailable : RiskCheckStatus

pub record RiskCheckResult (N : Type 0) : Type 0 where
  pub check : String
  pub status : RiskCheckStatus
  pub value : Option N
  pub threshold : Option N
  pub message : Option String

pub data ReviewerVerdict : Type 0 where
  approve reject needs_human : ReviewerVerdict

pub data RiskTier : Type 0 where
  low medium high critical : RiskTier

pub data DetectedIssue : Type 0 where
  prompt_injection unsupported_claim evidence_action_mismatch : DetectedIssue
  suspicious_tool_behavior hallucinated_data excessive_risk : DetectedIssue

-- `ReviewerVerdictSchema`
pub record Review : Type 0 where
  pub intent_id : String
  pub verdict : ReviewerVerdict
  pub risk_level : RiskTier
  pub reasons : List String
  pub detected_issues : List DetectedIssue
  pub required_policy_tags : List String
  pub reviewer_model : String
  pub reviewer_provider : String
  pub reviewed_at : String

-- `DailyRiskStats`, which is also the risk engine's `DailyStats`.
pub record DailyStats (N : Type 0) : Type 0 where
  pub account : String
  pub date : String
  pub total_notional_usd : N
  pub realized_loss_usd : N
  pub order_count : N

pub record DynamicRiskResult (N : Type 0) : Type 0 where
  pub intent_id : String
  pub passed : Bool
  pub checks : List (RiskCheckResult N)
  pub daily_stats : Option (DailyStats N)
  pub evaluated_at : String
