-- ===== src/Approval/Types.antt =====
-- packages/approval/src/interfaces.ts: the union `ApprovalRequest`.
use agent_trading_guardrails.Base.{String, Bool, true, false}
use agent_trading_guardrails.Schemas.{Environment}
use agent_trading_guardrails.Schemas.Json.{JsonFields}

-- The state with its `decidedAt` and `decidedBy`, which are null where a constructor lacks them.
pub data ApprovalState : Type 0 where
  pending : ApprovalState
  approved : (decided_at decided_by : String) → ApprovalState
  denied : (decided_at decided_by : String) → ApprovalState
  timeout : (decided_at : String) → ApprovalState
  consumed : (decided_at decided_by : String) → ApprovalState

pub data ApprovalType : Type 0 where
  one_time allowlist_onboarding : ApprovalType

pub record ApprovalRequest (N : Type 0) : Type 0 where
  pub approval_id : String
  pub intent_id : String
  pub correlation_id : String
  pub principal : String
  pub action : String
  pub resource : String
  pub environment : Environment
  pub escalation_reason : String
  pub approval_type : ApprovalType
  pub intent_data : JsonFields N
  pub created_at : String
  pub timeout_at : String
  pub state : ApprovalState

abbrev pub is_one_time : ApprovalType → Bool
is_one_time one_time = true
is_one_time allowlist_onboarding = false

abbrev pub is_pending : ApprovalState → Bool
is_pending pending = true
is_pending _ = false

abbrev pub is_approved : ApprovalState → Bool
is_approved (approved at by) = true
is_approved _ = false

abbrev pub is_consumed : ApprovalState → Bool
is_consumed (consumed at by) = true
is_consumed _ = false
