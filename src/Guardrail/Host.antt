-- ===== src/Guardrail/Host.antt =====
-- What the service is given: its configuration, and the collaborators that its constructor takes, which
-- may answer anything and change a state `S` of their own while they do. One that throws, or whose
-- answer its schema refuses, is `none`.
use agent_trading_guardrails.Base.{String, Bool, Option, List}
use agent_trading_guardrails.Schemas.{Environment, TradingIntent, Review, DynamicRiskResult}
use agent_trading_guardrails.Schemas.Json.{Json, JsonFields}
use agent_trading_guardrails.Approval.Types.{ApprovalRequest}
use agent_trading_guardrails.Guardrail.Types.{Reason, PolicyInput, PolicyOutput, GuardrailDecision}

-- `EvaluationOptions`
pub record EvaluationOptions : Type 0 where
  pub prompt_id : Option String
  pub session_id : Option String
  pub input_ref : Option String
  pub correlation_id : Option String
  pub dry_run : Bool

pub data EventType : Type 0 where
  intent_received reviewer_completed risk_evaluated policy_evaluated : EventType
  approval_requested decision_final decision_dry_run : EventType

-- The object literals that the service passes as `data`, before they are redacted.
pub data EventData (N : Type 0) : Type 0 where
  intent_data : TradingIntent N → EventData N
  review_data : Review → EventData N
  risk_data : DynamicRiskResult N → EventData N
  policy_data : PolicyInput N → PolicyOutput → EventData N
  approval_data : ApprovalRequest N → EventData N
  decision_data : GuardrailDecision N → EventData N

pub record GuardrailEvent (N : Type 0) : Type 0 where
  pub event_type : EventType
  pub environment : Environment
  pub correlation_id : String
  pub intent_id : Option String
  pub principal : Option String
  pub prompt_id : Option String
  pub session_id : Option String
  pub input_ref : Option String
  pub content : EventData N

-- What `TradingIntent.safeParse` makes of a request.
pub data Parsed (N : Type 0) : Type 0 where
  invalid : List Reason → Parsed N
  parsed : TradingIntent N → Parsed N

-- An instruction that @guardrails/solana-connector parsed.
pub record SolanaInstruction : Type 0 where
  pub kind : String
  pub changes_authority : Bool

pub record GuardrailHost (N S : Type 0) : Type 0 where
  pub clock : S → String × S  -- `new Date().toISOString()`
  pub generate_correlation_id : S → String × S
  pub safe_parse : Json N → Parsed N
  pub hmac_sha256 : String → String → String  -- secret, content; hex digest
  pub locale_le : String → String → Bool  -- the order of `localeCompare`
  pub is_datetime : String → Bool  -- z.string().datetime()
  pub parse_instructions : List (JsonFields N) → Option (List SolanaInstruction)
  pub audit_write : GuardrailEvent N → S → Bool × S  -- whether it returns
  pub is_healthy : S → Option Bool × S
  pub review : TradingIntent N → S → Option Review × S
  pub risk_evaluate : TradingIntent N → Review → S → Option (DynamicRiskResult N) × S
  pub policy_evaluate : PolicyInput N → S → Option (Json N) × S
  pub approval_create :
      TradingIntent N
      → (correlation_id escalation_reason : String) → S
      → Option (ApprovalRequest N) × S
  pub approval_delete : String → S → Bool × S  -- whether it returns

pub record GuardrailConfig : Type 0 where
  pub environment : Environment
  pub decision_signing_secret : String
