-- ===== src/Broker/Host.antt =====
-- What the broker is given: its configuration, and the collaborators behind its interfaces
-- (interfaces.ts), which may answer anything and change a state `S` of their own while they do.
-- A collaborator that throws, or a promise that rejects, is `none`, or for the audit writer the text
-- of its error.
use agent_trading_guardrails.Base.{String, Bool, Option, List}
use agent_trading_guardrails.Schemas.{Environment, TradingIntent}
use agent_trading_guardrails.Schemas.Json.{Json}
use agent_trading_guardrails.Approval.Types.{ApprovalRequest}
use agent_trading_guardrails.Broker.Types.{KillSwitchScope, Evidence, BrokerAuditEvent}

-- What `isActive(scope)` does: it returns a value, a boolean or not, or throws.
pub data Reading : Type 0 where
  says : Bool → Reading
  not_boolean : Reading
  unreadable : Reading

pub record Revalidation : Type 0 where
  pub passed : Bool
  pub reason : Option String

-- What a connector does when it is asked to execute: it runs the callback that it was given, acts on
-- the outside, and answers or throws. An error of the callback ends its run, as it is propagated.
pub data ConnectorStep : Type 0 where
  before_side_effect side_effect : ConnectorStep

pub data ConnectorEnd (N : Type 0) : Type 0 where
  answers : Evidence N → ConnectorEnd N
  throws_revalidation : String → ConnectorEnd N  -- `ConnectorRevalidationError`
  throws_other : String → ConnectorEnd N

pub record Plan (N : Type 0) : Type 0 where
  pub steps : List ConnectorStep
  pub end : ConnectorEnd N

-- The approval store that the broker was constructed with, for the live-mode preflight: whether its
-- `liveConfigured` returns true, which is taken not to throw, and whether `checkHealth` returns.
pub record LiveApprovals (S : Type 0) : Type 0 where
  pub live_configured : Bool
  pub check_health : S → Bool × S

pub record Host (N S : Type 0) : Type 0 where
  pub clock : S → String × S  -- `new Date().toISOString()`
  pub date_parse : String → N  -- `new Date(text).getTime()`
  pub sha256 : String → String  -- hex digest
  pub hmac_sha256 : String → String → String  -- secret, content; hex digest
  pub locale_le : String → String → Bool  -- the order of `localeCompare`
  pub redact_secrets : String → String  -- of @guardrails/secrets
  pub is_uuid : String → Bool  -- z.string().uuid()
  pub is_datetime : String → Bool  -- z.string().datetime()
  pub schema_error : TradingIntent N → Evidence N → String  -- the text of a `ZodError`
  pub audit_write : BrokerAuditEvent N → S → Option String × S  -- the text of an error
  pub audit_health : Option (S → Bool × S)  -- `checkHealth`, if the writer has it
  pub is_active : KillSwitchScope → S → Reading × S
  pub revalidate : TradingIntent N → S → Option Revalidation × S
  pub connector_plan : TradingIntent N → S → Plan N × S
  pub approval_list : S → Option (List (ApprovalRequest N)) × S
  pub approval_get : String → S → Option (Option (ApprovalRequest N)) × S
  pub consume_one_time : String → S → Option Bool × S  -- whether a request came back
  pub live_approvals : Option (LiveApprovals S)

pub record BrokerConfig (N : Type 0) : Type 0 where
  pub environment : Environment
  pub canary_live_enabled : Bool
  pub decision_verification_secret : String
  pub decision_max_age_ms : Option N

-- The property `approvalId` of a decision: absent, a string, or some other value.
pub data ApprovalIdField (N : Type 0) : Type 0 where
  absent : ApprovalIdField N
  given : String → ApprovalIdField N
  other : Json N → ApprovalIdField N

-- `GuardrailApproval`, as it arrives: `intent` is what `TradingIntent.safeParse` makes of its intent.
pub record GuardrailApproval (N : Type 0) : Type 0 where
  pub intent_id : String
  pub correlation_id : String
  pub outcome : String
  pub intent : Option (TradingIntent N)
  pub decided_at : String
  pub decision_token : String
  pub approval_id : ApprovalIdField N
  pub dry_run : Bool  -- the property "dryRun" is there

pub record DryRunAuthorization : Type 0 where
  pub checked_at : String
  pub token : String
