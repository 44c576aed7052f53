-- ===== src/Broker/FileStore/Cached.antt =====
-- packages/broker/src/idempotency-store.ts: `validateCachedEntryForIntent`, which compares a result that
-- was found in the file with the intent of the call, and `begin` with it.
use agent_trading_guardrails.Base.{
  String, ◌==◌, Bool, true, false, not, ◌&&◌, Option, none, some, [], ◌∷◌, if◌then◌else◌,
}
use agent_trading_guardrails.Js.{JsNumber}
use agent_trading_guardrails.Js.Text.{template}
use agent_trading_guardrails.Schemas.{
  TradingIntent, place_order, cancel_order, get_order_status, simulate_transaction,
  request_signature, envelope,
}
use agent_trading_guardrails.Schemas.Encode.{side_text}
use agent_trading_guardrails.Broker.Types.{
  BrokerExecutionResult, BrokerExecutionStatus, executed, rejected, failed, BrokerExecutionKind,
  cex_order, cex_cancel, cex_order_status, onchain_signature, onchain_simulation, Evidence,
  BrokerAuditEvent, AuditEventType, broker_executed, broker_failed,
}
use agent_trading_guardrails.Broker.Keys.{
  scope_idempotency_key, hash_intent_payload, terminal_audit_event_id,
}
use agent_trading_guardrails.Broker.Decision.{same_environment}
use agent_trading_guardrails.Broker.Execute.Evidence.{execution_kind_for_intent, equals_lowered}
use agent_trading_guardrails.Broker.FileStore.{Locking, Shared, FileReservation, begin}

abbrev kind_text : BrokerExecutionKind → String
kind_text cex_order = "cex_order"
kind_text cex_cancel = "cex_cancel"
kind_text cex_order_status = "cex_order_status"
kind_text onchain_signature = "onchain_signature"
kind_text onchain_simulation = "onchain_simulation"

abbrev pub is_kind : BrokerExecutionKind → Option BrokerExecutionKind → Bool
is_kind expected none = false
is_kind expected (some kind) = kind_text kind == kind_text expected

abbrev pub is_executed : BrokerExecutionStatus → Bool
is_executed executed = true
is_executed rejected = false
is_executed failed = false

-- A property that is there and is not the expected text.
abbrev pub other_than : String → Option String → Bool
other_than expected none = false
other_than expected (some s) = not (s == expected)

abbrev equals_some : String → Option String → Bool
equals_some expected none = false
equals_some expected (some s) = s == expected

-- The texts of the two events that may be pending.
abbrev terminal_text : AuditEventType → Option String
terminal_text broker_executed = some "broker.executed"
terminal_text broker_failed = some "broker.failed"
terminal_text _ = none

unfoldable pub entry_error : String → String → String
unfolding template
entry_error key problem = template ("Invalid idempotency store entry " ∷ key ∷ ": " ∷ problem ∷ [])

abbrev pub entry_error_of : String → Option String → Option String
entry_error_of key none = none
entry_error_of key (some problem) = some (entry_error key problem)

module _ {N : Type 0} where
  -- What `validateCachedResultEvidenceForIntent` finds wrong for the action of the intent.
  unfoldable pub evidence_problem : TradingIntent N → Evidence N → Option String
  evidence_problem (cancel_order e c) evidence =
      if other_than c.order_id evidence.order_id
      then some "result orderId mismatches intent."
      else none
  evidence_problem (get_order_status e c) evidence =
      if other_than c.order_id evidence.order_id
      then some "result orderId mismatches intent."
      else elim evidence.order_status [
        | none ↦ some "result orderStatus mismatches intent."
        | some status ↦
            if not (status.order_id == c.order_id)
            then some "result orderStatus mismatches intent."
            else if not (status.symbol == c.symbol)
            then some "result orderStatus mismatches intent."
            else none
      ]
  evidence_problem (place_order e o) evidence = elim evidence.order_status [
    | none ↦ none
    | some status ↦
        if not (status.symbol == o.symbol)
        then some "result orderStatus mismatches intent."
        else if not (equals_lowered status.side (side_text o.side))
        then some "result orderStatus mismatches intent."
        else if other_than status.order_id evidence.order_id
        then some "result orderStatus mismatches result."
        else none
  ]
  evidence_problem (simulate_transaction e c) evidence = none
  evidence_problem (request_signature e c s) evidence = none

  unfoldable pub result_problem : TradingIntent N → BrokerExecutionResult N → Option String
  unfolding evidence_problem execution_kind_for_intent
  result_problem intent result =
      if is_executed result.status
        && not (is_kind (execution_kind_for_intent intent) result.execution_kind)
      then some "result executionKind mismatches intent."
      else evidence_problem intent result.evidence

module _ {N : Type 0} ⦃number : JsNumber N⦄ (sha256 : String → String) where
  abbrev audit_problem : TradingIntent N → Option (BrokerAuditEvent N) → Option String
  audit_problem intent none = none
  audit_problem intent (some event) =
      if not (same_environment event.environment (envelope intent).environment)
      then some "pendingAudit environment mismatches intent."
      else if not (equals_some (envelope intent).principal event.principal)
      then some "pendingAudit principal mismatches intent."
      else elim (terminal_text event.event_type) [
        | none ↦ some "pendingAudit eventType mismatches result."
        | some text ↦
            if not (
              equals_some (terminal_audit_event_id sha256 intent event.correlation_id text)
                event.event_id)
            then some "pendingAudit eventId mismatches intent."
            else none
      ]

  abbrev or_audit_problem :
      TradingIntent N → Option (BrokerAuditEvent N) → Option String → Option String
  or_audit_problem intent event (some problem) = some problem
  or_audit_problem intent event none = audit_problem intent event

  unfoldable pub cached_problem :
      TradingIntent N → BrokerExecutionResult N → Option (BrokerAuditEvent N) → Option String
  unfolding result_problem terminal_audit_event_id
  cached_problem intent result event =
      if not (result.intent_id == (envelope intent).intent_id)
      then some "result intentId mismatches intent."
      else if not (result.idempotency_key == (envelope intent).idempotency_key)
      then some "result idempotencyKey mismatches intent."
      else or_audit_problem intent event (result_problem intent result)

  -- `validateCachedEntryForIntent`: the message of the error that is thrown.
  unfoldable pub cached_entry_error :
      String
      → TradingIntent N
      → BrokerExecutionResult N
      → Option (BrokerAuditEvent N)
      → Option String
  unfolding cached_problem entry_error
  cached_entry_error key intent result event =
      entry_error_of key (cached_problem intent result event)

  -- begin(key, intent), with the scoped key and the hash that it computes
  unfoldable pub begin_for :
      String
      → TradingIntent N
      → Locking String
      → Shared (BrokerExecutionResult N) (BrokerAuditEvent N) String
      → FileReservation (BrokerExecutionResult N) (BrokerAuditEvent N) String
        × Shared (BrokerExecutionResult N) (BrokerAuditEvent N) String
  unfolding begin cached_entry_error scope_idempotency_key hash_intent_payload
  begin_for key intent =
      begin (scope_idempotency_key key intent) (hash_intent_payload sha256 intent)
        (cached_entry_error key intent)
