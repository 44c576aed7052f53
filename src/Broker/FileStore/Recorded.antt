-- ===== src/Broker/FileStore/Recorded.antt =====
-- The end of an execution, as broker.ts records it in the file store, and the file that is read again.
use agent_trading_guardrails.Base.{
  String, ◌==◌, ◌≡◌, refl, eq_iff, true, false, Option, none, some, inl, inr, Bool-cases, arith,
}
use mathlib.Core.Path.{subst}
use text.Mathlib.TextLemmas.{nil-append, cons-append}
use Prim.Native.String.{◌++◌ as ◌⧺◌}
use agent_trading_guardrails.Js.{JsNumber}
use agent_trading_guardrails.Js.Text.{template, is_empty}
use agent_trading_guardrails.Schemas.{TradingIntent, envelope}
use agent_trading_guardrails.Schemas.Json.{Json, JsonFields, str, field, no_fields}
use agent_trading_guardrails.Schemas.Encode.{optional}
use agent_trading_guardrails.Broker.Types.{
  BrokerExecutionResult, Evidence, AuditData, execution_data, failure_data, BrokerAuditEvent,
  broker_executed, broker_failed,
}
use agent_trading_guardrails.Broker.Host.{Host, BrokerConfig}
use agent_trading_guardrails.Broker.Keys.{terminal_audit_event_id}
use agent_trading_guardrails.Broker.DryRun.{is_hex64}
use agent_trading_guardrails.Broker.World.{Fault, Outcome, returned, threw}
use agent_trading_guardrails.Broker.Execute.Evidence.{Judgement, accepted, refused, executed_result}
use agent_trading_guardrails.Broker.Execute.Run.{
  Progress, settled, terminal, progress_of, progress_of_result, execution_failed, evidence_rejected,
  executed_with,
}
use agent_trading_guardrails.Broker.FileTypes.{stored}
use agent_trading_guardrails.Broker.FileStore.Encode.{
  status_text, evidence_fields, event_fields, cached_json,
}
use agent_trading_guardrails.Broker.FileStore.Parse.{parsed, hash_pending_audit, parse_file_entry}
use agent_trading_guardrails.Broker.FileStore.Replays.{execution_of, executed_result-made}
use agent_trading_guardrails.Broker.FileStore.Readable.{executed_event, failed_event, terminal_read}

module _ {N : Type 0} where
  -- The data of the two events that are kept in the file.
  abbrev pub data_fields : AuditData N → JsonFields N
  data_fields (execution_data status e) =
      field "status" (str (status_text status)) (evidence_fields e)
  data_fields (failure_data status rejection_reason reason error) =
      field "status" (str (status_text status)) (
        optional "rejectionReason" str rejection_reason
          (optional "reason" str reason (field "error" (str error) no_fields)))
  data_fields _ = no_fields

  -- pendingAudit, as `complete` keeps it
  abbrev pub pending_audit : BrokerAuditEvent N → JsonFields N
  pending_audit event = event_fields event (data_fields event.content)

filled_not_empty : (s : String) → is_empty s ≡ false → (s == "") ≡ false
filled_not_empty s h = elim (Bool-cases (s == "")) [
  | inl e ↦ absurd (filled_is h ((eq_iff s "").0 e))
  | inr e ↦ e
]
  where
    filled_is : is_empty s ≡ false → s ≡ "" → ⊥
    filled_is h e = ground (arith, subst (λ t. is_empty t ≡ false) e h)

dashed_not_empty : (x y : String) → ((x ⧺ ("-" ⧺ y)) == "") ≡ false
dashed_not_empty String.[] y =
    filled_not_empty ("" ⧺ ("-" ⧺ y)) (rw nil-append (rw cons-append refl))
dashed_not_empty (String.◌∷◌ c x) y =
    filled_not_empty (String.◌∷◌ c x ⧺ ("-" ⧺ y)) (rw cons-append refl)

module _ {N S : Type 0} ⦃number : JsNumber N⦄ (host : Host N S) (cfg : BrokerConfig N)
    (safe_parse : Option (Json N) → Option (BrokerExecutionResult N))
    (hex : (text : String) → is_hex64 (host.sha256 text) ≡ true) where
  -- The result and the event are accepted when the file is read.
  abbrev IsReadable : Progress N → Type 0
  IsReadable (settled r) = Unit
  IsReadable (terminal r event) =
      (key payload_hash : String) (result : Json N)
      → is_hex64 payload_hash ≡ true
      → safe_parse (some result) ≡ some r
      → parse_file_entry host.sha256 safe_parse key (
          cached_json payload_hash result (some (pending_audit event))
            (some (hash_pending_audit host.sha256 (pending_audit event))))
        ≡ parsed (stored payload_hash r (some (pending_audit event)))

  module _ (intent : TradingIntent N) (correlation_id now : String) where
    event_id_not_empty :
        (name : String)
        → (terminal_audit_event_id host.sha256 intent correlation_id name == "") ≡ false
    unfolding terminal_audit_event_id template
    event_id_not_empty name = dashed_not_empty _ _

    failed-IsReadable :
        (fault : Fault) → IsReadable (execution_failed host cfg intent correlation_id now fault)
    unfolding execution_failed event_fields
    failed-IsReadable fault key payload_hash result h p =
        terminal_read host.sha256 _
          (terminal_audit_event_id host.sha256 intent correlation_id "broker.failed")
          (envelope intent).principal correlation_id cfg.environment hex
          (event_id_not_empty "broker.failed") safe_parse key payload_hash result broker_failed _ h
          p (failed_event _ none _ refl refl refl)

    rejected-IsReadable :
        (error : String) → IsReadable (evidence_rejected host cfg intent correlation_id now error)
    unfolding evidence_rejected event_fields
    rejected-IsReadable error key payload_hash result h p =
        terminal_read host.sha256 _
          (terminal_audit_event_id host.sha256 intent correlation_id "broker.failed")
          (envelope intent).principal correlation_id cfg.environment hex
          (event_id_not_empty "broker.failed") safe_parse key payload_hash result broker_failed _ h
          p (failed_event _ (some _) _ refl refl refl)

    execution-IsReadable :
        (evidence : Evidence N)
        → IsReadable (
            executed_with host cfg intent correlation_id now
              (execution_of intent evidence now)
              evidence)
    unfolding executed_with event_fields
    execution-IsReadable evidence key payload_hash result h p =
        terminal_read host.sha256 _
          (terminal_audit_event_id host.sha256 intent correlation_id "broker.executed")
          (envelope intent).principal correlation_id cfg.environment hex
          (event_id_not_empty "broker.executed") safe_parse key payload_hash result broker_executed
          _ h p (executed_event refl refl)

    executed-IsReadable :
        (evidence : Evidence N) (r : BrokerExecutionResult N)
        → executed_result host intent evidence now ≡ accepted r
        → IsReadable (executed_with host cfg intent correlation_id now r evidence)
    executed-IsReadable evidence r made =
        subst (λ x. IsReadable (executed_with host cfg intent correlation_id now x evidence))
          (executed_result-made host intent evidence now r made).1 (execution-IsReadable evidence)

    progress-IsReadable :
        (outcome : Outcome (Evidence N))
        → IsReadable (progress_of host cfg intent correlation_id now outcome)
    progress-IsReadable (threw fault) = failed-IsReadable fault
    progress-IsReadable (returned evidence) =
        judged-IsReadable (executed_result host intent evidence now) refl
      where
        judged-IsReadable :
            (j : Judgement N)
            → executed_result host intent evidence now ≡ j
            → IsReadable (progress_of_result host cfg intent correlation_id now evidence j)
        judged-IsReadable (accepted r) h = executed-IsReadable evidence r h
        judged-IsReadable (refused error) h = rejected-IsReadable error

    -- What is recorded at the end of an execution is read back: a result and its event, in the entry that
    -- `complete` writes, are accepted when the file is read, however the connector ended. The digest has
    -- 64 lower-case hex digits, so has the hash of the entry, and the schema accepts the result.
    pub recorded-parse_file_entry :
        (outcome : Outcome (Evidence N)) (r : BrokerExecutionResult N) (event : BrokerAuditEvent N)
        (key payload_hash : String) (result : Json N)
        → progress_of host cfg intent correlation_id now outcome ≡ terminal r event
        → is_hex64 payload_hash ≡ true
        → safe_parse (some result) ≡ some r
        → parse_file_entry host.sha256 safe_parse key (
            cached_json payload_hash result
              (some (pending_audit event))
              (some (hash_pending_audit host.sha256 (pending_audit event))))
          ≡ parsed (stored payload_hash r (some (pending_audit event)))
    recorded-parse_file_entry outcome r event key payload_hash result ends h p =
        subst IsReadable ends (progress-IsReadable outcome) key payload_hash result h p
