-- ===== src/Broker/FileStore/Readable.antt =====
-- What the broker records in the file is accepted when the file is read again.
use agent_trading_guardrails.Base.{
  String, eq_refl, ◌==◌, ◌≡◌, refl, sym, true, false, Option, none, some, arith,
}
use mathlib.Core.Path.{subst}
use agent_trading_guardrails.Js.{JsNumber}
use agent_trading_guardrails.Schemas.{Environment}
use agent_trading_guardrails.Schemas.Encode.{environment_text}
use agent_trading_guardrails.Schemas.Json.{
  Json, JsonFields, obj, str, field, no_fields, stable_json,
}
use agent_trading_guardrails.Broker.Types.{
  BrokerExecutionResult, executed, failed, no_evidence, broker_executed, broker_failed,
  AuditEventType,
}
use agent_trading_guardrails.Broker.Keys.{key_le}
use agent_trading_guardrails.Broker.DryRun.{is_hex64}
use agent_trading_guardrails.Broker.FileTypes.{stored}
use agent_trading_guardrails.Broker.FileStore.Encode.{
  cached_json, event_type_text, executed_fields, failed_fields,
}
use agent_trading_guardrails.Broker.FileStore.Parse.{
  parsed, parse_file_entry, validate_pending_audit, is_environment, is_audit_event_type,
  expected_event_type, hash_pending_audit, pending_audit_problem, is_broker_audit_event,
  pending_audit_data_matches_result,
}

module _ {N : Type 0} ⦃number : JsNumber N⦄ where
  executed_matches :
      (r : BrokerExecutionResult N)
      → r.status ≡ executed
      → r.rejection_reason ≡ none
      → pending_audit_data_matches_result (executed_fields r.evidence) r ≡ true
  unfolding pending_audit_data_matches_result
  executed_matches r p q = grind (arith, eq_refl)

  failed_matches :
      (r : BrokerExecutionResult N) (rejection : String) (reason : Option String) (error : String)
      → r.status ≡ failed
      → r.rejection_reason ≡ some rejection
      → r.evidence ≡ no_evidence
      → pending_audit_data_matches_result (failed_fields rejection reason error) r ≡ true
  unfolding pending_audit_data_matches_result
  failed_matches r rejection reason error p q e = grind (arith, eq_refl)

  -- The data of the event that the broker records together with a result.
  pub data IsTerminal (r : BrokerExecutionResult N) : AuditEventType → JsonFields N → Type 0 where
    executed_event :
        r.status ≡ executed
        → r.rejection_reason ≡ none
        → IsTerminal r broker_executed (executed_fields r.evidence)
    failed_event :
        (rejection : String) (reason : Option String) (error : String)
        → r.status ≡ failed
        → r.rejection_reason ≡ some rejection
        → r.evidence ≡ no_evidence
        → IsTerminal r broker_failed (failed_fields rejection reason error)

  -- The event, as the broker makes it of its parts.
  abbrev pub terminal_fields :
      (id principal correlation_id : String)
      → Environment
      → BrokerExecutionResult N
      → AuditEventType
      → JsonFields N
      → JsonFields N
  terminal_fields id principal correlation_id environment r event_type content =
      field "eventId" (str id) (
        field "eventType" (str (event_type_text event_type)) (
          field "environment" (str (environment_text environment)) (
            field "intentId" (str r.intent_id) (
              field "principal" (str principal) (
                field "correlationId" (str correlation_id)
                  (field "data" (obj content) no_fields))))))

  module _ (sha256 : String → String) (r : BrokerExecutionResult N)
      (id principal correlation_id : String) (environment : Environment)
      (hex : (text : String) → is_hex64 (sha256 text) ≡ true) (named : (id == "") ≡ false) where
    abbrev own_fields : AuditEventType → JsonFields N → JsonFields N
    own_fields = terminal_fields id principal correlation_id environment r

    environment_known : (e : Environment) → is_environment (environment_text e) ≡ true
    unfolding is_environment
    environment_known Environment.dev = refl
    environment_known Environment.paper = refl
    environment_known Environment.testnet = refl
    environment_known Environment.canary_live = refl
    environment_known Environment.production = refl

    terminal-is_broker_audit_event :
        (event_type : AuditEventType) (content : JsonFields N)
        → is_audit_event_type (event_type_text event_type) ≡ true
        → is_broker_audit_event (own_fields event_type content) ≡ true
    unfolding is_broker_audit_event
    terminal-is_broker_audit_event event_type content t =
        ground (arith, named, t, environment_known environment)

    hash_hex : (fields : JsonFields N) → is_hex64 (hash_pending_audit sha256 fields) ≡ true
    unfolding hash_pending_audit
    hash_hex fields = hex (stable_json key_le (obj fields))

    terminal-pending_audit_problem :
        (event_type : AuditEventType) (content : JsonFields N)
        → is_audit_event_type (event_type_text event_type) ≡ true
        → (event_type_text event_type == expected_event_type r.status) ≡ true
        → pending_audit_data_matches_result content r ≡ true
        → pending_audit_problem sha256 r
            (obj (own_fields event_type content))
            (some (hash_pending_audit sha256 (own_fields event_type content)))
          ≡ none
    unfolding pending_audit_problem
    terminal-pending_audit_problem event_type content t m d = ground (
      arith,
      m,
      d,
      hash_hex (own_fields event_type content),
      terminal-is_broker_audit_event event_type content t,
      eq_refl r.intent_id,
      eq_refl (hash_pending_audit sha256 (own_fields event_type content)),
    )

    -- An entry with the event of its end is read back.
    entry_read :
        (safe_parse : Option (Json N) → Option (BrokerExecutionResult N))
        (key payload_hash : String) (result : Json N) (event_type : AuditEventType)
        (content : JsonFields N)
        → is_hex64 payload_hash ≡ true
        → safe_parse (some result) ≡ some r
        → pending_audit_problem sha256 r
            (obj (own_fields event_type content))
            (some (hash_pending_audit sha256 (own_fields event_type content)))
          ≡ none
        → parse_file_entry sha256 safe_parse key (
            cached_json payload_hash result
              (some (own_fields event_type content))
              (some (hash_pending_audit sha256 (own_fields event_type content))))
          ≡ parsed (stored payload_hash r (some (own_fields event_type content)))
    unfolding parse_file_entry validate_pending_audit
    entry_read safe_parse key payload_hash result event_type content h p q = ground (arith, h, p, q)

    pub terminal_read :
        (safe_parse : Option (Json N) → Option (BrokerExecutionResult N))
        (key payload_hash : String) (result : Json N) (event_type : AuditEventType)
        (content : JsonFields N)
        → is_hex64 payload_hash ≡ true
        → safe_parse (some result) ≡ some r
        → IsTerminal r event_type content
        → parse_file_entry sha256 safe_parse key (
            cached_json payload_hash result
              (some (own_fields event_type content))
              (some (hash_pending_audit sha256 (own_fields event_type content))))
          ≡ parsed (stored payload_hash r (some (own_fields event_type content)))
    unfolding is_audit_event_type
    terminal_read safe_parse key payload_hash result event_type content h p (executed_event s n) =
        entry_read safe_parse key payload_hash result broker_executed (executed_fields r.evidence) h
          p
          (terminal-pending_audit_problem broker_executed (executed_fields r.evidence) refl
            (subst (λ x. (event_type_text broker_executed == expected_event_type x) ≡ true) (sym s)
              refl)
            (executed_matches r s n))
    terminal_read safe_parse key payload_hash result event_type content h p
          (failed_event rejection reason error s n e) =
        entry_read safe_parse key payload_hash result broker_failed
          (failed_fields rejection reason error) h p
          (terminal-pending_audit_problem broker_failed (failed_fields rejection reason error) refl
            (subst (λ x. (event_type_text broker_failed == expected_event_type x) ≡ true) (sym s)
              refl)
            (failed_matches r rejection reason error s n e))
