-- ===== src/Broker/FileStore/Parse.antt =====
-- packages/broker/src/idempotency-store.ts: `parseFileState`, of the value that JSON.parse makes of the
-- file's text. `safe_parse` is `BrokerExecutionResultSchema.safeParse`, which zod implements; a pending
-- event is kept as the JSON object that it is.
use agent_trading_guardrails.Base.{
  String, ◌==◌, Bool, true, false, not, ◌&&◌, Option, none, some, List, [], ◌∷◌, is_some,
  if◌then◌else◌,
}
use agent_trading_guardrails.Base.Dict.{Dict}
use agent_trading_guardrails.Js.{JsNumber}
use agent_trading_guardrails.Schemas.Json.{
  Json, str, obj, JsonFields, no_fields, field, property, stable_json,
}
use agent_trading_guardrails.Broker.Types.{
  BrokerExecutionStatus, executed, rejected, failed, BrokerExecutionResult,
}
use agent_trading_guardrails.Broker.Keys.{key_le}
use agent_trading_guardrails.Broker.KillSwitch.{has}
use agent_trading_guardrails.Broker.DryRun.{is_hex64}
use agent_trading_guardrails.Broker.FileTypes.{FileEntry, stored, in_progress}
use agent_trading_guardrails.Broker.FileStore.Cached.{entry_error}
use agent_trading_guardrails.Broker.FileStore.Encode.{
  status_text, order_status_json, reconciliation_json, simulation_json,
}

-- A value, or the text of the error.
pub data Parsed (A : Type 0) : Type 0 where
  parsed : A → Parsed A
  invalid : (error : String) → Parsed A

-- `AuditEventType` and `Environment` of packages/schemas/src
unfoldable pub is_audit_event_type : String → Bool
unfolding has
is_audit_event_type text = has text (
    "intent.received" ∷ "intent.validated" ∷ "intent.rejected" ∷ "reviewer.started"
    ∷ "reviewer.completed" ∷ "reviewer.failed" ∷ "policy.evaluated" ∷ "policy.failed"
    ∷ "risk.evaluated" ∷ "risk.failed" ∷ "decision.final" ∷ "decision.dry_run"
    ∷ "approval.requested" ∷ "approval.approved" ∷ "approval.denied" ∷ "approval.timeout"
    ∷ "allowlist.updated" ∷ "signer.requested" ∷ "signer.completed" ∷ "signer.failed"
    ∷ "broker.revalidated" ∷ "broker.preflight" ∷ "broker.dry_run" ∷ "broker.executed"
    ∷ "broker.failed" ∷ "killswitch.activated" ∷ "killswitch.blocked" ∷ [])

unfoldable pub is_environment : String → Bool
unfolding has
is_environment text = has text ("dev" ∷ "paper" ∷ "testnet" ∷ "canary_live" ∷ "production" ∷ [])

abbrev add_if : Bool → String → List String → List String
add_if true key keys = key ∷ keys
add_if false key keys = keys

abbrev is_failed : BrokerExecutionStatus → Bool
is_failed failed = true
is_failed executed = false
is_failed rejected = false

abbrev pub expected_event_type : BrokerExecutionStatus → String
expected_event_type executed = "broker.executed"
expected_event_type rejected = "broker.failed"
expected_event_type failed = "broker.failed"

abbrev hex64_is : Option String → Bool
hex64_is none = false
hex64_is (some hash) = is_hex64 hash

module _ {N : Type 0} where
  -- pendingAuditDataKeys(result)
  unfoldable pub pending_audit_data_keys : BrokerExecutionResult N → List String
  pending_audit_data_keys r =
      "status"
      ∷ add_if (is_some r.rejection_reason) "rejectionReason" (
          add_if (is_some r.evidence.order_id) "orderId" (
            add_if (is_some r.evidence.transaction_hash) "transactionHash" (
              add_if (is_some r.evidence.order_status) "orderStatus" (
                add_if (is_some r.evidence.simulation_evidence) "simulationEvidence" (
                  add_if (is_some r.evidence.reconciliation) "reconciliation" (
                    add_if (is_failed r.status) "reason"
                      (add_if (is_failed r.status) "error" [])))))))

  abbrev keys_are : (String → Bool) → JsonFields N → Bool
  keys_are test no_fields = true
  keys_are test (field key value fields) = test key && keys_are test fields

  -- The property is the text of the result, or both are undefined.
  abbrev same_text : Option String → Option (Json N) → Bool
  same_text none none = true
  same_text (some expected) (some (str text)) = text == expected
  same_text _ _ = false

  -- typeof value === "string", or the value is undefined
  abbrev optional_string : Option (Json N) → Bool
  optional_string none = true
  optional_string (some (str text)) = true
  optional_string _ = false

  abbrev required_string : Option (Json N) → Bool
  required_string (some (str text)) = not (text == "")
  required_string _ = false

  abbrev text_passes : (String → Bool) → Option (Json N) → Bool
  text_passes test (some (str text)) = test text
  text_passes test _ = false

  abbrev object_of : Option (Json N) → Option (JsonFields N)
  object_of (some (obj fields)) = some fields
  object_of _ = none

  -- isBrokerAuditEvent(value), of an object
  unfoldable pub is_broker_audit_event : JsonFields N → Bool
  unfolding is_audit_event_type is_environment
  is_broker_audit_event event =
      text_passes is_audit_event_type (property "eventType" event)
      && text_passes is_environment (property "environment" event)
      && text_passes (λ text. true) (property "correlationId" event)
      && is_some (object_of (property "data" event))
      && required_string (property "eventId" event)
      && optional_string (property "intentId" event)
      && optional_string (property "principal" event)

module _ {N : Type 0} ⦃number : JsNumber N⦄ where
  -- deepEqual(left, right), or both are undefined
  abbrev same_json : {A : Type 0} → (A → Json N) → Option A → Option (Json N) → Bool
  same_json write none none = true
  same_json write (some a) (some b) = stable_json key_le b == stable_json key_le (write a)
  same_json write _ _ = false

  -- pendingAuditDataMatchesResult(data, result)
  unfoldable pub pending_audit_data_matches_result : JsonFields N → BrokerExecutionResult N → Bool
  unfolding pending_audit_data_keys has
  pending_audit_data_matches_result content r =
      keys_are (λ key. has key (pending_audit_data_keys r)) content
      && same_text (some (status_text r.status)) (property "status" content)
      && same_text r.rejection_reason (property "rejectionReason" content)
      && optional_string (property "reason" content)
      && optional_string (property "error" content)
      && same_text r.evidence.order_id (property "orderId" content)
      && same_text r.evidence.transaction_hash (property "transactionHash" content)
      && same_json order_status_json r.evidence.order_status (property "orderStatus" content)
      && same_json simulation_json r.evidence.simulation_evidence
          (property "simulationEvidence" content)
      && same_json reconciliation_json r.evidence.reconciliation (property "reconciliation" content)

  abbrev pub data_passes : BrokerExecutionResult N → Option (JsonFields N) → Bool
  data_passes r none = false
  data_passes r (some content) = pending_audit_data_matches_result content r

  module _ (sha256 : String → String) where
    -- hashPendingAudit(event)
    unfoldable pub hash_pending_audit : JsonFields N → String
    unfolding stable_json key_le
    hash_pending_audit event = sha256 (stable_json key_le (obj event))

    abbrev pub hash_is : JsonFields N → Option String → Bool
    hash_is event none = false
    hash_is event (some hash) = hash_pending_audit event == hash

    -- The tests of `validatePendingAudit`, and the problem that is named when one fails.
    unfoldable pub pending_audit_problem :
        BrokerExecutionResult N → Json N → Option String → Option String
    unfolding is_broker_audit_event pending_audit_data_matches_result hash_pending_audit is_hex64
    pending_audit_problem r (obj event) hash =
        if not (hex64_is hash)
        then some "pendingAuditHash is invalid."
        else if not (is_broker_audit_event event)
        then some "pendingAudit is invalid."
        else if not (same_text (some (expected_event_type r.status)) (property "eventType" event))
        then some "pendingAudit eventType mismatches result."
        else if not (same_text (some r.intent_id) (property "intentId" event))
        then some "pendingAudit intentId mismatches result."
        else if not (data_passes r (object_of (property "data" event)))
        then some "pendingAudit data mismatches result."
        else if not (hash_is event hash)
        then some "pendingAudit hash mismatches event."
        else none
    pending_audit_problem r value hash =
        if not (hex64_is hash)
        then some "pendingAuditHash is invalid."
        else some "pendingAudit is invalid."

    -- validatePendingAudit(key, result, value, hash)
    unfoldable pub validate_pending_audit :
        String
        → BrokerExecutionResult N
        → Option (Json N)
        → Option String
        → Parsed (Option (JsonFields N))
    unfolding pending_audit_problem entry_error
    validate_pending_audit key r none hash = parsed none
    validate_pending_audit key r (some value) hash = elim (pending_audit_problem r value hash) [
      | some problem ↦ invalid (entry_error key problem)
      | none ↦ parsed (object_of (some value))
    ]

    module _ (safe_parse : Option (Json N) → Option (BrokerExecutionResult N)) where
      abbrev text_of : Option (Json N) → Option String
      text_of (some (str text)) = some text
      text_of _ = none

      abbrev with_audit :
          String
          → BrokerExecutionResult N
          → Parsed (Option (JsonFields N))
          → Parsed (FileEntry (BrokerExecutionResult N) (JsonFields N))
      with_audit hash r (parsed event) = parsed (stored hash r event)
      with_audit hash r (invalid error) = invalid error

      abbrev pub parse_cached :
          String
          → JsonFields N
          → String
          → Option (BrokerExecutionResult N)
          → Parsed (FileEntry (BrokerExecutionResult N) (JsonFields N))
      parse_cached key members hash none = invalid (entry_error key "cached result is invalid.")
      parse_cached key members hash (some r) = with_audit hash r (
          validate_pending_audit key r (property "pendingAudit" members)
            (text_of (property "pendingAuditHash" members)))

      abbrev pub parse_hashed :
          String
          → JsonFields N
          → Bool
          → Option String
          → Parsed (FileEntry (BrokerExecutionResult N) (JsonFields N))
      parse_hashed key members is_cached none = invalid (entry_error key "payloadHash is invalid.")
      parse_hashed key members is_cached (some hash) =
          if not (is_hex64 hash)
          then invalid (entry_error key "payloadHash is invalid.")
          else if is_cached
          then parse_cached key members hash (safe_parse (property "result" members))
          else parsed (in_progress hash)

      -- parseFileEntry(key, value)
      unfoldable pub parse_file_entry :
          String → Json N → Parsed (FileEntry (BrokerExecutionResult N) (JsonFields N))
      unfolding validate_pending_audit is_hex64 entry_error
      parse_file_entry key (obj fields) =
          if text_passes (λ text. text == "cached") (property "status" fields)
          then parse_hashed key fields true (text_of (property "payloadHash" fields))
          else if text_passes (λ text. text == "in_progress") (property "status" fields)
          then parse_hashed key fields false (text_of (property "payloadHash" fields))
          else invalid (entry_error key "status is invalid.")
      parse_file_entry key value = invalid (entry_error key "entry must be an object.")

      abbrev pub with_entry :
          String
          → Parsed (FileEntry (BrokerExecutionResult N) (JsonFields N))
          → Parsed (Dict (FileEntry (BrokerExecutionResult N) (JsonFields N)))
          → Parsed (Dict (FileEntry (BrokerExecutionResult N) (JsonFields N)))
      with_entry key (invalid error) rest = invalid error
      with_entry key (parsed entry) (invalid error) = invalid error
      with_entry key (parsed entry) (parsed entries) = parsed ((key, entry) ∷ entries)

      unfoldable pub parse_entries :
          JsonFields N → Parsed (Dict (FileEntry (BrokerExecutionResult N) (JsonFields N)))
      unfolding parse_file_entry
      parse_entries no_fields = parsed []
      parse_entries (field key value fields) =
          let rest = parse_entries fields in with_entry key (parse_file_entry key value) rest

      abbrev entries_of :
          Option (Json N) → Parsed (Dict (FileEntry (BrokerExecutionResult N) (JsonFields N)))
      entries_of none = invalid "Invalid idempotency store state: entries is required."
      entries_of (some (obj fields)) = parse_entries fields
      entries_of (some value) =
          invalid "Invalid idempotency store state: entries must be an object."

      -- parseFileState(value)
      unfoldable pub parse_file_state :
          Json N → Parsed (Dict (FileEntry (BrokerExecutionResult N) (JsonFields N)))
      unfolding parse_entries
      parse_file_state (obj fields) = entries_of (property "entries" fields)
      parse_file_state value = invalid "Invalid idempotency store state: root must be an object."
