-- ===== src/Audit/Chain.antt =====
-- `computeEventHash`, `computeHash` and `recoverLastHash` of writer.ts. The digest of node:crypto is a
-- parameter; the two texts that are fed to it make one.
use agent_trading_guardrails.Base.{
  String, ◌==◌, not, Option, none, some, List, [], ◌∷◌, map, if◌then◌else◌,
}
use agent_trading_guardrails.Js.Text.{template, is_empty}
use agent_trading_guardrails.Schemas.Json.{quote, join, write_member}
use agent_trading_guardrails.Audit.Types.{
  Content, Row, AuditError, chain_is_broken, hash_is_missing, hash_mismatch,
}

-- "0".repeat(64)
abbrev pub zero_hash : String
zero_hash = "0000000000000000000000000000000000000000000000000000000000000000"

abbrev nullable : Option String → String
nullable none = "null"
nullable (some s) = quote s

-- The JSON text of the object that is hashed.
unfoldable pub content_text : Content → String
unfolding quote join write_member template
content_text c = template (
    "{"
    ∷ join (
        map write_member (
          ("eventId", quote c.event_id)
          ∷ ("eventType", quote c.event_type)
          ∷ ("timestamp", quote c.timestamp)
          ∷ ("correlationId", quote c.correlation_id)
          ∷ ("environment", quote c.environment)
          ∷ ("intentId", nullable c.intent_id)
          ∷ ("principal", nullable c.principal)
          ∷ ("promptId", nullable c.prompt_id)
          ∷ ("sessionId", nullable c.session_id)
          ∷ ("inputRef", nullable c.input_ref)
          ∷ ("data", quote c.payload)
          ∷ []))
    ∷ "}"
    ∷ [])

-- What `recoverLastHash` leaves in `lastHash`, or its error.
pub data Recovered : Type 0 where
  recovered : String → Recovered
  unrecovered : AuditError → Recovered

module _ (hmac : String → String) where
  -- computeEventHash({...content, previousHash})
  unfoldable pub compute_event_hash : String → Content → String
  unfolding content_text template
  compute_event_hash previous_hash c = hmac (template (previous_hash ∷ content_text c ∷ []))

  -- The tests of the loop on `row.eventHash`.
  abbrev pub check_stored : Option String → String → Recovered → Recovered
  check_stored none hash rest = unrecovered hash_is_missing
  check_stored (some stored) hash rest =
      if is_empty stored
      then unrecovered hash_is_missing
      else if not (stored == hash)
      then unrecovered hash_mismatch
      else rest

  unfoldable pub recover_from : String → List Row → Recovered
  unfolding compute_event_hash
  recover_from previous_hash [] = recovered previous_hash
  recover_from previous_hash (row ∷ rows) =
      let hash = compute_event_hash row.previous_hash row.content in
      let rest = recover_from hash rows in
      if not (row.previous_hash == previous_hash)
      then unrecovered chain_is_broken
      else check_stored row.event_hash hash rest

  unfoldable pub recover_last_hash : List Row → Recovered
  unfolding recover_from
  recover_last_hash rows = recover_from zero_hash rows
