-- ===== src/Audit/Startup.antt =====
-- The constructor of `AuditWriter` with `backfillLegacyEventHashes`, `assertAuditHashSecret` and
-- `assertAuditHashAnchor`, and `checkHealth`. The migrations of the schema, which leave the rows as
-- they are, are drizzle's.
use agent_trading_guardrails.Base.{
  String, ◌==◌, Bool, true, false, not, ◌&&◌, ◌||◌, Option, none, some, List, [], ◌∷◌, find, every,
  length, ltb, is_some, if◌then◌else◌,
}
use agent_trading_guardrails.Js.{JsNumber}
use agent_trading_guardrails.Js.Text.{codes}
use agent_trading_guardrails.Broker.Keys.{units}
use agent_trading_guardrails.Schemas.{Environment}
use agent_trading_guardrails.Schemas.Encode.{environment_text}
use agent_trading_guardrails.Schemas.Json.{obj, field, bool, no_fields, JsonFields}
use agent_trading_guardrails.Schemas.Stringify.{stringify}
use agent_trading_guardrails.Audit.Types.{
  Row, AuditEventInput, AuditConfig, is_path, AuditWriter, AuditError, Database, FileWrite,
  mixed_rows, weak_secret, path_is_missing, probe_failed, Outcome, returns, throws,
}
use agent_trading_guardrails.Audit.Chain.{
  zero_hash, compute_event_hash, Recovered, recovered, unrecovered, recover_last_hash,
}
use agent_trading_guardrails.Audit.Writer.{
  is_text, has_id, sealed_row, verify_anchored_hash, anchor_outcome, write,
}

abbrev pub is_dev : Environment → Bool
is_dev Environment.dev = true
is_dev _ = false  -- "test" is not an environment

unfoldable pub assert_audit_hash_secret : Environment → String → Outcome
unfolding units
assert_audit_hash_secret environment secret =
    if is_dev environment
    then returns
    else if secret == "dev-audit-hash-secret" || ltb (length (units (codes secret))) 32
    then throws weak_secret
    else returns

unfoldable pub assert_audit_hash_anchor : Environment → Option String → Outcome
assert_audit_hash_anchor environment path =
    if is_dev environment
    then returns
    else if not (is_path path)
    then throws path_is_missing
    else returns

abbrev pub is_sealed : Row → Bool
is_sealed row = is_some row.event_hash

abbrev pub is_legacy : Row → Bool
is_legacy row = not (is_some row.event_hash)

-- What a step of the constructor leaves: the rows, or its error.
pub data Loaded : Type 0 where
  loaded : List Row → Loaded
  failed : AuditError → Loaded

-- What `new AuditWriter(...)` leaves: the writer, or its error, with the anchor.
pub data Constructed : Type 0 where
  constructed : AuditWriter → Constructed
  refused : AuditError → Constructed

module _ (hmac : String → String) where
  -- The loop that seals the legacy rows.
  unfoldable pub seal_rows : String → List Row → List Row
  unfolding compute_event_hash
  seal_rows previous_hash [] = []
  seal_rows previous_hash (row ∷ rows) =
      sealed_row hmac previous_hash row.content
      ∷ seal_rows (compute_event_hash hmac previous_hash row.content) rows

  unfoldable pub backfill_legacy_event_hashes : List Row → Loaded
  unfolding seal_rows
  backfill_legacy_event_hashes rows =
      let sealed = seal_rows zero_hash rows in
      if every is_sealed rows
      then loaded rows
      else if not (every is_legacy rows)
      then failed mixed_rows
      else loaded sealed

abbrev pub started : Option String → List Row → String → AuditWriter
started anchor rows hash = record {
  rows = rows;
  anchor = anchor;
  last_hash = hash;
  pending_anchor_repair_hash = none;
}

module _ (hmac : String → String) (conf : AuditConfig) where
  abbrev pub verified : Outcome × AuditWriter → Constructed
  verified (returns, w) = constructed w
  verified (throws e, w) = refused e

  abbrev pub with_hash : FileWrite → Option String → List Row → Recovered → Constructed
  with_hash file anchor rows (unrecovered e) = refused e
  with_hash file anchor rows (recovered hash) =
      verified (verify_anchored_hash conf conf.repair_hash_anchor file (started anchor rows hash))

  abbrev pub with_rows : FileWrite → Option String → Loaded → Constructed
  with_rows file anchor (failed e) = refused e
  with_rows file anchor (loaded rows) = with_hash file anchor rows (recover_last_hash hmac rows)

  abbrev pub with_secret :
      FileWrite → Option String → List Row → (secret path : Outcome) → Constructed
  with_secret file anchor rows (throws e) path = refused e
  with_secret file anchor rows returns (throws e) = refused e
  with_secret file anchor rows returns returns =
      with_rows file anchor (backfill_legacy_event_hashes hmac rows)

  -- new AuditWriter(sqlite, options), over the rows and the anchor that are there
  unfoldable pub construct : FileWrite → Option String → List Row → Constructed
  unfolding backfill_legacy_event_hashes recover_last_hash verify_anchored_hash
      assert_audit_hash_secret assert_audit_hash_anchor
  construct file anchor rows =
      with_secret file anchor rows (assert_audit_hash_secret conf.environment conf.hash_secret)
        (assert_audit_hash_anchor conf.environment conf.hash_anchor_path)

module _ {N : Type 0} where
  abbrev pub probe_data : JsonFields N
  probe_data = field "healthProbe" (bool true) no_fields

  abbrev pub probe : AuditConfig → (event_id correlation_id : String) → AuditEventInput N
  probe conf event_id correlation_id = record {
    event_id = some event_id;
    event_type = "broker.preflight";
    environment = environment_text conf.environment;
    correlation_id = correlation_id;
    intent_id = none;
    principal = none;
    prompt_id = none;
    session_id = none;
    input_ref = none;
    payload = probe_data;
  }

module _ {N : Type 0} ⦃number : JsNumber N⦄ (hmac : String → String) where
  -- Whether the row that is read back is the probe.
  unfoldable pub is_probe : AuditConfig → JsonFields N → String → AuditWriter → Row → Bool
  unfolding compute_event_hash stringify
  is_probe conf payload correlation_id w row =
      row.content.event_type == "broker.preflight"
      && row.content.correlation_id == correlation_id
      && row.content.environment == environment_text conf.environment
      && row.content.payload == stringify (obj payload)
      && is_text row.event_hash (compute_event_hash hmac row.previous_hash row.content)
      && is_text row.event_hash w.last_hash

  abbrev pub probe_found : AuditConfig → JsonFields N → String → AuditWriter → Option Row → Outcome
  probe_found conf payload correlation_id w none = throws probe_failed
  probe_found conf payload correlation_id w (some row) =
      if not (is_probe conf payload correlation_id w row)
      then throws probe_failed
      else anchor_outcome conf w

  abbrev pub probe_written :
      AuditConfig
      → JsonFields N
      → (event_id correlation_id : String) → Outcome × AuditWriter
      → Outcome × AuditWriter
  probe_written conf payload event_id correlation_id (throws e, w) = (throws e, w)
  probe_written conf payload event_id correlation_id (returns, w) =
      (probe_found conf payload correlation_id w (find (has_id event_id) w.rows), w)

-- checkHealth()
module _ (N : Type 0) ⦃number : JsNumber N⦄ (hmac redact_secrets : String → String) where
  unfoldable pub check_health :
      AuditConfig
      → Database
      → FileWrite
      → (event_id correlation_id now : String) → AuditWriter
      → Outcome × AuditWriter
  unfolding write is_probe anchor_outcome
  check_health conf database file event_id correlation_id now w =
      probe_written hmac conf (probe_data {N = N}) event_id correlation_id (
        write hmac redact_secrets conf database file event_id now
          (probe {N = N} conf event_id correlation_id) w)
