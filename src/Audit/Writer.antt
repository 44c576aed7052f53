-- ===== src/Audit/Writer.antt =====
-- `write` of writer.ts, with `verifyAnchoredHash` and `writeAnchoredHash`. What the surroundings do is
-- an argument: how the transaction and the replacement of the file go, the fresh id and the time. An
-- existing anchor is taken to be readable.
use agent_trading_guardrails.Base.{
  String, ◌==◌, Bool, true, false, not, ◌&&◌, ◌||◌, Option, none, some, List, [], ◌∷◌, ◌++◌, find,
  if◌then◌else◌,
}
use agent_trading_guardrails.Js.{JsNumber}
use agent_trading_guardrails.Js.Text.{is_empty}
use agent_trading_guardrails.Schemas.Json.{obj}
use agent_trading_guardrails.Schemas.Stringify.{stringify}
use agent_trading_guardrails.Audit.Types.{
  Content, Row, AuditEventInput, AuditConfig, is_path, AuditWriter, Database, locked, insert_fails,
  commit_fails, FileWrite, written, fails_before_rename, fails_after_rename, id_conflict,
  anchor_is_missing, anchor_mismatch, database_error, file_error, Outcome, returns, throws,
}
use agent_trading_guardrails.Audit.Redact.{redact_event}
use agent_trading_guardrails.Audit.Chain.{
  zero_hash, compute_event_hash, recovered, unrecovered, Recovered, recover_last_hash,
}

-- Whether a value that may be undefined or null is this text.
abbrev pub is_text : Option String → String → Bool
is_text none t = false
is_text (some s) t = s == t

abbrev pub same_option : Option String → Option String → Bool
same_option none none = true
same_option (some s) (some t) = s == t
same_option _ _ = false

-- The comparison of the row that is there with the redacted event, `timestamp` left out.
unfoldable pub same_content : Content → Content → Bool
same_content a b =
    a.event_type == b.event_type
    && a.correlation_id == b.correlation_id
    && a.environment == b.environment
    && same_option a.intent_id b.intent_id
    && same_option a.principal b.principal
    && same_option a.prompt_id b.prompt_id
    && same_option a.session_id b.session_id
    && same_option a.input_ref b.input_ref
    && a.payload == b.payload

abbrev pub has_id : String → Row → Bool
has_id id row = row.content.event_id == id

module _ (conf : AuditConfig) where
  abbrev pub replace_anchor : FileWrite → String → AuditWriter → Outcome × AuditWriter
  replace_anchor written hash w = (returns, record w { anchor = some hash })
  replace_anchor fails_before_rename hash w = (throws file_error, w)
  replace_anchor fails_after_rename hash w = (throws file_error, record w { anchor = some hash })

  unfoldable pub write_anchored_hash :
      FileWrite → Option String → AuditWriter → Outcome × AuditWriter
  write_anchored_hash file none w = (returns, w)
  write_anchored_hash file (some hash) w =
      if not (is_path conf.hash_anchor_path) || is_empty hash
      then (returns, w)
      else replace_anchor file hash w

  abbrev pub compare_anchor : Bool → FileWrite → AuditWriter → Option String → Outcome × AuditWriter
  compare_anchor repair file w none =
      if w.last_hash == zero_hash
      then (returns, w)
      else if repair
      then write_anchored_hash file (some w.last_hash) w
      else (throws anchor_is_missing, w)
  compare_anchor repair file w (some anchored_hash) =
      if anchored_hash == w.last_hash
      then (returns, w)
      else if repair
      then write_anchored_hash file (some w.last_hash) w
      else (throws anchor_mismatch, w)

  unfoldable pub verify_anchored_hash : Bool → FileWrite → AuditWriter → Outcome × AuditWriter
  unfolding write_anchored_hash
  verify_anchored_hash repair file w =
      if not (is_path conf.hash_anchor_path)
      then (returns, w)
      else compare_anchor repair file w w.anchor

  -- verifyAnchoredHash(false), which changes nothing.
  unfoldable pub anchor_outcome : AuditWriter → Outcome
  unfolding verify_anchored_hash write_anchored_hash
  anchor_outcome w = (verify_anchored_hash false written w).0

-- How the callback of the transaction ends, with what it left in `committedHash`.
pub record Transacted : Type 0 where
  pub outcome : Outcome
  pub committed_hash : Option String
  pub writer : AuditWriter

-- A transaction that throws is rolled back; a commit that fails leaves the fields of the writer.
abbrev pub commit_end : Database → List Row → Transacted → Outcome → Transacted
commit_end commit_fails rows t returns = record {
  outcome = throws database_error;
  committed_hash = none;
  writer = record t.writer { rows = rows };
}
commit_end database rows t outcome = t

abbrev pub commit : Database → List Row → Transacted → Transacted
commit database rows t = commit_end database rows t t.outcome

-- The callback ends without a hash.
abbrev pub ends : AuditWriter → Outcome → Transacted
ends w o = record { outcome = o; committed_hash = none; writer = w }

abbrev pub sealed_row : (String → String) → String → Content → Row
sealed_row hmac previous_hash c = record {
  content = c;
  previous_hash = previous_hash;
  event_hash = some (compute_event_hash hmac previous_hash c);
}

abbrev pub with_row : (String → String) → Content → AuditWriter → AuditWriter
with_row hmac c w = record w {
  rows = w.rows ++ sealed_row hmac w.last_hash c ∷ [];
  last_hash = compute_event_hash hmac w.last_hash c;
}

module _ (hmac : String → String) (conf : AuditConfig) where
  -- The callback when the event id is there.
  abbrev pub repeat_end : (same is_last is_pending : Bool) → Outcome → AuditWriter → Transacted
  repeat_end same is_last is_pending checked w =
      if not same
      then ends w (throws id_conflict)
      else if not is_last
      then ends w checked
      else if not is_pending
      then ends w checked
      else record { outcome = returns; committed_hash = some w.last_hash; writer = w }

  unfoldable pub repeat_event : Content → Row → AuditWriter → Transacted
  unfolding same_content anchor_outcome
  repeat_event c existing w =
      repeat_end (same_content existing.content c) (is_text existing.event_hash w.last_hash)
        (is_text w.pending_anchor_repair_hash w.last_hash) (anchor_outcome conf w) w

  abbrev pub insert_row : Database → Content → AuditWriter → Outcome → Transacted
  insert_row database c w (throws e) = ends w (throws e)
  insert_row insert_fails c w returns = ends w (throws database_error)
  insert_row database c w returns = record {
    outcome = returns;
    committed_hash = some (compute_event_hash hmac w.last_hash c);
    writer = with_row hmac c w;
  }

  abbrev pub add_event : Database → Content → AuditWriter → Option Row → Transacted
  add_event database c w (some existing) = repeat_event c existing w
  add_event database c w none = insert_row database c w (anchor_outcome conf w)

  abbrev pub with_recovered : Database → Content → AuditWriter → Recovered → Transacted
  with_recovered database c w (unrecovered e) = ends w (throws e)
  with_recovered database c w (recovered hash) =
      let w' = record w { last_hash = hash } in
      add_event database c w' (find (has_id c.event_id) w.rows)

  unfoldable pub transaction : Database → Content → AuditWriter → Transacted
  unfolding recover_last_hash repeat_event compute_event_hash
  transaction locked c w = ends w (throws database_error)
  transaction database c w =
      commit database w.rows (with_recovered database c w (recover_last_hash hmac w.rows))

  -- The `try` after the transaction.
  abbrev pub settle_repair : Option String → Outcome × AuditWriter → Outcome × AuditWriter
  settle_repair none (o, w) = (o, w)
  settle_repair (some hash) (returns, w) =
      if not (is_empty hash) && is_text w.pending_anchor_repair_hash hash
      then (returns, record w { pending_anchor_repair_hash = none })
      else (returns, w)
  settle_repair (some hash) (throws e, w) =
      if not (is_empty hash)
      then (throws e, record w { pending_anchor_repair_hash = some hash })
      else (throws e, w)

  abbrev pub after_transaction :
      FileWrite → AuditWriter → Option String → Outcome → Outcome × AuditWriter
  after_transaction file w committed_hash (throws e) = (throws e, w)
  after_transaction file w committed_hash returns =
      settle_repair committed_hash (write_anchored_hash conf file committed_hash w)

  unfoldable pub write_content :
      Database → FileWrite → Content → AuditWriter → Outcome × AuditWriter
  unfolding transaction write_anchored_hash
  write_content database file c w =
      let t = transaction database c w in after_transaction file t.writer t.committed_hash t.outcome

abbrev or_fresh : Option String → String → String
or_fresh none fresh_id = fresh_id
or_fresh (some id) fresh_id = id

module _ {N : Type 0} ⦃number : JsNumber N⦄ (hmac redact_secrets : String → String)
    (conf : AuditConfig) where
  -- The columns of the row for an event: its own id, not the redacted one.
  unfoldable pub content_of : (fresh_id now : String) → AuditEventInput N → Content
  unfolding redact_event stringify
  content_of fresh_id now event =
      let redacted = redact_event redact_secrets event in
      record {
        event_id = or_fresh event.event_id fresh_id;
        event_type = redacted.event_type;
        timestamp = now;
        correlation_id = redacted.correlation_id;
        environment = redacted.environment;
        intent_id = redacted.intent_id;
        principal = redacted.principal;
        prompt_id = redacted.prompt_id;
        session_id = redacted.session_id;
        input_ref = redacted.input_ref;
        payload = stringify (obj redacted.payload);
      }

  unfoldable pub write :
      Database
      → FileWrite
      → (fresh_id now : String) → AuditEventInput N
      → AuditWriter
      → Outcome × AuditWriter
  unfolding content_of write_content
  write database file fresh_id now event w =
      write_content hmac conf database file (content_of fresh_id now event) w
