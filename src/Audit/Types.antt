-- ===== src/Audit/Types.antt =====
-- packages/audit/src/schema.ts and the types of writer.ts: the rows of the table `audit_events`, the
-- events that are written, and the writer's own state. The rows are in the order of their ids.
use agent_trading_guardrails.Base.{String, Bool, Option, none, some, List, not}
use agent_trading_guardrails.Js.Text.{is_empty}
use agent_trading_guardrails.Schemas.{Environment}
use agent_trading_guardrails.Schemas.Json.{JsonFields}

-- A row without its hashes: the columns that the hash is computed from.
pub record Content : Type 0 where
  pub event_id : String
  pub event_type : String
  pub timestamp : String
  pub correlation_id : String
  pub environment : String
  pub intent_id : Option String
  pub principal : Option String
  pub prompt_id : Option String
  pub session_id : Option String
  pub input_ref : Option String
  pub payload : String  -- the column `data`

-- A legacy row has no `event_hash`.
pub record Row : Type 0 where
  pub content : Content
  pub previous_hash : String
  pub event_hash : Option String

pub record AuditEventInput (N : Type 0) : Type 0 where
  pub event_id : Option String
  pub event_type : String
  pub environment : String
  pub correlation_id : String
  pub intent_id : Option String
  pub principal : Option String
  pub prompt_id : Option String
  pub session_id : Option String
  pub input_ref : Option String
  pub payload : JsonFields N  -- the property `data`

-- What the writer is constructed with, the defaults filled in.
pub record AuditConfig : Type 0 where
  pub environment : Environment
  pub hash_secret : String
  pub hash_anchor_path : Option String
  pub repair_hash_anchor : Bool

-- `hashAnchorPath` is neither undefined nor "".
abbrev pub is_path : Option String → Bool
is_path none = Bool.false
is_path (some path) = not (is_empty path)

-- The database, the file at `hashAnchorPath` and the fields of the writer. `anchor` is the text of the
-- file as it is read, trimmed, and `none` when there is no file.
pub record AuditWriter : Type 0 where
  pub rows : List Row
  pub anchor : Option String
  pub last_hash : String
  pub pending_anchor_repair_hash : Option String

-- How a transaction of the database goes: it may not begin, the insertion may fail, or the commit.
pub data Database : Type 0 where
  commits locked insert_fails commit_fails : Database

-- How the replacement of the anchor's file goes. The new file is in place before the directory is
-- synchronised, which may fail too.
pub data FileWrite : Type 0 where
  written fails_before_rename fails_after_rename : FileWrite

-- The errors of writer.ts, in its order, and those of the database and of the file system.
pub data AuditError : Type 0 where
  mixed_rows : AuditError  -- "Audit event hash chain cannot mix legacy and sealed rows."
  chain_is_broken : AuditError  -- "Audit hash chain is broken."
  hash_is_missing : AuditError  -- "Audit event hash is missing."
  hash_mismatch : AuditError  -- "Audit event hash mismatch."
  id_conflict : AuditError  -- "Audit event id already exists with different content."
  probe_failed : AuditError  -- "Audit health probe did not persist a verifiable event."
  anchor_is_missing : AuditError  -- "Audit hash anchor is missing for a non-empty hash chain."
  anchor_mismatch : AuditError  -- "Audit hash anchor does not match the recovered hash chain."
  weak_secret : AuditError  -- "Audit hash secret must be configured with at least 32 characters ..."
  path_is_missing : AuditError  -- "Audit hash anchor path must be configured outside dev."
  database_error file_error : AuditError

-- The end of an operation that throws or returns nothing.
pub data Outcome : Type 0 where
  returns : Outcome
  throws : AuditError → Outcome
