-- ===== src/Broker/FileTypes.antt =====
-- The data of `FileBrokerIdempotencyStore` in packages/broker/src/idempotency-store.ts.
use agent_trading_guardrails.Base.{ℕ, String, Option, none, some, List, []}
use agent_trading_guardrails.Base.Dict.{Dict}
use agent_trading_guardrails.Broker.Idempotency.{Promise}

-- `FileEntry`; `pendingAuditHash` is compared when the file is read only, see Broker/FileStore/Parse.
pub data FileEntry (R A : Type 0) : Type 0 where
  stored : (payload_hash : String) (result : R) (pending_audit : Option A) → FileEntry R A
  in_progress : (payload_hash : String) → FileEntry R A

-- An entry of the map `pending`: the cell stands for its promise and the two resolvers.
pub record Open : Type 0 where
  pub payload_hash : String
  pub promise : ℕ

-- What one process has in memory.
pub record Process (R E : Type 0) : Type 0 where
  pub pending : Dict Open
  pub promises : List (Promise R E)

abbrev pub started : {R E : Type 0} → Process R E
started = record { pending = []; promises = [] }

-- How `withLockedState` ends: it throws before the file is replaced (no lock, a text that is not
-- accepted, a full disk), it throws after that (the directory could not be synced), or it returns. That
-- the file is lost or deleted between two calls is not among these.
pub data Locking (E : Type 0) : Type 0 where
  replaced : Locking E
  unchanged_threw : E → Locking E
  replaced_threw : E → Locking E

abbrev pub file_after : {V E : Type 0} → Locking E → V → V → V
file_after replaced before after = after
file_after (unchanged_threw error) before after = before
file_after (replaced_threw error) before after = after

abbrev pub locking_error : {E : Type 0} → Locking E → Option E
locking_error replaced = none
locking_error (unchanged_threw error) = some error
locking_error (replaced_threw error) = some error

-- What `begin` returns or throws.
pub data FileReservation (R A E : Type 0) : Type 0 where
  conflict : FileReservation R A E
  reserved : FileReservation R A E
  known : (result : R) (pending_audit : Option A) → FileReservation R A E
  waiting : (promise : ℕ) → FileReservation R A E
  interrupted : FileReservation R A E  -- pending, with a promise that is rejected already
  threw_error : E → FileReservation R A E

-- A process, and the file that it shares with the others.
pub record Shared (R A E : Type 0) : Type 0 where
  pub process : Process R E
  pub file : Dict (FileEntry R A)
