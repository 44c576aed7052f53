-- ===== src/Broker/FileStore.antt =====
-- packages/broker/src/idempotency-store.ts: `FileBrokerIdempotencyStore`, whose entries stand in a file
-- that several processes share and that outlives them. A process keeps its open reservations and their
-- promises in memory, as in Broker/Idempotency; `file` is the object that the text of the file denotes.
-- How `withLockedState` ends is an argument of each call, since it depends on the lock, the disk and
-- the text of the file. Keys and hashes are computed by the caller, see Broker/Keys.
pub mod Cached
pub mod Encode
pub mod Parse
pub mod Readable
pub mod Recorded
pub mod Laws
pub mod Replays
pub mod Queries
mod Scenarios
use agent_trading_guardrails.Base.{
  ℕ, String, ◌==◌, Option, none, some, List, [], ◌∷◌, ◌++◌, length, if◌then◌else◌, is_some,
}
use agent_trading_guardrails.Base.Dict
use agent_trading_guardrails.Base.Dict.{Dict}
pub use agent_trading_guardrails.Broker.FileTypes.{
  FileEntry, stored, in_progress, Open, Process, started, Locking, replaced, unchanged_threw,
  replaced_threw, file_after, locking_error, FileReservation, conflict, reserved, known, waiting,
  interrupted, threw_error, Shared,
}
use agent_trading_guardrails.Broker.Idempotency.{Promise, unsettled, resolved, rejected, settle}

module _ {R E : Type 0} where
  -- The reservation is closed and its promise is settled.
  abbrev close : String → ℕ → Promise R E → Process R E → Process R E
  close key promise end p = record {
    pending = Dict.remove key p.pending;
    promises = settle promise end p.promises;
  }

  -- The promise of a completed reservation; `missing` is the error that its result is missing.
  abbrev completion : E → Option R → Promise R E
  completion missing (some result) = resolved result
  completion missing none = rejected missing

  abbrev settle_audit :
      E → String → String → Option E → Option R → Process R E → Option Open → Process R E
  settle_audit missing key hash error result p none = p
  settle_audit missing key hash error result p (some held) =
      if held.payload_hash == hash
      then elim error [
        | some e ↦ record p { promises = settle held.promise (rejected e) p.promises }
        | none ↦ close key held.promise (completion missing result) p
      ]
      else p

  abbrev closed_with : String → String → E → Process R E → Option Open → Process R E
  closed_with key hash error p none = p
  closed_with key hash error p (some held) =
      if held.payload_hash == hash then close key held.promise (rejected error) p else p

module _ {R A : Type 0} where
  abbrev pub file_hash : FileEntry R A → String
  file_hash (stored h result audit) = h
  file_hash (in_progress h) = h

  -- What the update of both functions `completeAudit` makes of the file.
  abbrev audited_file :
      String → String → Dict (FileEntry R A) → Option (FileEntry R A) → Dict (FileEntry R A)
  audited_file key hash file (some (stored h result audit)) =
      if h == hash then Dict.put key (stored h result none) file else file
  audited_file key hash file _ = file

  abbrev audited_result : String → Option (FileEntry R A) → Option R
  audited_result hash (some (stored h result audit)) = if h == hash then some result else none
  audited_result hash _ = none

  abbrev aborted_file :
      String → String → Dict (FileEntry R A) → Option (FileEntry R A) → Dict (FileEntry R A)
  aborted_file key hash file (some (in_progress h)) =
      if h == hash then Dict.remove key file else file
  aborted_file key hash file _ = file

module _ {R A E : Type 0} where
  -- What is made of an entry that was in the file: `error` is that of `validateCachedEntryForIntent`.
  abbrev existing_reservation :
      (error : R → Option A → Option E) → FileEntry R A → FileReservation R A E
  existing_reservation error (in_progress h) = interrupted
  existing_reservation error (stored h result audit) = elim (error result audit) [
    | some e ↦ threw_error e
    | none ↦ known result audit
  ]

  abbrev begin_locked :
      String
      → String
      → (R → Option A → Option E)
      → Locking E
      → Shared R A E
      → Option (FileEntry R A)
      → FileReservation R A E × Shared R A E
  begin_locked key hash error locking s (some entry) = elim (locking_error locking) [
    | some e ↦ (threw_error e, s)
    | none ↦ (if file_hash entry == hash then existing_reservation error entry else conflict, s)
  ]
  begin_locked key hash error locking s none =
      let written = file_after locking s.file (Dict.put key (in_progress hash) s.file) in
      elim (locking_error locking) [
        | some e ↦ (threw_error e, record s { file = written })
        | none ↦ (
          reserved,
          record {
            process = record {
              pending =
                  Dict.put key (record { payload_hash = hash; promise = length s.process.promises })
                    s.process.pending;
              promises = s.process.promises ++ unsettled ∷ [];
            };
            file = written;
          },
        )
      ]

  -- begin(key, intent)
  unfoldable pub begin :
      String
      → String
      → (R → Option A → Option E)
      → Locking E
      → Shared R A E
      → FileReservation R A E × Shared R A E
  begin key hash error locking s = elim (Dict.get key s.process.pending) [
    | some held ↦ (if held.payload_hash == hash then waiting held.promise else conflict, s)
    | none ↦ begin_locked key hash error locking s (Dict.get key s.file)
  ]

  abbrev complete_open :
      String
      → String
      → R
      → Option A
      → Locking E
      → Shared R A E
      → Option Open
      → Option E × Shared R A E
  complete_open key hash result audit locking s none = (none, s)
  complete_open key hash result audit locking s (some held) =
      let written = file_after locking s.file (Dict.put key (stored hash result audit) s.file) in
      if held.payload_hash == hash
      then elim (locking_error locking) [
        | some e ↦ (
          some e,
          record { process = close key held.promise (rejected e) s.process; file = written },
        )
        | none ↦ (
          none,
          record {
            process =
                if is_some audit
                then s.process
                else close key held.promise (resolved result) s.process;
            file = written;
          },
        )
      ]
      else (none, s)

  -- reservation.complete(result, pendingAudit), with the error that it throws
  unfoldable pub complete :
      String → String → R → Option A → Locking E → Shared R A E → Option E × Shared R A E
  complete key hash result audit locking s =
      complete_open key hash result audit locking s (Dict.get key s.process.pending)

  -- reservation.completeAudit() of a new reservation
  unfoldable pub complete_audit :
      E → String → String → Locking E → Shared R A E → Option E × Shared R A E
  complete_audit missing key hash locking s =
      let found = Dict.get key s.file in
      (
        locking_error locking,
        record {
          process =
              settle_audit missing key hash (locking_error locking) (audited_result hash found)
                s.process (Dict.get key s.process.pending);
          file = file_after locking s.file (audited_file key hash s.file found);
        },
      )

  -- reservation.completeAudit() of a cached one: the private method
  unfoldable pub complete_cached_audit :
      String → String → Locking E → Shared R A E → Option E × Shared R A E
  complete_cached_audit key hash locking s = (
    locking_error locking,
    record s {
      file = file_after locking s.file (audited_file key hash s.file (Dict.get key s.file));
    },
  )

  -- reservation.failAudit(error)
  unfoldable pub fail_audit : String → String → E → Shared R A E → Shared R A E
  fail_audit key hash error s = record s {
    process = closed_with key hash error s.process (Dict.get key s.process.pending);
  }

  abbrev abort_open :
      String → String → E → Locking E → Shared R A E → Option Open → Option E × Shared R A E
  abort_open key hash error locking s none = (none, s)
  abort_open key hash error locking s (some held) =
      if held.payload_hash == hash
      then (
        locking_error locking,
        record {
          process = close key held.promise (rejected error) s.process;
          file = file_after locking s.file (aborted_file key hash s.file (Dict.get key s.file));
        },
      )
      else (none, s)

  -- reservation.abort(error)
  unfoldable pub abort : String → String → E → Locking E → Shared R A E → Option E × Shared R A E
  abort key hash error locking s =
      abort_open key hash error locking s (Dict.get key s.process.pending)
