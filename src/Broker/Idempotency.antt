-- ===== src/Broker/Idempotency.antt =====
-- packages/broker/src/idempotency-store.ts: `InMemoryBrokerIdempotencyStore`. The promise of a
-- reservation is a cell that is settled at most once, as JavaScript promises are; the resolvers that
-- an entry keeps are the cell's address. `pruneExpired` has an empty body, and nothing reads
-- `expiresAt`, so neither is modelled. Keys and hashes are computed by the caller, see Broker/Keys.
pub mod Laws
pub mod Promises
pub mod Life
pub mod Refinement
use agent_trading_guardrails.Base.{
  ℕ, zero, suc, String, ◌==◌, Bool, true, false, not, ◌&&◌, Option, none, some, List, [], ◌∷◌, ◌++◌,
  length, if◌then◌else◌, is_some,
}
use agent_trading_guardrails.Base.Dict
use agent_trading_guardrails.Base.Dict.{Dict}

-- A promise of a result `R` that may be rejected with an error `E`.
pub data Promise (R E : Type 0) : Type 0 where
  unsettled : Promise R E
  resolved : R → Promise R E
  rejected : E → Promise R E

pub data Entry (R A : Type 0) : Type 0 where
  -- `settle` is the cell of `completePending` and `abortPending`, while the entry keeps them.
  cached :
      (payload_hash : String) (result : R) (pending_audit : Option A) (settle : Option ℕ)
      → Entry R A
  pending : (payload_hash : String) (promise : ℕ) → Entry R A

pub record Store (R A E : Type 0) : Type 0 where
  pub entries : Dict (Entry R A)
  pub promises : List (Promise R E)

pub data Reservation (R A : Type 0) : Type 0 where
  conflict : Reservation R A  -- `IdempotencyConflictError` is thrown
  reserved : Reservation R A
  known : (result : R) (pending_audit : Option A) → Reservation R A  -- status "cached"
  waiting : (promise : ℕ) → Reservation R A  -- status "pending"

module _ {R E : Type 0} where
  -- The second settlement of a promise has no effect.
  unfoldable pub settle : ℕ → Promise R E → List (Promise R E) → List (Promise R E)
  settle i p [] = []
  settle zero p (unsettled ∷ ps) = p ∷ ps
  settle zero p (q ∷ ps) = q ∷ ps
  settle (suc i) p (q ∷ ps) = q ∷ settle i p ps

  abbrev pub settle_kept : Option ℕ → Promise R E → List (Promise R E) → List (Promise R E)
  settle_kept none p ps = ps
  settle_kept (some i) p ps = settle i p ps

module _ {R A : Type 0} where
  abbrev pub entry_hash : Entry R A → String
  entry_hash (cached h result audit kept) = h
  entry_hash (pending h i) = h

  abbrev reservation_of : Entry R A → Reservation R A
  reservation_of (cached h result audit kept) = known result audit
  reservation_of (pending h i) = waiting i

module _ {R A E : Type 0} where
  abbrev pub empty : Store R A E
  empty = record { entries = []; promises = [] }

  -- begin(key, intent)
  unfoldable pub begin : String → String → Store R A E → Reservation R A × Store R A E
  begin key hash s = elim (Dict.get key s.entries) [
    | some entry ↦ (if entry_hash entry == hash then reservation_of entry else conflict, s)
    | none ↦ (
      reserved,
      record {
        entries = Dict.put key (pending hash (length s.promises)) s.entries;
        promises = s.promises ++ unsettled ∷ [];
      },
    )
  ]

  -- What `complete` makes of the entry that it finds.
  abbrev complete_entry :
      String → String → R → Option A → Store R A E → Option (Entry R A) → Store R A E
  complete_entry key hash result audit s (some (pending h i)) =
      if h == hash
      then record {
        entries = Dict.put key (cached hash result audit (some i)) s.entries;
        promises = if is_some audit then s.promises else settle i (resolved result) s.promises;
      }
      else s
  complete_entry key hash result audit s _ = s

  -- reservation.complete(result, pendingAudit)
  unfoldable pub complete : String → String → R → Option A → Store R A E → Store R A E
  complete key hash result audit s = complete_entry key hash result audit s (Dict.get key s.entries)

  abbrev complete_audit_entry : String → String → Store R A E → Option (Entry R A) → Store R A E
  complete_audit_entry key hash s (some (cached h result audit kept)) =
      if h == hash
      then record {
        entries = Dict.put key (cached h result none none) s.entries;
        promises = settle_kept kept (resolved result) s.promises;
      }
      else s
  complete_audit_entry key hash s _ = s

  -- reservation.completeAudit(), of a new reservation and of a cached one
  unfoldable pub complete_audit : String → String → Store R A E → Store R A E
  complete_audit key hash s = complete_audit_entry key hash s (Dict.get key s.entries)

  abbrev fail_audit_entry : String → String → E → Store R A E → Option (Entry R A) → Store R A E
  fail_audit_entry key hash error s (some (cached h result audit kept)) =
      if h == hash
      then record {
        entries = Dict.put key (cached h result audit none) s.entries;
        promises = settle_kept kept (rejected error) s.promises;
      }
      else s
  fail_audit_entry key hash error s _ = s

  -- reservation.failAudit(error)
  unfoldable pub fail_audit : String → String → E → Store R A E → Store R A E
  fail_audit key hash error s = fail_audit_entry key hash error s (Dict.get key s.entries)

  abbrev abort_entry : String → String → E → Store R A E → Option (Entry R A) → Store R A E
  abort_entry key hash error s (some (pending h i)) =
      if h == hash
      then record {
        entries = Dict.remove key s.entries;
        promises = settle i (rejected error) s.promises;
      }
      else s
  abort_entry key hash error s _ = s

  -- reservation.abort(error)
  unfoldable pub abort : String → String → E → Store R A E → Store R A E
  abort key hash error s = abort_entry key hash error s (Dict.get key s.entries)
