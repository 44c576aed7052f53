-- ===== src/Guardrail/Idempotency.antt =====
-- packages/guardrail-service/src/idempotency.ts: `IdempotencyStore`. A promise is a cell, as in
-- Broker/Idempotency; the functions that settle it are the cell's address.
use agent_trading_guardrails.Base.{
  ℕ, String, ◌==◌, not, Option, none, some, List, [], ◌∷◌, ◌++◌, length, if◌then◌else◌,
}
use agent_trading_guardrails.Base.Dict
use agent_trading_guardrails.Base.Dict.{Dict}
use agent_trading_guardrails.Broker.Idempotency.{Promise, unsettled, resolved, rejected, settle}

pub data Entry (D : Type 0) : Type 0 where
  complete : (payload_hash : String) (decision : D) → Entry D
  pending : (payload_hash : String) (promise : ℕ) → Entry D

pub record Store (D E : Type 0) : Type 0 where
  pub entries : Dict (Entry D)
  pub promises : List (Promise D E)

-- What `get` returns.
pub data Cached (D : Type 0) : Type 0 where
  missing : Cached D
  conflict : Cached D
  known : D → Cached D
  waiting : (promise : ℕ) → Cached D

module _ {D : Type 0} where
  abbrev pub entry_hash : Entry D → String
  entry_hash (complete h d) = h
  entry_hash (pending h i) = h

  abbrev pub cached_of : Entry D → Cached D
  cached_of (complete h d) = known d
  cached_of (pending h i) = waiting i

module _ {D E : Type 0} where
  abbrev pub empty : Store D E
  empty = record { entries = []; promises = [] }

  unfoldable pub get : String → String → Store D E → Cached D
  get key hash s = elim (Dict.get key s.entries) [
    | none ↦ missing
    | some entry ↦ if not (entry_hash entry == hash) then conflict else cached_of entry
  ]

  unfoldable pub reserve : String → String → Store D E → Store D E
  reserve key hash s = elim (Dict.get key s.entries) [
    | some entry ↦ s
    | none ↦ record {
      entries = Dict.put key (pending hash (length s.promises)) s.entries;
      promises = s.promises ++ unsettled ∷ [];
    }
  ]

  abbrev pub settle_pending :
      String → Promise D E → Option (Entry D) → List (Promise D E) → List (Promise D E)
  settle_pending hash p (some (pending h i)) ps = if h == hash then settle i p ps else ps
  settle_pending hash p _ ps = ps

  -- set(key, payloadHash, decision)
  unfoldable pub set : String → String → D → Store D E → Store D E
  set key hash d s = record {
    entries = Dict.put key (complete hash d) s.entries;
    promises = settle_pending hash (resolved d) (Dict.get key s.entries) s.promises;
  }

  abbrev pub abort_entry : String → String → E → Store D E → Option (Entry D) → Store D E
  abort_entry key hash e s (some (pending h i)) =
      if h == hash
      then record {
        entries = Dict.remove key s.entries;
        promises = settle i (rejected e) s.promises;
      }
      else s
  abort_entry key hash e s _ = s

  -- abort(key, payloadHash, error)
  unfoldable pub abort : String → String → E → Store D E → Store D E
  abort key hash e s = abort_entry key hash e s (Dict.get key s.entries)
