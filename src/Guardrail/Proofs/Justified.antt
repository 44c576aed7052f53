-- ===== src/Guardrail/Proofs/Justified.antt =====
-- Each decision that the service keeps or returns denies, or rests on a review, on a risk result that
-- passed and on an output of the policy engine with that decision.
use agent_trading_guardrails.Base.{
  String, ◌==◌, ◌≡◌, sym, Bool, true, false, not, Option, none, some, if◌then◌else◌, length, ◌++◌,
  ◌∷◌, [],
}
use mathlib.Core.Path.{subst}
use agent_trading_guardrails.Base.Dict
use agent_trading_guardrails.Base.Dict.{get-put, get-remove}
use agent_trading_guardrails.Schemas.{Review, DynamicRiskResult}
use agent_trading_guardrails.Guardrail.Types.{GuardrailDecision, PolicyOutput, is_deny}
use agent_trading_guardrails.Guardrail.Idempotency
use agent_trading_guardrails.Guardrail.Idempotency.{
  Entry, complete, pending, Store, Cached, missing, conflict, known, waiting, cached_of, entry_hash,
  settle_pending, abort_entry,
}
use agent_trading_guardrails.Broker.Idempotency.{unsettled, rejected, settle}
use agent_trading_guardrails.Guardrail.Proofs.Sound.{IsSound}

pub data IsJustified {N : Type 0} (d : GuardrailDecision N) : Type 0 where
  denies : is_deny d.outcome ≡ true → IsJustified d
  rests :
      (review : Review) (risk : DynamicRiskResult N) (p : PolicyOutput)
      → d.reviewer_verdict ≡ some review
      → d.risk_result ≡ some risk
      → risk.passed ≡ true
      → d.policy_output ≡ some p
      → p.decision ≡ d.outcome
      → IsSound p
      → IsJustified d

abbrev pub EntryIsJustified : {N : Type 0} → Option (Entry (GuardrailDecision N)) → Type 0
EntryIsJustified (some (complete h d)) = IsJustified d
EntryIsJustified _ = Unit

-- Each decision in the store is justified.
pub record AllJustified {N E : Type 0} (s : Store (GuardrailDecision N) E) : Type 0 where
  pub stored : (key : String) → EntryIsJustified (Dict.get key s.entries)

module _ {N E : Type 0} where
  -- One entry replaced, and one removed.
  put-stored :
      (key : String) (e : Entry (GuardrailDecision N)) (s : Store (GuardrailDecision N) E)
      → AllJustified s
      → EntryIsJustified (some e)
      → (other : String) → EntryIsJustified (Dict.get other (Dict.put key e s.entries))
  put-stored key e s a j other =
      subst EntryIsJustified (sym (get-put key other e s.entries)) (chosen (key == other))
    where
      chosen : (b : Bool) → EntryIsJustified (if b then some e else Dict.get other s.entries)
      chosen true = j
      chosen false = a.stored other

  remove-stored :
      (key : String) (s : Store (GuardrailDecision N) E)
      → AllJustified s
      → (other : String) → EntryIsJustified (Dict.get other (Dict.remove key s.entries))
  remove-stored key s a other =
      subst EntryIsJustified (sym (get-remove key other s.entries)) (chosen (key == other))
    where
      chosen : (b : Bool) → EntryIsJustified (if b then none else Dict.get other s.entries)
      chosen true = tt
      chosen false = a.stored other

  pub empty-AllJustified : AllJustified (Idempotency.empty {D = GuardrailDecision N} {E = E})
  unfolding Dict.get
  empty-AllJustified = record { stored = λ key. tt }

  pub set-AllJustified :
      (key hash : String) (d : GuardrailDecision N) (s : Store (GuardrailDecision N) E)
      → AllJustified s
      → IsJustified d
      → AllJustified (Idempotency.set key hash d s)
  unfolding Idempotency.set
  set-AllJustified key hash d s a j = record { stored = put-stored key (complete hash d) s a j }

  pub reserve-AllJustified :
      (key hash : String) (s : Store (GuardrailDecision N) E)
      → AllJustified s
      → AllJustified (Idempotency.reserve key hash s)
  unfolding Idempotency.reserve
  reserve-AllJustified key hash s a = go (Dict.get key s.entries)
    where
      go :
          (o : Option (Entry (GuardrailDecision N)))
          → AllJustified (elim o [
            | some entry ↦ s
            | none ↦ record {
              entries = Dict.put key (pending hash (length s.promises)) s.entries;
              promises = s.promises ++ unsettled ∷ [];
            }
          ])
      go (some entry) = a
      go none = record { stored = put-stored key (pending hash (length s.promises)) s a tt }

  abort_entry-AllJustified :
      (key hash : String) (e : E) (s : Store (GuardrailDecision N) E)
      (o : Option (Entry (GuardrailDecision N)))
      → AllJustified s
      → AllJustified (abort_entry key hash e s o)
  abort_entry-AllJustified key hash e s none a = a
  abort_entry-AllJustified key hash e s (some (complete h d)) a = a
  abort_entry-AllJustified key hash e s (some (pending h i)) a = chosen (h == hash)
    where
      chosen :
          (b : Bool)
          → AllJustified (
              if b
              then record {
                entries = Dict.remove key s.entries;
                promises = settle i (rejected e) s.promises;
              }
              else s)
      chosen true = record { stored = remove-stored key s a }
      chosen false = a

  pub abort-AllJustified :
      (key hash : String) (e : E) (s : Store (GuardrailDecision N) E)
      → AllJustified s
      → AllJustified (Idempotency.abort key hash e s)
  unfolding Idempotency.abort
  abort-AllJustified key hash e s a =
      abort_entry-AllJustified key hash e s (Dict.get key s.entries) a

abbrev pub CachedIsJustified : {N : Type 0} → Cached (GuardrailDecision N) → Type 0
CachedIsJustified (known d) = IsJustified d
CachedIsJustified _ = Unit

found_CachedIsJustified :
    {N : Type 0} (e : Entry (GuardrailDecision N)) (differs : Bool)
    → EntryIsJustified (some e)
    → CachedIsJustified (if differs then conflict else cached_of e)
found_CachedIsJustified e true j = tt
found_CachedIsJustified (complete h d) false j = j
found_CachedIsJustified (pending h i) false j = tt

module _ {N E : Type 0} where
  pub get-CachedIsJustified :
      (key hash : String) (s : Store (GuardrailDecision N) E)
      → AllJustified s
      → CachedIsJustified (Idempotency.get key hash s)
  unfolding Idempotency.get
  get-CachedIsJustified key hash s a = go (Dict.get key s.entries) (a.stored key)
    where
      go :
          (o : Option (Entry (GuardrailDecision N)))
          → EntryIsJustified o
          → CachedIsJustified (elim o [
            | none ↦ missing
            | some entry ↦ if not (entry_hash entry == hash) then conflict else cached_of entry
          ])
      go none j = tt
      go (some entry) j = found_CachedIsJustified entry (not (entry_hash entry == hash)) j
