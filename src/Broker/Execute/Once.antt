-- ===== src/Broker/Execute/Once.antt =====
-- The broker as a whole, over any sequence of requests: how often it calls the connector.
use agent_trading_guardrails.Base.{
  ℕ, suc, String, ◌==◌, eq_iff, eq_refl, ◌≡◌, ◌≢◌, refl, ◌∙◌, ◌⊎◌, inl, inr, none, List, [], ◌∷◌,
  if◌then◌else◌, arith,
}
use agent_trading_guardrails.Base.Dict
use agent_trading_guardrails.Schemas.{TradingIntent}
use agent_trading_guardrails.Broker.Idempotency.Laws.{abort_call, perform, held_keeps}
use agent_trading_guardrails.Broker.World.{
  World, Effect, wrote, read_switch, asked_revalidation, consumed, called_connector, acted,
}
use agent_trading_guardrails.Broker.World.Rules.{IsQuiet, IsStable}
use agent_trading_guardrails.Broker.Execute.Phases.{Phases}

module _ {N : Type 0} where
  -- How many calls of the connector a trace has for a scoped key.
  unfoldable pub connector_calls : String → List (Effect N) → ℕ
  connector_calls key [] = 0
  connector_calls key (called_connector k intent ∷ trace) =
      let rest = connector_calls key trace in if k == key then suc rest else rest
  connector_calls key (e ∷ trace) = connector_calls key trace

  quiet_calls :
      (key : String) (e : Effect N) (trace : List (Effect N))
      → IsQuiet e
      → connector_calls key (e ∷ trace) ≡ connector_calls key trace
  unfolding connector_calls
  quiet_calls key (called_connector k intent) trace q = absurd q
  quiet_calls key (wrote event) trace q = refl
  quiet_calls key (read_switch scope reading) trace q = refl
  quiet_calls key (asked_revalidation intent) trace q = refl
  quiet_calls key (consumed id) trace q = refl
  quiet_calls key (acted intent) trace q = refl

module _ {N : Type 0} (key : String) where
  pub own_called :
      (intent : TradingIntent N) (trace : List (Effect N))
      → connector_calls key trace ≡ 0
      → connector_calls key (called_connector key intent ∷ trace) ≡ 1
  unfolding connector_calls
  own_called intent trace u = ground (arith, eq_refl key, u)

  pub other_called :
      (own : String) (intent : TradingIntent N) (trace : List (Effect N))
      → own ≢ key
      → connector_calls key (called_connector own intent ∷ trace) ≡ connector_calls key trace
  unfolding connector_calls
  other_called own intent trace ne = ground (arith, eq_iff own key)

module _ {N S : Type 0} (key : String) where
  -- The connector was called this often for the key.
  pub calls-IsStable : (n : ℕ) → IsStable (λ (w : World N S). connector_calls key w.trace ≡ n) key
  calls-IsStable n = record {
    hosted = λ w s u. u;
    logged = λ w e q u. omega (arith, quiet_calls key e w.trace q, u);
    updated = λ w c a u. u;
  }

module _ {N S : Type 0} (key : String) where
  abbrev pub Uncalled : World N S → Type 0
  Uncalled w = connector_calls key w.trace ≡ 0

  abbrev pub Held : World N S → Type 0
  Held w = Dict.get key w.idempotency.entries ≢ none

  -- The connector was never called for the key, or once, and then the key is held.
  abbrev pub Once : World N S → Type 0
  Once w = Uncalled w ⊎ ((connector_calls key w.trace ≡ 1) × Held w)

  pub Uncalled-IsStable : IsStable Uncalled key
  Uncalled-IsStable = calls-IsStable key 0

  pub Held-IsStable : (n : ℕ) → IsStable (λ w. (connector_calls key w.trace ≡ n) × Held w) key
  Held-IsStable n = record {
    hosted = λ w s h. h;
    logged = λ w e q h. (omega (arith, quiet_calls key e w.trace q, h.0), h.1);
    updated = λ w c a h. (h.0, held_keeps key w.idempotency c a h.1);
  }

  pub Once-IsStable : IsStable Once key
  Once-IsStable = record {
    hosted = λ w s o. o;
    logged = λ w e q o. elim o [
      | inl u ↦ inl (Uncalled-IsStable.logged w e q u)
      | inr h ↦ inr ((Held-IsStable 1).logged w e q h)
    ];
    updated = λ w c a o. elim o [ inl u ↦ inl u | inr h ↦ inr ((Held-IsStable 1).updated w c a h) ];
  }

  pub Once-called_other :
      (own : String) (intent : TradingIntent N) (w : World N S)
      → own ≢ key
      → Once w
      → Once (record w { trace = called_connector own intent ∷ w.trace })
  Once-called_other own intent w ne (inl u) = inl (other_called key own intent w.trace ne ∙ u)
  Once-called_other own intent w ne (inr h) =
      inr (other_called key own intent w.trace ne ∙ h.0, h.1)

  -- The phases of an execution for this key, and of one for another key.
  unfoldable pub own_phases : Phases N S key key
  own_phases = record {
    Before = λ w. (connector_calls key w.trace ≡ 0) × Held w;
    Ended = Uncalled;
    After = λ w. (connector_calls key w.trace ≡ 1) × Held w;
    before-IsStable = Held-IsStable 0;
    ended-IsStable = Uncalled-IsStable;
    after-IsStable = Held-IsStable 1;
    ends = λ w b. b.0;
    aborts = λ hash fault w u. u;
    calls = λ intent w b. (own_called key intent w.trace b.0, b.1);
  }

  unfoldable pub other_phases : (own : String) → own ≢ key → Phases N S key own
  unfolding perform
  other_phases own ne = record {
    Before = Once;
    Ended = Once;
    After = Once;
    before-IsStable = Once-IsStable;
    ended-IsStable = Once-IsStable;
    after-IsStable = Once-IsStable;
    ends = λ w o. o;
    aborts = λ hash fault w o. Once-IsStable.updated w (abort_call own hash fault) ne o;
    calls = λ intent w o. Once-called_other own intent w ne o;
  }
