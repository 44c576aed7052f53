-- ===== src/Guardrail/World/Rules.antt =====
-- Rules for what an action keeps of the world and ensures of what it returns, one per way to build an
-- action.
use agent_trading_guardrails.Base.{Bool, true, false, Option, none, some}
use agent_trading_guardrails.Guardrail.Types.{GuardrailDecision}
use agent_trading_guardrails.Guardrail.Idempotency.{Store}
use agent_trading_guardrails.Guardrail.World.{
  World, M, Fault, Outcome, returned, threw, pure, throw, ask, from_option, rescue, catch, attempt,
  continue, update_store, ◌>>=◌,
}

-- `Q` of what is returned.
abbrev pub Returns : {A : Type 0} → (A → Type 0) → Outcome A → Type 0
Returns Q (returned a) = Q a
Returns Q (threw fault) = Unit

abbrev pub Anything : {A : Type 0} → A → Type 0
Anything a = Unit

module _ {N S A : Type 0} where
  pub record Ensures (P : World N S → Type 0) (Q : A → Type 0) (m : M N S A) : Type 0 where
    pub ensured : (w : World N S) → P w → P (m w).1 × Returns Q (m w).0

module _ {N S : Type 0} (P : World N S → Type 0) where
  -- What no collaborator disturbs.
  pub record IsHosted : Type 0 where
    pub hosted : (w : World N S) (s : S) → P w → P (record w { host = s })

module _ {N S A : Type 0} {P : World N S → Type 0} where
  pub pure-Ensures : {Q : A → Type 0} (a : A) → Q a → Ensures P Q (pure a)
  unfolding pure
  pure-Ensures a q = record { ensured = λ w p. (p, q) }

  pub throw-Ensures : {Q : A → Type 0} (fault : Fault) → Ensures P Q (throw fault)
  unfolding throw
  throw-Ensures fault = record { ensured = λ w p. (p, tt) }

  pub ask-Ensures : IsHosted P → (f : S → A × S) → Ensures P Anything (ask f)
  unfolding ask
  ask-Ensures h f = record { ensured = λ w p. (h.hosted w (f w.host).1 p, tt) }

  pub from_option-Ensures :
      (fault : Fault) (a : Option A) → Ensures P Anything (from_option fault a)
  unfolding from_option
  from_option-Ensures fault none = record { ensured = λ w p. (p, tt) }
  from_option-Ensures fault (some a) = record { ensured = λ w p. (p, tt) }

  rescue-Ensures :
      {Q : A → Type 0} (handler : Fault → M N S A) (o : Outcome A)
      → ((fault : Fault) → Ensures P Q (handler fault))
      → Returns Q o
      → Ensures P Q (rescue handler o)
  rescue-Ensures handler (returned a) h q = record { ensured = λ w p. (p, q) }
  rescue-Ensures handler (threw fault) h q = h fault

  pub catch-Ensures :
      {Q : A → Type 0} {m : M N S A} {handler : Fault → M N S A}
      → Ensures P Q m
      → ((fault : Fault) → Ensures P Q (handler fault))
      → Ensures P Q (catch m handler)
  unfolding catch
  catch-Ensures {m} {handler} hm hh = record {
    ensured = λ w p.
        let first = hm.ensured w p in
        (rescue-Ensures handler (m w).0 hh first.1).ensured (m w).1 first.0;
  }

module _ {N S : Type 0} {P : World N S → Type 0} where
  pub attempt-Ensures : (fault : Fault) (b : Bool) → Ensures P Anything (attempt fault b)
  unfolding attempt
  attempt-Ensures fault true = record { ensured = λ w p. (p, tt) }
  attempt-Ensures fault false = record { ensured = λ w p. (p, tt) }

  pub update_store-Ensures :
      (f : Store (GuardrailDecision N) Fault → Store (GuardrailDecision N) Fault)
      → ((w : World N S) → P w → P (record w { idempotency = f w.idempotency }))
      → Ensures P Anything (update_store f)
  unfolding update_store
  update_store-Ensures f h = record { ensured = λ w p. (h w p, tt) }

module _ {N S A B : Type 0} {P : World N S → Type 0} where
  continue-Ensures :
      {Q : A → Type 0} {R : B → Type 0} (f : A → M N S B) (o : Outcome A)
      → ((a : A) → Q a → Ensures P R (f a))
      → Returns Q o
      → Ensures P R (continue o f)
  continue-Ensures f (returned a) h q = h a q
  continue-Ensures f (threw fault) h q = record { ensured = λ w p. (p, tt) }

  pub bind-Ensures :
      {Q : A → Type 0} {R : B → Type 0} {m : M N S A} {f : A → M N S B}
      → Ensures P Q m
      → ((a : A) → Q a → Ensures P R (f a))
      → Ensures P R (m >>= f)
  unfolding ◌>>=◌
  bind-Ensures {Q} {m} {f} hm hf = record {
    ensured = λ w p.
        let first = hm.ensured w p in
        (continue-Ensures {Q = Q} f (m w).0 hf first.1).ensured (m w).1 first.0;
  }

  -- When nothing is known of what the first action returns.
  pub step-Ensures :
      {R : B → Type 0} {m : M N S A} {f : A → M N S B}
      → Ensures P Anything m
      → ((a : A) → Ensures P R (f a))
      → Ensures P R (m >>= f)
  step-Ensures {m} {f} hm hf = bind-Ensures {Q = Anything} {m = m} {f = f} hm (λ a t. hf a)
