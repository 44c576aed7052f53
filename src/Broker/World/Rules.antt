-- ===== src/Broker/World/Rules.antt =====
-- Rules for what an action keeps, one per way to build an action.
use agent_trading_guardrails.Base.{
  Bool, true, false, Option, none, some, if◌then◌else◌, ◌∷◌, String,
}
use agent_trading_guardrails.Broker.Types.{BrokerExecutionResult, BrokerAuditEvent}
use agent_trading_guardrails.Broker.Idempotency.Laws.{Call, AbortsNot, perform}
use agent_trading_guardrails.Broker.World.{
  World, M, Fault, Effect, called_connector, Outcome, returned, threw, pure, throw, ask,
  from_option, after_throw, on_throw, catching, continue, log, update_store, ◌>>=◌,
}

-- An effect that is no call of the connector.
abbrev pub IsQuiet : {N : Type 0} → Effect N → Type 0
IsQuiet (called_connector key intent) = ⊥
IsQuiet _ = Unit

module _ {N S : Type 0} (P : World N S → Type 0) where
  -- What the actions other than the call of the connector and an abort of this key do not disturb.
  pub record IsStable (key : String) : Type 0 where
    pub hosted : (w : World N S) (s : S) → P w → P (record w { host = s })
    pub logged :
        (w : World N S) (e : Effect N) → IsQuiet e → P w → P (record w { trace = e ∷ w.trace })
    pub updated :
        (w : World N S) (c : Call (BrokerExecutionResult N) (BrokerAuditEvent N) Fault)
        → AbortsNot key c
        → P w
        → P (record w { idempotency = perform w.idempotency c })

module _ {N S A : Type 0} where
  pub record Keeps (P : World N S → Type 0) (m : M N S A) : Type 0 where
    pub kept : (w : World N S) → P w → P (m w).1

module _ {N S A : Type 0} {P : World N S → Type 0} where
  pub pure-Keeps : (a : A) → Keeps P (pure a)
  unfolding pure
  pure-Keeps a = record { kept = λ w p. p }

  pub throw-Keeps : (fault : Fault) → Keeps P (throw {A = A} fault)
  unfolding throw
  throw-Keeps fault = record { kept = λ w p. p }

  pub from_option-Keeps : (fault : Fault) (a : Option A) → Keeps P (from_option fault a)
  unfolding from_option
  from_option-Keeps fault none = record { kept = λ w p. p }
  from_option-Keeps fault (some a) = record { kept = λ w p. p }

  pub ask-Keeps : {key : String} → IsStable P key → (f : S → A × S) → Keeps P (ask f)
  unfolding ask
  ask-Keeps stable f = record { kept = λ w p. stable.hosted w (f w.host).1 p }

  pub catching-Keeps : (m : M N S A) → Keeps P m → Keeps P (catching m)
  unfolding catching
  catching-Keeps m h = record { kept = λ w p. h.kept w p }

  pub after_throw-Keeps :
      (handler : Fault → M N S (Unit {0}))
      → ((fault : Fault) → Keeps P (handler fault))
      → (o : Outcome A) → Keeps P (after_throw handler o)
  after_throw-Keeps handler h (returned a) = record { kept = λ w p. p }
  after_throw-Keeps handler h (threw fault) = record { kept = λ w p. (h fault).kept w p }

  pub on_throw-Keeps :
      (handler : Fault → M N S (Unit {0})) (m : M N S A)
      → ((fault : Fault) → Keeps P (handler fault))
      → Keeps P m
      → Keeps P (on_throw handler m)
  unfolding on_throw
  on_throw-Keeps handler m h k = record {
    kept = λ w p. (after_throw-Keeps handler h (m w).0).kept (m w).1 (k.kept w p);
  }

  pub if-Keeps :
      (test : Bool) (m n : M N S A) → Keeps P m → Keeps P n → Keeps P (if test then m else n)
  if-Keeps true m n h k = h
  if-Keeps false m n h k = k

module _ {N S A B : Type 0} {P : World N S → Type 0} where
  pub continue-Keeps :
      (f : A → M N S B) → ((a : A) → Keeps P (f a)) → (o : Outcome A) → Keeps P (continue o f)
  continue-Keeps f h (returned a) = record { kept = λ w p. (h a).kept w p }
  continue-Keeps f h (threw fault) = record { kept = λ w p. p }

  pub bind-Keeps :
      (m : M N S A) (f : A → M N S B) → Keeps P m → ((a : A) → Keeps P (f a)) → Keeps P (m >>= f)
  unfolding ◌>>=◌
  bind-Keeps m f h k = record {
    kept = λ w p. (continue-Keeps f k (m w).0).kept (m w).1 (h.kept w p);
  }

module _ {N S : Type 0} {P : World N S → Type 0} {key : String} (stable : IsStable P key) where
  pub log-Keeps : (e : Effect N) → IsQuiet e → Keeps P (log e)
  unfolding log
  log-Keeps e q = record { kept = λ w p. stable.logged w e q p }

  pub update-Keeps :
      (c : Call (BrokerExecutionResult N) (BrokerAuditEvent N) Fault)
      → AbortsNot key c
      → Keeps P (update_store (λ s. perform s c))
  unfolding update_store
  update-Keeps c a = record { kept = λ w p. stable.updated w c a p }
