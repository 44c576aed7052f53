-- ===== src/Broker/World.antt =====
-- The broker's actions: they change the collaborators' state and the idempotency store, and may
-- throw. The trace, newest first, records the calls that the theorems speak of.
pub mod Rules
use agent_trading_guardrails.Base.{String, Option, none, some, List, ◌∷◌}
use agent_trading_guardrails.Schemas.{TradingIntent}
use agent_trading_guardrails.Broker.Types.{KillSwitchScope, BrokerExecutionResult, BrokerAuditEvent}
use agent_trading_guardrails.Broker.Host.{Reading}
use agent_trading_guardrails.Broker.Idempotency.{Store}

pub data Fault : Type 0 where
  audit_fault : String → Fault  -- the audit writer threw
  kill_switch_unreachable : Fault  -- `KillSwitchReachabilityError`
  connector_revalidation : String → Fault  -- `ConnectorRevalidationError`
  connector_fault : String → Fault  -- another error of the connector
  revalidation_fault : Fault  -- `revalidate` rejected
  approval_fault : Fault  -- the approval store threw
  message : String → Fault  -- `new Error(text)`

pub data Effect (N : Type 0) : Type 0 where
  wrote : BrokerAuditEvent N → Effect N  -- the audit writer returned
  read_switch : KillSwitchScope → Reading → Effect N
  asked_revalidation : TradingIntent N → Effect N
  consumed : String → Effect N  -- the store consumed this approval
  called_connector : (scoped_key : String) → TradingIntent N → Effect N
  acted : TradingIntent N → Effect N  -- the connector's side effect

pub record World (N S : Type 0) : Type 0 where
  pub host : S
  pub idempotency : Store (BrokerExecutionResult N) (BrokerAuditEvent N) Fault
  pub trace : List (Effect N)

pub data Outcome (A : Type 0) : Type 0 where
  returned : A → Outcome A
  threw : Fault → Outcome A

abbrev pub M : Type 0 → Type 0 → Type 0 → Type 0
M N S A = World N S → Outcome A × World N S

module _ {N S A : Type 0} where
  unfoldable pub pure : A → M N S A
  pure a w = (returned a, w)

  unfoldable pub throw : Fault → M N S A
  throw fault w = (threw fault, w)

  -- A call of a collaborator.
  unfoldable pub ask : (S → A × S) → M N S A
  ask f w = let (a, s) = f w.host in (returned a, record w { host = s })

  unfoldable pub from_option : Fault → Option A → M N S A
  from_option fault none w = (threw fault, w)
  from_option fault (some a) w = (returned a, w)

  abbrev pub after_throw : (Fault → M N S (Unit {0})) → Outcome A → M N S A
  after_throw handler (returned a) w = (returned a, w)
  after_throw handler (threw fault) w = (threw fault, (handler fault w).1)

  -- `try { m } catch (err) { handler(err); throw err; }`, for a handler that does not throw.
  unfoldable pub on_throw : (Fault → M N S (Unit {0})) → M N S A → M N S A
  on_throw handler m w = let (o, w') = m w in after_throw handler o w'

  -- `try { m } catch (err) { ... }` where the error is looked at.
  unfoldable pub catching : M N S A → M N S (Outcome A)
  catching m w = let (o, w') = m w in (returned o, w')

module _ {N S A B : Type 0} where
  abbrev pub continue : Outcome A → (A → M N S B) → M N S B
  continue (returned a) f w = f a w
  continue (threw fault) f w = (threw fault, w)

  infixl 10 ◌>>=◌ ◌>>◌
  unfoldable pub ◌>>=◌ : M N S A → (A → M N S B) → M N S B
  ◌>>=◌ m f w = let (o, w') = m w in continue o f w'

  abbrev pub ◌>>◌ : M N S A → M N S B → M N S B
  m >> n = m >>= λ _. n

module _ {N S : Type 0} where
  unfoldable pub log : Effect N → M N S (Unit {0})
  log e w = (returned tt, record w { trace = e ∷ w.trace })

  unfoldable pub update_store :
      (Store (BrokerExecutionResult N) (BrokerAuditEvent N) Fault
        → Store (BrokerExecutionResult N) (BrokerAuditEvent N) Fault)
      → M N S (Unit {0})
  update_store f w = (returned tt, record w { idempotency = f w.idempotency })
