-- ===== src/Guardrail/World.antt =====
-- The service's actions: they change the collaborators' state and the idempotency store, and may throw.
pub mod Rules
use agent_trading_guardrails.Base.{Bool, true, false, Option, none, some}
use agent_trading_guardrails.Guardrail.Types.{GuardrailDecision}
use agent_trading_guardrails.Guardrail.Idempotency.{Store}

pub data Fault : Type 0 where
  audit_fault approval_fault : Fault

pub record World (N S : Type 0) : Type 0 where
  pub host : S
  pub idempotency : Store (GuardrailDecision N) Fault

pub data Outcome (A : Type 0) : Type 0 where
  returned : A → Outcome A
  threw : Fault → Outcome A

abbrev pub M : Type 0 → Type 0 → Type 0 → Type 0
M N S A = World N S → Outcome A × World N S

module _ {N S A : Type 0} where
  unfoldable pub pure : A → M N S A
  pure a w = (returned a, w)

  unfoldable pub throw : Fault → M N S A
  throw fault w = (threw fault, w)

  -- A call of a collaborator.
  unfoldable pub ask : (S → A × S) → M N S A
  ask f w = let (a, s) = f w.host in (returned a, record w { host = s })

  unfoldable pub from_option : Fault → Option A → M N S A
  from_option fault none w = (threw fault, w)
  from_option fault (some a) w = (returned a, w)

  abbrev pub rescue : (Fault → M N S A) → Outcome A → M N S A
  rescue handler (returned a) w = (returned a, w)
  rescue handler (threw fault) w = handler fault w

  -- `try { m } catch (err) { handler(err) }`
  unfoldable pub catch : M N S A → (Fault → M N S A) → M N S A
  catch m handler w = let (o, w') = m w in rescue handler o w'

module _ {N S : Type 0} where
  -- A call that throws this fault or returns nothing.
  unfoldable pub attempt : Fault → Bool → M N S (Unit {0})
  attempt fault true w = (returned tt, w)
  attempt fault false w = (threw fault, w)

module _ {N S A B : Type 0} where
  abbrev pub continue : Outcome A → (A → M N S B) → M N S B
  continue (returned a) f w = f a w
  continue (threw fault) f w = (threw fault, w)

  infixl 10 ◌>>=◌ ◌>>◌
  unfoldable pub ◌>>=◌ : M N S A → (A → M N S B) → M N S B
  ◌>>=◌ m f w = let (o, w') = m w in continue o f w'

  abbrev pub ◌>>◌ : M N S A → M N S B → M N S B
  m >> n = m >>= λ _. n

module _ {N S : Type 0} where
  unfoldable pub update_store :
      (Store (GuardrailDecision N) Fault → Store (GuardrailDecision N) Fault) → M N S (Unit {0})
  update_store f w = (returned tt, record w { idempotency = f w.idempotency })
