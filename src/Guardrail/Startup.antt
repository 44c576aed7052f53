-- ===== src/Guardrail/Startup.antt =====
-- `assertDecisionSecret` and `health` of service.ts.
use agent_trading_guardrails.Base.{
  String, ◌==◌, Bool, true, false, not, ◌&&◌, Option, none, some, length, ltb, if◌then◌else◌,
}
use agent_trading_guardrails.Js.Text.{codes, is_empty}
use agent_trading_guardrails.Broker.Keys.{units}
use agent_trading_guardrails.Schemas.{Environment}
use agent_trading_guardrails.Guardrail.Host.{GuardrailHost}
use agent_trading_guardrails.Guardrail.World.{M, ask, pure, ◌>>=◌}

pub data SecretError : Type 0 where
  secret_is_required : SecretError  -- "Guardrail decision signing secret is required."
  default_secret : SecretError  -- "Default guardrail decision signing secret cannot be used ..."
  short_secret : SecretError  -- "... must be at least 32 characters outside dev."

abbrev is_dev : Environment → Bool
is_dev Environment.dev = true
is_dev _ = false

-- The error that is thrown, if any.
unfoldable pub assert_decision_secret : Environment → String → Option SecretError
unfolding units
assert_decision_secret environment secret =
    if is_empty secret
    then some secret_is_required
    else if not (is_dev environment) && secret == "dev-decision-secret"
    then some default_secret
    else if not (is_dev environment) && ltb (length (units (codes secret))) 32
    then some short_secret
    else none

pub data Status : Type 0 where
  ok degraded : Status

module _ {N S : Type 0} (host : GuardrailHost N S) where
  abbrev healthy : Option Bool → Status × Bool
  healthy none = (degraded, false)
  healthy (some b) = (if b then ok else degraded, b)

  unfoldable pub health : M N S (Status × Bool)
  unfolding ask pure ◌>>=◌
  health = do answer ← ask host.is_healthy; pure (healthy answer)
