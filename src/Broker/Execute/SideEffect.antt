-- ===== src/Broker/Execute/SideEffect.antt =====
-- The callback that a connector runs before a side effect.
use agent_trading_guardrails.Base.{
  String, ◌≡◌, refl, Bool, true, false, Option, none, some, [], if◌then◌else◌,
}
use agent_trading_guardrails.Js.{JsNumber}
use agent_trading_guardrails.Schemas.{TradingIntent}
use agent_trading_guardrails.Broker.Types.{KillSwitchScope}
use agent_trading_guardrails.Broker.Host.{Host, BrokerConfig, DryRunAuthorization}
use agent_trading_guardrails.Broker.World.{
  World, M, Outcome, returned, threw, continue, pure, throw, ask, catching, connector_revalidation,
  ◌>>=◌, ◌>>◌,
}
use agent_trading_guardrails.Broker.Preflight.{get_kill_switch_scopes}
use agent_trading_guardrails.Broker.Execute.Connector.{
  assert_not_blocked, before_connector_side_effect, dry_run_still_fresh,
}
use agent_trading_guardrails.Broker.Execute.Phases.{EndsStage}
use agent_trading_guardrails.Broker.Execute.Guarded.{
  AllRead, scopes_read, IsGuarded, HasRead, first_blocking-ends,
}

module _ {N S : Type 0} ⦃number : JsNumber N⦄ (host : Host N S) (cfg : BrokerConfig N)
    (intent : TradingIntent N) (correlation_id now : String)
    (authorization : Option DryRunAuthorization) where
  abbrev IsFreshAt : S → Type 0
  IsFreshAt s =
      dry_run_still_fresh host cfg intent correlation_id now authorization (host.clock s).0 ≡ true

  -- What the callback has established if it returned.
  abbrev pub IsAllowed : Outcome (Unit {0}) → World N S → Type 0
  IsAllowed (returned u) w =
      AllRead intent (scopes_read intent) w.trace
      × ((s : S) × ((host.clock s).1 ≡ w.host) × IsFreshAt s)
  IsAllowed (threw fault) w = Unit

  fresh-IsAllowed :
      (fresh : Bool) (w : World N S)
      → AllRead intent (scopes_read intent) w.trace
      → (fresh ≡ true → (s : S) × ((host.clock s).1 ≡ w.host) × IsFreshAt s)
      → IsAllowed
          ((if fresh
              then pure tt
              else throw (connector_revalidation "Dry-run report expired before submission."))
            w).0
          ((if fresh
              then pure tt
              else throw (connector_revalidation "Dry-run report expired before submission."))
            w).1
  unfolding pure throw
  fresh-IsAllowed true w read h = (read, h refl)
  fresh-IsAllowed false w read h = tt

  -- The rest of the callback, after the readings.
  abbrev rest : Outcome (Option KillSwitchScope) → M N S (Unit {0})
  rest blocked = do
    assert_not_blocked host cfg intent correlation_id now blocked
    read_at ← ask host.clock
    (if dry_run_still_fresh host cfg intent correlation_id now authorization read_at
        then pure tt
        else throw (connector_revalidation "Dry-run report expired before submission."))

  audited_then_thrown :
      (o : Outcome (Unit {0})) (w : World N S) (g : Unit {0} → M N S (Unit {0}))
      → IsAllowed
          (continue
            (continue {B = Unit {0}} o
              (λ u. throw (connector_revalidation "Kill switch is active."))
              w).0
            g
            (continue {B = Unit {0}} o
              (λ u. throw (connector_revalidation "Kill switch is active."))
              w).1).0
          (continue
            (continue {B = Unit {0}} o
              (λ u. throw (connector_revalidation "Kill switch is active."))
              w).0
            g
            (continue {B = Unit {0}} o
              (λ u. throw (connector_revalidation "Kill switch is active."))
              w).1).1
  unfolding throw
  audited_then_thrown (returned u) w g = tt
  audited_then_thrown (threw fault) w g = tt

  rest-IsAllowed :
      (o : Outcome (Option KillSwitchScope)) (w : World N S)
      → EndsStage (HasRead host intent (scopes_read intent)) IsGuarded o w
      → IsAllowed (rest o w).0 (rest o w).1
  unfolding ◌>>=◌ pure ask throw
  rest-IsAllowed (returned none) w h =
      fresh-IsAllowed
        (dry_run_still_fresh host cfg intent correlation_id now authorization (host.clock w.host).0)
        (record w { host = (host.clock w.host).1 }) h.0 (λ f. (w.host, refl, f))
  rest-IsAllowed (returned (some scope)) w g = audited_then_thrown _ _ _
  rest-IsAllowed (threw fault) w g = tt

  -- In a world that the broker reaches, the callback that a connector runs before a side effect
  -- returns only if it has just read the switch for every scope of the intent, no reading blocks the
  -- intent, and then, for a canary order, the dry run was still fresh at the time that the clock says.
  pub side_effect-IsAllowed :
      (w : World N S)
      → IsGuarded w
      → IsAllowed
          (before_connector_side_effect host cfg intent correlation_id now authorization w).0
          (before_connector_side_effect host cfg intent correlation_id now authorization w).1
  unfolding before_connector_side_effect ◌>>=◌ catching
  side_effect-IsAllowed w g =
      rest-IsAllowed _ _
        ((first_blocking-ends host intent (get_kill_switch_scopes intent) []).leads w (tt, g))
