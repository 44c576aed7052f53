-- ===== src/Broker/Rehearsal/Readings.antt =====
-- What `dryRun` learns of the connector and of the kill switch when both let the intent pass.
use agent_trading_guardrails.Base.{
  ◌≡◌, refl, sym, ap, ◌∙◌, Bool, true, false, Option, none, some, List, [], ◌∷◌, if◌then◌else◌,
  every, arith,
}
use mathlib.Core.Path.{subst}
use agent_trading_guardrails.Js.{JsNumber}
use agent_trading_guardrails.Schemas.{TradingIntent}
use agent_trading_guardrails.Broker.Types.{KillSwitchScope, PreflightCheckResult}
use agent_trading_guardrails.Broker.Host.{
  Host, BrokerConfig, GuardrailApproval, Revalidation, Reading, says, not_boolean, unreadable,
}
use agent_trading_guardrails.Broker.World.{
  World, Outcome, returned, threw, read_switch, pure, throw, ask, log, catching, ◌>>=◌,
}
use agent_trading_guardrails.Broker.Preflight.{
  blocking, read_kill_switch_blocking, first_blocking, get_kill_switch_scopes,
}
use agent_trading_guardrails.Broker.Execute.Guarded.{newest_first, IsClear, AllRead, scopes_read}
use agent_trading_guardrails.Broker.Rehearsal.{
  passes, connector_check, is_open, after_revalidation, broker_revalidation,
}
use agent_trading_guardrails.Broker.Rehearsal.Inverse.{bind_inverse, pure_inverse, catching_inverse}

module _ {N S : Type 0} (host : Host N S) (intent : TradingIntent N) where
  lets_pass :
      (reading : Reading) (w : World N S) {v : World N S}
      → blocking host intent reading w ≡ (returned false, v)
      → IsClear intent reading × (w ≡ v)
  unfolding pure throw
  lets_pass (says active) w h = (ground (arith, ap (λ p. p.0) h), ap (λ p. p.1) h)
  lets_pass not_boolean w h = absurd (ground (arith, ap (λ p. p.0) h))
  lets_pass unreadable w h = absurd (ground (arith, ap (λ p. p.0) h))

  one_reading :
      (scope : KillSwitchScope) (done : List KillSwitchScope) (w : World N S) {v : World N S}
      → AllRead intent done w.trace
      → read_kill_switch_blocking host scope intent w ≡ (returned false, v)
      → AllRead intent (scope ∷ done) v.trace
  unfolding read_kill_switch_blocking ◌>>=◌ ask log
  one_reading scope done w before h =
      let (clear, same) =
        lets_pass (host.is_active scope w.host).0
          (record w {
            host = (host.is_active scope w.host).1;
            trace = read_switch scope (host.is_active scope w.host).0 ∷ w.trace;
          })
          h in
      subst (λ v. AllRead intent (scope ∷ done) v.trace) same (refl, clear, before)

  after_reading :
      (scope : KillSwitchScope) (scopes done : List KillSwitchScope) (blocked : Bool)
      (w : World N S) {end : World N S}
      → (blocked ≡ false
          → first_blocking host intent scopes w ≡ (returned none, end)
          → AllRead intent (newest_first scopes (scope ∷ done)) end.trace)
      → (if blocked then pure (some scope) else first_blocking host intent scopes) w
        ≡ (returned none, end)
      → AllRead intent (newest_first scopes (scope ∷ done)) end.trace
  after_reading scope scopes done true w next h =
      absurd (ground (arith, (pure_inverse (some scope) w h).0))
  after_reading scope scopes done false w next h = next refl h

  -- The loop that finds no scope that blocks has read them all, and nothing else was done.
  pub first_blocking-AllRead :
      (scopes done : List KillSwitchScope) (w : World N S) {end : World N S}
      → AllRead intent done w.trace
      → first_blocking host intent scopes w ≡ (returned none, end)
      → AllRead intent (newest_first scopes done) end.trace
  unfolding first_blocking
  first_blocking-AllRead [] done w before h =
      subst (λ v. AllRead intent done v.trace) (pure_inverse none w h).1 before
  first_blocking-AllRead (scope ∷ scopes) done w {end} before h =
      let (blocked, v, read, rest) =
        bind_inverse (read_kill_switch_blocking host scope intent)
          (λ b. if b then pure (some scope) else first_blocking host intent scopes) w h in
      after_reading scope scopes done blocked v
        (λ clear. first_blocking-AllRead scopes (scope ∷ done) v (
          one_reading scope done w before (
            subst (λ b. read_kill_switch_blocking host scope intent w ≡ (returned b, v)) clear
              read)))
        rest

module _ {N S : Type 0} ⦃number : JsNumber N⦄ (host : Host N S) (cfg : BrokerConfig N)
    (approval : GuardrailApproval N) (intent : TradingIntent N) where
  -- The connector was asked in the world `v` and passed the intent; then the switch was read for every
  -- scope of the intent, no reading blocks it, and the world is `u`.
  pub record IsRevalidated (v u : World N S) : Type 0 where
    pub validation : Revalidation
    pub answered : (host.revalidate intent v.host).0 ≡ some validation
    pub passed : validation.passed ≡ true
    pub readings : AllRead intent (scopes_read intent) u.trace
    pub unblocked :
        first_blocking host intent
          (get_kill_switch_scopes intent)
          (record v { host = (host.revalidate intent v.host).1 })
        ≡ (returned none, u)

  abbrev pub late_checks : List PreflightCheckResult
  late_checks = passes "connector" ∷ passes "late_kill_switch" ∷ []

  abbrev Revalidates : World N S → List PreflightCheckResult → World N S → Type 0
  Revalidates v late u = (late ≡ late_checks) × IsRevalidated v u

  looked :
      (v : World N S) (validation : Revalidation) (passed : Bool)
      (o : Outcome (Option KillSwitchScope)) (late : List PreflightCheckResult) (u : World N S)
      → (host.revalidate intent v.host).0 ≡ some validation
      → validation.passed ≡ passed
      → first_blocking host intent
          (get_kill_switch_scopes intent)
          (record v { host = (host.revalidate intent v.host).1 })
        ≡ (o, u)
      → (connector_check host cfg approval validation ∷ is_open host cfg approval o) ≡ late
      → every (λ c. c.passed) late ≡ true
      → Revalidates v late u
  looked v validation false o late u q k fb same h =
      absurd (ground (arith, k, subst (λ l. every (λ c. c.passed) l ≡ true) (sym same) h))
  looked v validation true (returned (some scope)) late u q k fb same h =
      absurd (ground (arith, k, subst (λ l. every (λ c. c.passed) l ≡ true) (sym same) h))
  looked v validation true (threw fault) late u q k fb same h =
      absurd (ground (arith, k, subst (λ l. every (λ c. c.passed) l ≡ true) (sym same) h))
  looked v validation true (returned none) late u q k fb same h = (
    sym same ∙ ground (arith, k),
    record {
      validation = validation;
      answered = q;
      passed = k;
      readings =
          first_blocking-AllRead host intent (get_kill_switch_scopes intent) []
            (record v { host = (host.revalidate intent v.host).1 }) tt fb;
      unblocked = fb;
    },
  )

  asked :
      (v : World N S) (answer : Option Revalidation) {late : List PreflightCheckResult}
      {u : World N S}
      → (host.revalidate intent v.host).0 ≡ answer
      → after_revalidation host cfg approval intent answer
          (record v { host = (host.revalidate intent v.host).1 })
        ≡ (returned late, u)
      → every (λ c. c.passed) late ≡ true
      → Revalidates v late u
  asked v none q h all =
      absurd (
        ground
          (arith, subst (λ l. every (λ c. c.passed) l ≡ true) (sym (pure_inverse _ _ h).0) all))
  asked v (some validation) {late} {u} q h all =
      let (o, x, caught, rest) =
        bind_inverse (catching (first_blocking host intent (get_kill_switch_scopes intent)))
          (λ blocked.
            pure (connector_check host cfg approval validation ∷ is_open host cfg approval blocked))
          (record v { host = (host.revalidate intent v.host).1 }) h in
      let (same, stays) = pure_inverse _ x rest in
      looked v validation validation.passed o late u q refl
        (subst
          (λ t.
            first_blocking host intent (get_kill_switch_scopes intent)
              (record v { host = (host.revalidate intent v.host).1 })
            ≡ (o, t))
          stays
          (catching_inverse (first_blocking host intent (get_kill_switch_scopes intent)) _ caught))
        same all

  pub broker_revalidation-IsRevalidated :
      (v : World N S) {late : List PreflightCheckResult} {u : World N S}
      → broker_revalidation host cfg approval intent v ≡ (returned late, u)
      → every (λ c. c.passed) late ≡ true
      → (late ≡ late_checks) × IsRevalidated v u
  unfolding broker_revalidation ◌>>=◌ ask
  broker_revalidation-IsRevalidated v h all = asked v (host.revalidate intent v.host).0 refl h all
