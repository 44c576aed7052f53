-- ===== src/Broker/Rehearsal/Finished.antt =====
-- When the function `finish` of `dryRun` hands out an authorization.
use agent_trading_guardrails.Base.{
  String, ◌≡◌, refl, sym, ap, ◌∙◌, Bool, true, false, not, ◌&&◌, ◌||◌, Option, none, some, List,
  ◌∷◌, ◌++◌, every, arith,
}
use mathlib.Core.Path.{subst}
use mathlib.Core.List.{append-nil}
use agent_trading_guardrails.Js.{JsNumber}
use agent_trading_guardrails.Schemas.{TradingIntent}
use agent_trading_guardrails.Broker.Types.{PreflightCheckResult, BrokerAuditEvent}
use agent_trading_guardrails.Broker.Host.{
  Host, BrokerConfig, GuardrailApproval, DryRunAuthorization,
}
use agent_trading_guardrails.Broker.DryRun.{dry_run_is_fresh, create_dry_run_authorization}
use agent_trading_guardrails.Broker.World.{
  World, Outcome, returned, threw, wrote, pure, throw, ask, log, catching, ◌>>=◌,
}
use agent_trading_guardrails.Broker.Preflight.{audit, all_passed, after_write}
use agent_trading_guardrails.Broker.Rehearsal.{
  DryRunReport, report, written, dry_run_event, authorized, audited, finish_dry_run,
  freshness_checks,
}
use agent_trading_guardrails.Broker.Rehearsal.Inverse.{bind_inverse, pure_inverse, catching_inverse}

module _ {N S : Type 0} ⦃number : JsNumber N⦄ (host : Host N S) (cfg : BrokerConfig N)
    (approval : GuardrailApproval N) where
  -- The report with an authorization that was made in the world `u` for this intent and these checks.
  pub record IsFinished (intent : TradingIntent N) (checks : List PreflightCheckResult)
      (u : World N S) (r : DryRunReport) (end : World N S) : Type 0 where
    pub passed : every (λ c. c.passed) checks ≡ true
    pub checks_kept : r.checks ≡ checks
    pub read_at : r.checked_at ≡ (host.clock u.host).0
    pub fresh :
        dry_run_is_fresh host approval.decided_at r.checked_at cfg.decision_max_age_ms ≡ true
    pub made :
        r.authorization
        ≡ some
            (create_dry_run_authorization host cfg.decision_verification_secret intent r.checked_at)
    pub written_last : end.trace ≡ wrote (dry_run_event host cfg approval (some intent) r) ∷ u.trace

  -- The report for these checks, when `all` of them passed and the decision is `fresh`.
  abbrev report_of : List PreflightCheckResult → String → (all fresh : Bool) → DryRunReport
  report_of checks at all fresh =
      report host cfg approval at (all && (not all || fresh))
        (checks ++ freshness_checks host cfg approval (not all || fresh))

  abbrev handed :
      Option (TradingIntent N)
      → List PreflightCheckResult
      → String
      → (all fresh : Bool) → Outcome (Unit {0})
      → DryRunReport
  handed intent checks at all fresh o =
      authorized host cfg approval intent
        (audited host cfg approval (report_of checks at all fresh) o)

  -- No authorization is handed out otherwise.
  handed_cases :
      (intent : Option (TradingIntent N)) (checks : List PreflightCheckResult) (at : String)
      (all fresh : Bool) (o : Outcome (Unit {0})) {a : DryRunAuthorization}
      → (handed intent checks at all fresh o).authorization ≡ some a
      → (all ≡ true)
        × (fresh ≡ true)
        × (o ≡ returned tt)
        × ((i : TradingIntent N) × (intent ≡ some i))
  handed_cases none checks at all fresh (returned u) h = absurd (ground (arith, h))
  handed_cases none checks at all fresh (threw fault) h = absurd (ground (arith, h))
  handed_cases (some i) checks at all fresh (threw fault) h = absurd (ground (arith, h))
  handed_cases (some i) checks at false fresh (returned u) h = absurd (ground (arith, h))
  handed_cases (some i) checks at true false (returned u) h = absurd (ground (arith, h))
  handed_cases (some i) checks at true true (returned u) h = (refl, refl, refl, (i, refl))

  -- A write that returned is on the trace.
  written_trace :
      (event : BrokerAuditEvent N) (error : Option String) (w : World N S) {v : World N S}
      → after_write host event error w ≡ (returned tt, v)
      → v.trace ≡ wrote event ∷ w.trace
  unfolding log throw
  written_trace event none w h = sym (ap (λ p. p.1.trace) h)
  written_trace event (some error) w h = absurd (ground (arith, ap (λ p. p.0) h))

  -- The report, once everything is known.
  handed-IsFinished :
      (i : TradingIntent N) (checks : List PreflightCheckResult) (u end : World N S)
      → (all fresh : Bool) → every (λ c. c.passed) checks ≡ all
      → all ≡ true
      → dry_run_is_fresh host approval.decided_at (host.clock u.host).0 cfg.decision_max_age_ms
        ≡ fresh
      → fresh ≡ true
      → end.trace
        ≡ wrote (
            dry_run_event host cfg approval
              (some i)
              (report_of checks (host.clock u.host).0 all fresh))
          ∷ u.trace
      → IsFinished i checks u
          (handed (some i) checks (host.clock u.host).0 all fresh (returned tt))
          end
  handed-IsFinished i checks u end false fresh h p k q t = absurd (ground (arith, p))
  handed-IsFinished i checks u end true false h p k q t = absurd (ground (arith, q))
  handed-IsFinished i checks u end true true h p k q t = record {
    passed = h;
    checks_kept = append-nil checks;
    read_at = refl;
    fresh = k;
    made = refl;
    written_last = t;
  }

  closed :
      (intent : Option (TradingIntent N)) (checks : List PreflightCheckResult) (u : World N S)
      (o : Outcome (Unit {0})) {end : World N S} {a : DryRunAuthorization}
      → (let at = (host.clock u.host).0 in
          audit host
            (dry_run_event host cfg approval intent (written host cfg approval checks at))
            (record u { host = (host.clock u.host).1 })
          ≡ (o, end))
      → (authorized host cfg approval intent (
          audited host cfg approval
            (written host cfg approval checks (host.clock u.host).0)
            o)).authorization
        ≡ some a
      → (i : TradingIntent N) × (intent ≡ some i)
        × IsFinished i checks u
            (authorized host cfg approval intent (
              audited host cfg approval (written host cfg approval checks (host.clock u.host).0) o))
            end
  unfolding audit ◌>>=◌ ask
  closed none checks u (returned tt) h made = absurd (ground (arith, made))
  closed none checks u (threw fault) h made = absurd (ground (arith, made))
  closed (some i) checks u (threw fault) h made = absurd (ground (arith, made))
  closed (some i) checks u (returned tt) {end} {a} h made =
      let at = (host.clock u.host).0 in
      let fresh = dry_run_is_fresh host approval.decided_at at cfg.decision_max_age_ms in
      let (passed, in_time, returns, named) =
        handed_cases (some i) checks at (all_passed host checks) fresh (returned tt) {a = a} made in
      (
        i,
        refl,
        handed-IsFinished i checks u end (all_passed host checks) fresh refl passed refl in_time
            (written_trace _ _ _ h),
      )

  pub finish-IsFinished :
      (intent : Option (TradingIntent N)) (checks : List PreflightCheckResult) (u : World N S)
      {r : DryRunReport} {end : World N S} {a : DryRunAuthorization}
      → finish_dry_run host cfg approval intent checks u ≡ (returned r, end)
      → r.authorization ≡ some a
      → (i : TradingIntent N) × (intent ≡ some i) × IsFinished i checks u r end
  unfolding finish_dry_run ◌>>=◌ ask
  finish-IsFinished intent checks u {r} {end} {a} h made =
      let at = (host.clock u.host).0 in
      let (o, v, caught, rest) =
        bind_inverse
          (catching (
            audit host
              (dry_run_event host cfg approval intent (written host cfg approval checks at))))
          (λ outcome. pure (
            authorized host cfg approval intent
              (audited host cfg approval (written host cfg approval checks at) outcome)))
          (record u { host = (host.clock u.host).1 }) h in
      let (same, stays) = pure_inverse _ v rest in
      subst (λ x. (i : TradingIntent N) × (intent ≡ some i) × IsFinished i checks u x end) same
        (closed intent checks u o
          (catching_inverse
              (audit host
                (dry_run_event host cfg approval intent (written host cfg approval checks at)))
              _ caught
            ∙ ap (λ t. (o, t)) stays)
          (ap (λ x. x.authorization) same ∙ made))
