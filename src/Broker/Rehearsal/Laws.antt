-- ===== src/Broker/Rehearsal/Laws.antt =====
-- What stands behind the authorization of a dry run.
use agent_trading_guardrails.Base.{
  String, eq_iff, ◌≡◌, ◌≢◌, refl, sym, ap, ◌⊎◌, Bool, true, false, not, Option, none, some, List,
  [], ◌∷◌, ◌++◌, every, every-append, arith, if◌then◌else◌,
}
use mathlib.Core.Path.{subst}
use mathlib.Core.Option.{some-injective}
use agent_trading_guardrails.Js.{JsNumber}
use agent_trading_guardrails.Schemas.{production, TradingIntent, envelope}
use agent_trading_guardrails.Schemas.Encode.{environment_text}
use agent_trading_guardrails.Broker.Types.{PreflightCheckResult}
use agent_trading_guardrails.Broker.Host.{
  Host, BrokerConfig, GuardrailApproval, absent, DryRunAuthorization,
}
use agent_trading_guardrails.Broker.DryRun.{is_hex64_any_case, same_digest, dry_run_is_fresh}
use agent_trading_guardrails.Broker.World.{World, M, returned, pure, ask, ◌>>=◌}
use agent_trading_guardrails.Broker.Preflight.{
  all_passed, check_kill_switch, check_audit, check_approval, write_summary,
  record_failed_audit_check, preflight,
}
use agent_trading_guardrails.Broker.Decision.{is_canary, create_guardrail_decision_token}
use agent_trading_guardrails.Broker.Execute.Trusted.{environment_text_injective}
use agent_trading_guardrails.Broker.Rehearsal.{
  DryRunReport, passes, finish_dry_run, broker_revalidation, decision_check, environment_check,
  after_preflight, dry_run_checked, dry_run_of, dry_run_token_matches, valid_decision,
  environment_matches, dry_run,
}
use agent_trading_guardrails.Broker.Rehearsal.Inverse.{
  bind_inverse, Returning, pure-Returning, bind-Returning,
}
use agent_trading_guardrails.Broker.Rehearsal.Readings.{
  IsRevalidated, late_checks, broker_revalidation-IsRevalidated,
}
use agent_trading_guardrails.Broker.Rehearsal.Finished.{IsFinished, finish-IsFinished}

module _ {N S : Type 0} ⦃number : JsNumber N⦄ (host : Host N S) (cfg : BrokerConfig N)
    (approval : GuardrailApproval N) where
  -- The decision, at the time of the clock when the dry run began.
  pub record IsRehearsable (intent : TradingIntent N) (now : String) : Type 0 where
    pub dry_run_only : approval.dry_run ≡ true
    pub same_intent : approval.intent_id ≡ (envelope intent).intent_id
    pub outcome : (approval.outcome ≡ "allow") ⊎ (approval.outcome ≡ "needs_human")
    pub fresh : dry_run_is_fresh host approval.decided_at now cfg.decision_max_age_ms ≡ true
    pub token : is_hex64_any_case approval.decision_token ≡ true
    pub signed :
        same_digest approval.decision_token (
          create_guardrail_decision_token host cfg.decision_verification_secret intent
            approval.outcome approval.correlation_id approval.decided_at absent approval.dry_run)
        ≡ true
    pub environment : (envelope intent).environment ≡ cfg.environment
    pub not_production : cfg.environment ≢ production
    pub enabled : is_canary host cfg ≡ true → cfg.canary_live_enabled ≡ true

  -- The preflight of a canary broker; the others have none.
  abbrev pub live : TradingIntent N → M N S (Bool × List PreflightCheckResult)
  live intent =
      if is_canary host cfg
      then preflight host cfg intent approval.correlation_id
      else pure (true, [])

  -- The steps of a dry run that hands out an authorization: from the world `w`, in which the clock is
  -- read, the preflight leads to `before`, in which the connector is asked, and the readings of the
  -- switch lead to `after`, in which the clock is read again and the report is written.
  pub record IsBacked (w : World N S) (intent : TradingIntent N) (r : DryRunReport)
      (end : World N S) : Type 0 where
    pub parsed : approval.intent ≡ some intent
    pub decision : IsRehearsable intent (host.clock w.host).0
    pub live_checks : List PreflightCheckResult
    pub before : World N S
    pub preflighted :
        live intent (record w { host = (host.clock w.host).1 })
        ≡ (returned (true, live_checks), before)
    pub after : World N S
    pub revalidated : IsRevalidated host cfg approval intent before after
    pub finished :
        IsFinished host cfg approval intent
          (passes "decision" ∷ passes "environment" ∷ live_checks
            ++ late_checks host cfg approval intent)
          after
          r
          end

  -- What a preflight or its omission returns: whether all of its checks passed, and these.
  abbrev IsCounted : Bool × List PreflightCheckResult → Type 0
  IsCounted (passed, checks) = every (λ c. c.passed) checks ≡ passed

  preflight-IsCounted :
      (intent : TradingIntent N)
      → Returning IsCounted (preflight host cfg intent approval.correlation_id)
  unfolding preflight
  preflight-IsCounted intent = bind-Returning (check_kill_switch host intent) λ kill_switch.
      bind-Returning (check_audit host) λ audit_check.
        bind-Returning (check_approval host) λ approved.
          bind-Returning
            (write_summary host cfg intent approval.correlation_id
              (kill_switch ∷ audit_check ∷ approved ∷ []))
            λ summarised.
              let final =
                if summarised
                then kill_switch ∷ audit_check ∷ approved ∷ []
                else record_failed_audit_check host "Audit preflight summary could not be written."
                    (kill_switch ∷ audit_check ∷ approved ∷ []) in
              pure-Returning (all_passed host final, final) refl

  live-IsCounted :
      (intent : TradingIntent N) (canary : Bool)
      → Returning IsCounted
          (if canary then preflight host cfg intent approval.correlation_id else pure (true, []))
  live-IsCounted intent true = preflight-IsCounted intent
  live-IsCounted intent false = pure-Returning (true, []) refl

  -- The steps after the guards.
  abbrev Leads : World N S → TradingIntent N → DryRunReport → World N S → Type 0
  Leads w intent r end =
      (cs : List PreflightCheckResult) × (before : World N S) × (after : World N S) × (live intent w
        ≡ (returned (true, cs), before))
      × IsRevalidated host cfg approval intent before after
      × IsFinished host cfg approval intent
          (passes "decision" ∷ passes "environment" ∷ cs ++ late_checks host cfg approval intent)
          after r end

  finished_passed :
      (intent : Option (TradingIntent N)) (checks : List PreflightCheckResult) (u end : World N S)
      (r : DryRunReport) (a : DryRunAuthorization)
      → finish_dry_run host cfg approval intent checks u ≡ (returned r, end)
      → r.authorization ≡ some a
      → every (λ c. c.passed) checks ≡ true
  finished_passed intent checks u end r a h made =
      let (i, _, done) = finish-IsFinished host cfg approval intent checks u h made in done.passed

  own_report :
      (intent : TradingIntent N) (checks : List PreflightCheckResult) (u end : World N S)
      (r : DryRunReport) (a : DryRunAuthorization)
      → finish_dry_run host cfg approval (some intent) checks u ≡ (returned r, end)
      → r.authorization ≡ some a
      → IsFinished host cfg approval intent checks u r end
  own_report intent checks u end r a h made =
      let (i, same, done) = finish-IsFinished host cfg approval (some intent) checks u h made in
      subst (λ t. IsFinished host cfg approval t checks u r end)
        (sym (some-injective intent i same)) done

  after_preflight_cases :
      (intent : TradingIntent N) (w before end : World N S) (passed : Bool)
      (cs : List PreflightCheckResult) (r : DryRunReport) (a : DryRunAuthorization)
      → live intent w ≡ (returned (passed, cs), before)
      → after_preflight host cfg approval intent
          (passes "decision" ∷ passes "environment" ∷ [])
          (passed, cs)
          before
        ≡ (returned r, end)
      → r.authorization ≡ some a
      → Leads w intent r end
  after_preflight_cases intent w before end false cs r a q h made = absurd (
      ground (
        arith,
        finished_passed (some intent) (passes "decision" ∷ passes "environment" ∷ cs) before end r a
            h made,
        (live-IsCounted intent (is_canary host cfg)).returns w q,
      ))
  after_preflight_cases intent w before end true cs r a q h made =
      let (late, after, looks, finishes) =
        bind_inverse (broker_revalidation host cfg approval intent)
          (λ late.
            finish_dry_run host cfg approval (some intent)
              (passes "decision" ∷ passes "environment" ∷ cs ++ late))
          before h in
      let done =
        own_report intent (passes "decision" ∷ passes "environment" ∷ cs ++ late) after end r a
          finishes made in
      let (named, revalidated) =
        broker_revalidation-IsRevalidated host cfg approval intent before looks
          (ground (arith, done.passed, every-append (λ c. c.passed) cs late)) in
      (
        cs,
        before,
        after,
        q,
        revalidated,
        subst
            (λ l.
              IsFinished host cfg approval intent
                (passes "decision" ∷ passes "environment" ∷ cs ++ l) after r end)
            named done,
      )

  checked_leads :
      (intent : TradingIntent N) (w end : World N S) (r : DryRunReport) (a : DryRunAuthorization)
      → dry_run_checked host cfg approval intent (passes "decision" ∷ passes "environment" ∷ []) w
        ≡ (returned r, end)
      → r.authorization ≡ some a
      → Leads w intent r end
  unfolding dry_run_checked
  checked_leads intent w end r a h made =
      let (o, before, q, rest) =
        bind_inverse (live intent)
          (after_preflight host cfg approval intent (passes "decision" ∷ passes "environment" ∷ []))
          w h in
      after_preflight_cases intent w before end o.0 o.1 r a q rest made

  valid_cases :
      (intent : TradingIntent N) (now : String) (w end : World N S) (r : DryRunReport)
      (a : DryRunAuthorization) (valid matches : Bool)
      → valid_decision host cfg approval now intent ≡ valid
      → environment_matches host cfg approval intent ≡ matches
      → (if not valid
            then finish_dry_run host cfg approval
                (some intent)
                (decision_check host cfg approval false ∷ [])
            else if not matches
            then finish_dry_run host cfg approval (some intent) (
                decision_check host cfg approval true
                ∷ environment_check host cfg approval false
                ∷ [])
            else dry_run_checked host cfg approval intent (
                decision_check host cfg approval true
                ∷ environment_check host cfg approval true
                ∷ []))
          w
        ≡ (returned r, end)
      → r.authorization ≡ some a
      → (valid_decision host cfg approval now intent ≡ true)
        × (environment_matches host cfg approval intent ≡ true)
        × Leads w intent r end
  valid_cases intent now w end r a false matches v e h made =
      absurd (ground (arith, finished_passed (some intent) _ w end r a h made))
  valid_cases intent now w end r a true false v e h made =
      absurd (ground (arith, finished_passed (some intent) _ w end r a h made))
  valid_cases intent now w end r a true true v e h made =
      (v, e, checked_leads intent w end r a h made)

  valid-IsRehearsable :
      (intent : TradingIntent N) (now : String)
      → valid_decision host cfg approval now intent ≡ true
      → environment_matches host cfg approval intent ≡ true
      → IsRehearsable intent now
  unfolding valid_decision environment_matches dry_run_token_matches
  valid-IsRehearsable intent now v e = record {
    dry_run_only = ground (arith, v);
    same_intent = ground (arith, v, eq_iff approval.intent_id (envelope intent).intent_id);
    outcome =
        ground (arith, v, eq_iff approval.outcome "allow", eq_iff approval.outcome "needs_human");
    fresh = ground (arith, v);
    token = ground (arith, v);
    signed = ground (arith, v);
    environment = environment_text_injective _ _ (
        ground (
          arith,
          e,
          eq_iff (environment_text (envelope intent).environment)
              (environment_text cfg.environment),
        ));
    not_production = λ p. ground (
      arith,
      e,
      (eq_iff (environment_text cfg.environment) (environment_text production)).1
          (ap environment_text p),
    );
    enabled = λ c. ground (arith, e, c);
  }

  of_cases :
      (now : String) (intent : Option (TradingIntent N)) (w : World N S) {end : World N S}
      {r : DryRunReport} {a : DryRunAuthorization}
      → dry_run_of host cfg approval now intent w ≡ (returned r, end)
      → r.authorization ≡ some a
      → (i : TradingIntent N) × (intent ≡ some i) × IsRehearsable i now × Leads w i r end
  of_cases now none w {end} {r} {a} h made =
      absurd (ground (arith, finished_passed none _ w end r a h made))
  of_cases now (some intent) w {end} {r} {a} h made =
      let (v, e, leads) = valid_cases intent now w end r a _ _ refl refl h made in
      (intent, refl, valid-IsRehearsable intent now v e, leads)

  -- However the collaborators answer: when a dry run returns a report with an authorization, its intent
  -- was parsed, and when the run began, by the clock, the decision on it was fresh; it is a dry run,
  -- authentic, of this intent, and allowed or referred to a human, and the environment is the intent's and
  -- may execute. A canary broker's preflight passed. Then the connector was asked and passed the intent;
  -- then the switch was read for every scope of the intent, and no reading blocks it. At the time of the
  -- report, by the clock after these readings, the decision was still fresh. The report names these checks
  -- and each of them passed, its event was written last, and the authorization is the one for this intent
  -- and that time.
  pub dry_run-IsBacked :
      (w : World N S) (r : DryRunReport) (a : DryRunAuthorization)
      → (dry_run host cfg approval w).0 ≡ returned r
      → r.authorization ≡ some a
      → (intent : TradingIntent N) × IsBacked w intent r (dry_run host cfg approval w).1
  unfolding dry_run ◌>>=◌ ask
  dry_run-IsBacked w r a h made =
      let (intent, parsed, decision, (cs, before, after, q, revalidated, finished)) =
        of_cases (host.clock w.host).0 approval.intent (record w { host = (host.clock w.host).1 })
          (λ i. (h i, (dry_run host cfg approval w).1)) made in
      (
        intent,
        record {
          parsed = parsed;
          decision = decision;
          live_checks = cs;
          before = before;
          preflighted = q;
          after = after;
          revalidated = revalidated;
          finished = finished;
        },
      )
