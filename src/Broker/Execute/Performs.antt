-- ===== src/Broker/Execute/Performs.antt =====
-- What the holder of a reservation does, in phases: the connector is called once or not at all.
use agent_trading_guardrails.Base.{String, Option, none, some, List, [], ◌∷◌}
use agent_trading_guardrails.Js.{JsNumber}
use agent_trading_guardrails.Schemas.{TradingIntent, envelope}
use agent_trading_guardrails.Broker.Types.{
  BrokerExecutionResult, Evidence, KillSwitchScope, killswitch_blocked, scope_data,
}
use agent_trading_guardrails.Broker.Host.{
  Host, BrokerConfig, DryRunAuthorization, ConnectorStep, before_side_effect, side_effect,
  ConnectorEnd, answers, throws_revalidation, throws_other,
}
use agent_trading_guardrails.Broker.Keys.{scope_idempotency_key}
use agent_trading_guardrails.Broker.World.{
  World, M, connector_revalidation, acted, called_connector, Outcome, returned, threw, continue,
  after_throw, log, pure, catching, on_throw, ◌>>=◌,
}
use agent_trading_guardrails.Broker.World.Rules.{
  IsStable, Keeps, pure-Keeps, throw-Keeps, ask-Keeps, catching-Keeps, if-Keeps, bind-Keeps,
  continue-Keeps, log-Keeps,
}
use agent_trading_guardrails.Broker.Preflight.{get_kill_switch_scopes}
use agent_trading_guardrails.Broker.Execute.Evidence.{Judgement, accepted, refused, subject}
use agent_trading_guardrails.Broker.Execute.Stages.{audit_event, scoped_key, abort}
use agent_trading_guardrails.Broker.Execute.Connector.{
  assert_not_blocked, before_connector_side_effect, run_step, run_steps, end_run, after_call,
  call_connector, dry_run_still_fresh,
}
use agent_trading_guardrails.Broker.Execute.Run.{
  Progress, settled, terminal, execution_failed, evidence_rejected, executed_with,
  progress_of_result, progress_of, connect, unless_settled, perform, conclude, proceed,
  run_reserved,
}
use agent_trading_guardrails.Broker.Execute.Keeps.{
  audit-Keeps, first_blocking-Keeps, finish_execution-Keeps,
}
use agent_trading_guardrails.Broker.Execute.Phases.{Phases, Leads, bind-Leads, EndsStage}
use agent_trading_guardrails.Broker.Execute.StagesKeep.{
  abort-Keeps, authorise-Stage, pass_kill_switch-Stage, revalidate-Stage, recheck_dry_run-Stage,
  consume_approval-Stage,
}

-- How the part that holds the reservation ends: after a call of the connector, or without one.
module _ {N S : Type 0} (Ended After : World N S → Type 0) where
  abbrev pub EndsPerform : Outcome (Progress N) → World N S → Type 0
  EndsPerform (returned (terminal result event)) w = After w
  EndsPerform _ w = Ended w

module _ {N S : Type 0} ⦃number : JsNumber N⦄ (host : Host N S) (cfg : BrokerConfig N)
    (intent : TradingIntent N) (correlation_id now : String) where
  module _ {key : String} {P : World N S → Type 0} (stable : IsStable P key) where
    assert_not_blocked-Keeps :
        (blocked : Outcome (Option KillSwitchScope))
        → Keeps P (assert_not_blocked host cfg intent correlation_id now blocked)
    assert_not_blocked-Keeps (returned none) = pure-Keeps tt
    assert_not_blocked-Keeps (returned (some scope)) =
        bind-Keeps _ _
          (audit-Keeps stable host (
            audit_event host cfg (subject intent) correlation_id killswitch_blocked
              (scope_data scope)))
          (λ _. throw-Keeps _)
    assert_not_blocked-Keeps (threw fault) = throw-Keeps _

    before_side_effect-Keeps :
        (authorization : Option DryRunAuthorization)
        → Keeps P (before_connector_side_effect host cfg intent correlation_id now authorization)
    unfolding before_connector_side_effect
    before_side_effect-Keeps authorization =
        bind-Keeps _ _
          (catching-Keeps _
            (first_blocking-Keeps stable host intent (get_kill_switch_scopes intent)))
          (λ blocked. bind-Keeps _ _ (assert_not_blocked-Keeps blocked) (λ _.
            bind-Keeps _ _ (ask-Keeps stable host.clock) (λ read_at.
              if-Keeps
                (dry_run_still_fresh host cfg intent correlation_id now authorization read_at) _ _
                (pure-Keeps tt)
                (throw-Keeps
                  (connector_revalidation "Dry-run report expired before submission.")))))

    run_step-Keeps :
        (authorization : Option DryRunAuthorization) (step : ConnectorStep)
        → Keeps P (run_step host cfg intent correlation_id now authorization step)
    run_step-Keeps authorization before_side_effect = before_side_effect-Keeps authorization
    run_step-Keeps authorization side_effect = log-Keeps stable (acted intent) tt

    run_steps-Keeps :
        (authorization : Option DryRunAuthorization) (steps : List ConnectorStep)
        → Keeps P (run_steps host cfg intent correlation_id now authorization steps)
    unfolding run_steps
    run_steps-Keeps authorization [] = pure-Keeps tt
    run_steps-Keeps authorization (step ∷ steps) =
        bind-Keeps _ _ (run_step-Keeps authorization step)
          (λ _. run_steps-Keeps authorization steps)

    end_run-Keeps :
        (end : ConnectorEnd N) → Keeps P (end_run host cfg intent correlation_id now end)
    end_run-Keeps (answers evidence) = pure-Keeps evidence
    end_run-Keeps (throws_revalidation explanation) = throw-Keeps _
    end_run-Keeps (throws_other explanation) = throw-Keeps _

    after_call-Keeps :
        (authorization : Option DryRunAuthorization)
        → Keeps P (after_call host cfg intent correlation_id now authorization)
    after_call-Keeps authorization =
        bind-Keeps _ _ (ask-Keeps stable (host.connector_plan intent)) (λ plan.
          bind-Keeps _ _ (run_steps-Keeps authorization plan.steps) (λ _. end_run-Keeps plan.end))

  module _ (Ended After : World N S → Type 0) where
    result-EndsPerform :
        (evidence : Evidence N) (judgement : Judgement N) (w : World N S)
        → After w
        → (EndsPerform Ended After)
            (returned (progress_of_result host cfg intent correlation_id now evidence judgement))
            w
    unfolding evidence_rejected executed_with
    result-EndsPerform evidence (refused error) w a = a
    result-EndsPerform evidence (accepted result) w a = a

    progress-EndsPerform :
        (o : Outcome (Evidence N)) (w : World N S)
        → After w
        → (EndsPerform Ended After) (returned (progress_of host cfg intent correlation_id now o)) w
    unfolding execution_failed
    progress-EndsPerform (threw fault) w a = a
    progress-EndsPerform (returned evidence) w a = result-EndsPerform evidence _ w a

    module _ {key : String} {Before : World N S → Type 0} (stable : IsStable After key)
        (calls : (w : World N S)
          → Before w
          → After (record w {
            trace =
                called_connector
                  (scope_idempotency_key (envelope intent).idempotency_key intent)
                  intent
                ∷ w.trace;
          })) where
      -- The connector is called at once, and what follows keeps what then holds.
      call-After :
          (authorization : Option DryRunAuthorization)
          → Leads Before
              (call_connector host cfg intent correlation_id now authorization)
              (λ o w. After w)
      unfolding call_connector log
      call-After authorization =
          bind-Leads {F = λ o w. After w}
            (log (called_connector (scoped_key host cfg intent correlation_id now) intent))
            (λ _. after_call host cfg intent correlation_id now authorization)
            (record { leads = λ w b. calls w b })
            (λ o w a. (continue-Keeps _ (λ _. after_call-Keeps stable authorization) o).kept w a)

      pub connect-EndsPerform :
          (authorization : Option DryRunAuthorization)
          → Leads Before
              (connect host cfg intent correlation_id now authorization)
              (EndsPerform Ended After)
      unfolding connect ◌>>=◌ catching pure
      connect-EndsPerform authorization = record {
        leads = λ w b. progress-EndsPerform _ _ ((call-After authorization).leads w b);
      }

    module _ {Next : World N S → Type 0} where
      settle-EndsPerform :
          (next : M N S (Progress N))
          → Leads Next next (EndsPerform Ended After)
          → (o : Outcome (Option (BrokerExecutionResult N))) (w : World N S)
          → EndsStage Next Ended o w
          → (EndsPerform Ended After)
              (continue o
                (λ ended. elim ended [ none ↦ next | some result ↦ pure (settled result) ])
                w).0
              (continue o
                (λ ended. elim ended [ none ↦ next | some result ↦ pure (settled result) ])
                w).1
      unfolding pure
      settle-EndsPerform next h (returned none) w b = h.leads w b
      settle-EndsPerform next h (returned (some result)) w e = e
      settle-EndsPerform next h (threw fault) w e = e

    module _ {Before Next : World N S → Type 0} where
      pub unless_settled-EndsPerform :
          (stage : M N S (Option (BrokerExecutionResult N))) (next : M N S (Progress N))
          → Leads Before stage (EndsStage Next Ended)
          → Leads Next next (EndsPerform Ended After)
          → Leads Before
              (unless_settled host cfg intent correlation_id now stage next)
              (EndsPerform Ended After)
      unless_settled-EndsPerform stage next h k = bind-Leads stage _ h (settle-EndsPerform next k)

  module _ {key : String}
      (p : Phases N S key (scope_idempotency_key (envelope intent).idempotency_key intent)) where
    pub perform-EndsPerform :
        (authorization : Option DryRunAuthorization) (approval_id : Option String)
        → Leads p.Before
            (perform host cfg intent correlation_id now authorization approval_id)
            (EndsPerform p.Ended p.After)
    unfolding perform
    perform-EndsPerform authorization approval_id =
        let switch = pass_kill_switch-Stage host cfg intent correlation_id now p in
        unless_settled-EndsPerform p.Ended p.After _ _ switch (
          unless_settled-EndsPerform p.Ended p.After _ _
            (revalidate-Stage host cfg intent correlation_id now p)
            (unless_settled-EndsPerform p.Ended p.After _ _ switch (
              unless_settled-EndsPerform p.Ended p.After _ _
                (recheck_dry_run-Stage host cfg intent correlation_id now p authorization)
                (unless_settled-EndsPerform p.Ended p.After _ _
                  (consume_approval-Stage host cfg intent correlation_id now p approval_id)
                  (connect-EndsPerform p.Ended p.After p.after-IsStable (p.calls intent)
                    authorization)))))

    -- Whether it returns or throws, an execution that holds a reservation has ended without a call of
    -- the connector, or the call was made and its end recorded.
    module _ (After : World N S → Type 0) (after : IsStable After key)
        (performs : (authorization : Option DryRunAuthorization) (approval_id : Option String)
          → Leads p.Before
              (perform host cfg intent correlation_id now authorization approval_id)
              (EndsPerform p.Ended After))
        (K : World N S → Type 0) (of_ended : (w : World N S) → p.Ended w → K w)
        (of_after : (w : World N S) → After w → K w) where
      conclude-ends :
          (o : Outcome (Progress N)) (w : World N S)
          → EndsPerform p.Ended After o w
          → K (continue o (conclude host cfg intent correlation_id now) w).1
      unfolding pure
      conclude-ends (returned (settled result)) w e = of_ended w e
      conclude-ends (returned (terminal result event)) w a =
          of_after _ (
            (finish_execution-Keeps after host cfg intent correlation_id now result event).kept w a)
      conclude-ends (threw fault) w e = of_ended w e

      abort_then :
          (o : Outcome (Progress N)) (w : World N S)
          → EndsPerform p.Ended After o w
          → EndsPerform p.Ended After
              (after_throw (abort host cfg intent correlation_id now) o w).0
              (after_throw (abort host cfg intent correlation_id now) o w).1
      abort_then (returned (settled result)) w e = e
      abort_then (returned (terminal result event)) w a = a
      abort_then (threw fault) w e =
          (abort-Keeps host cfg intent correlation_id now p fault).kept w e

      proceed-ends :
          (authorization : Option DryRunAuthorization) (approval_id : Option String)
          (o : Outcome (Option (BrokerExecutionResult N))) (w : World N S)
          → EndsStage p.Before p.Ended o w
          → K
              (continue o
                (proceed host cfg intent correlation_id now authorization approval_id)
                w).1
      unfolding ◌>>=◌ on_throw pure
      proceed-ends authorization approval_id (returned none) w b =
          conclude-ends _ _ (abort_then _ _ ((performs authorization approval_id).leads w b))
      proceed-ends authorization approval_id (returned (some result)) w e = of_ended w e
      proceed-ends authorization approval_id (threw fault) w e = of_ended w e

      abort_stage :
          (o : Outcome (Option (BrokerExecutionResult N))) (w : World N S)
          → EndsStage p.Before p.Ended o w
          → EndsStage p.Before p.Ended
              (after_throw (abort host cfg intent correlation_id now) o w).0
              (after_throw (abort host cfg intent correlation_id now) o w).1
      abort_stage (returned none) w b = b
      abort_stage (returned (some result)) w e = e
      abort_stage (threw fault) w e =
          (abort-Keeps host cfg intent correlation_id now p fault).kept w e

      pub run_reserved-ends :
          (authorization : Option DryRunAuthorization) (approval_id : Option String) (w : World N S)
          → p.Before w
          → K (run_reserved host cfg intent correlation_id now authorization approval_id w).1
      unfolding run_reserved ◌>>=◌ on_throw
      run_reserved-ends authorization approval_id w b = proceed-ends authorization approval_id _ _ (
          abort_stage _ _ (
            (authorise-Stage host cfg intent correlation_id now p authorization approval_id).leads w
              b))
