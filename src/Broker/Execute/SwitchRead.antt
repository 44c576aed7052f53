-- ===== src/Broker/Execute/SwitchRead.antt =====
-- `execute` reads the kill switch for every scope of the intent directly before it calls the connector.
use agent_trading_guardrails.Base.{
  String, refl, inl, inr, Bool, true, false, Option, none, some, List, [],
}
use agent_trading_guardrails.Js.{JsNumber}
use agent_trading_guardrails.Schemas.{TradingIntent, envelope}
use agent_trading_guardrails.Broker.Types.{KillSwitchScope, killswitch_blocked, scope_data}
use agent_trading_guardrails.Broker.Host.{Host, BrokerConfig, DryRunAuthorization}
use agent_trading_guardrails.Broker.Keys.{scope_idempotency_key}
use agent_trading_guardrails.Broker.World.{
  World, Outcome, returned, threw, continue, pure, ask, log, from_option, ◌>>=◌,
}
use agent_trading_guardrails.Broker.World.Rules.{IsStable}
use agent_trading_guardrails.Broker.Preflight.{audit, get_kill_switch_scopes}
use agent_trading_guardrails.Broker.Execute.Stages.{
  ends_finished, ends_aborted, audit_event, blocked_answer, pass_kill_switch,
}
use agent_trading_guardrails.Broker.Execute.Connector.{
  dry_run_still_fresh, recheck_dry_run, consume_approval, taken_answer,
}
use agent_trading_guardrails.Broker.Execute.Phases.{
  Phases, Leads, bind-Leads, EndsStage, ends-some, ends-bind, unless_ended,
}
use agent_trading_guardrails.Broker.Execute.Evidence.{subject}
use agent_trading_guardrails.Broker.Execute.Keeps.{audit-Keeps, finish_rejected-Keeps}
use agent_trading_guardrails.Broker.Execute.StagesKeep.{
  abort_rejected-Keeps, pass_kill_switch-Stage, revalidate-Stage,
}
use agent_trading_guardrails.Broker.Execute.Run.{perform, run_reserved}
use agent_trading_guardrails.Broker.Execute.Performs.{
  EndsPerform, connect-EndsPerform, unless_settled-EndsPerform, run_reserved-ends,
}
use agent_trading_guardrails.Broker.Execute.Requests.{
  BrokerStep, run_all, initial, run_all-kept, begun,
}
use agent_trading_guardrails.Broker.Execute.Guarded.{
  scopes_read, IsCleared, Guarded, IsGuarded, IsGuarded-IsStable, HasRead, first_blocking-ends,
}

module _ (N S : Type 0) (key : String) where
  -- The phases up to the last look at the switch; nothing is said of what follows a call there.
  abbrev early : Phases N S key key
  early = record {
    Before = IsGuarded;
    Ended = IsGuarded;
    After = λ w. Unit;
    before-IsStable = IsGuarded-IsStable key;
    ended-IsStable = IsGuarded-IsStable key;
    after-IsStable = record {
      hosted = λ w s u. tt;
      logged = λ w e q u. tt;
      updated = λ w c a u. tt;
    };
    ends = λ w g. g;
    aborts = λ hash fault w g. g;
    calls = λ intent w g. tt;
  }

module _ {N S : Type 0} ⦃number : JsNumber N⦄ (host : Host N S) (cfg : BrokerConfig N) where
  module _ (intent : TradingIntent N) (correlation_id now : String) where
    abbrev own : String
    own = scope_idempotency_key (envelope intent).idempotency_key intent

    abbrev Read : World N S → Type 0
    Read = HasRead host intent (scopes_read intent)

    abbrev Ready : World N S → Type 0
    Ready w = IsCleared intent w.trace × Guarded w.trace

    HasRead-IsGuarded : (w : World N S) → Read w → IsGuarded w
    HasRead-IsGuarded w h = h.1

    stable : IsStable (IsGuarded {N = N} {S = S}) own
    stable = IsGuarded-IsStable own

    finishes :
        (P : World N S → Type 0) (rule explanation : String)
        → Leads IsGuarded
            (ends_finished host cfg intent correlation_id now rule explanation)
            (EndsStage P IsGuarded)
    finishes P rule explanation =
        ends-some P _
          (finish_rejected-Keeps stable host cfg intent correlation_id now rule explanation)

    blocked-ends :
        (o : Outcome (Option KillSwitchScope)) (w : World N S)
        → EndsStage Read IsGuarded o w
        → EndsStage Read IsGuarded
            (continue o (blocked_answer host cfg intent correlation_id now) w).0
            (continue o (blocked_answer host cfg intent correlation_id now) w).1
    unfolding pure
    blocked-ends (returned none) w h = h
    blocked-ends (returned (some scope)) w g =
        (ends-bind Read
            (audit host (
              audit_event host cfg (subject intent) correlation_id killswitch_blocked
                (scope_data scope)))
            (λ _.
              ends_finished host cfg intent correlation_id now "killswitch_active"
                "Kill switch is active.")
            (audit-Keeps stable host _)
            (λ _. finishes Read "killswitch_active" "Kill switch is active.")).leads
          w g
    blocked-ends (threw fault) w g = g

    switch-reads :
        Leads IsGuarded
          (pass_kill_switch host cfg intent correlation_id now)
          (EndsStage Read IsGuarded)
    unfolding pass_kill_switch
    switch-reads =
        bind-Leads _ _
          (record {
            leads = λ w g.
                (first_blocking-ends host intent (get_kill_switch_scopes intent) []).leads w
                  (tt, g);
          })
          blocked-ends

    recheck-reads :
        (authorization : Option DryRunAuthorization)
        → Leads Read
            (recheck_dry_run host cfg intent correlation_id now authorization)
            (EndsStage Read IsGuarded)
    unfolding recheck_dry_run ◌>>=◌ ask
    recheck-reads authorization = record {
      leads = λ w h.
          unless_ended Read
            (dry_run_still_fresh host cfg intent correlation_id now authorization
              (host.clock w.host).0)
            (ends_aborted host cfg intent correlation_id now "dry_run_expired"
              "Dry-run report expired during broker revalidation.")
            HasRead-IsGuarded
            (ends-some Read _
              (abort_rejected-Keeps host cfg intent correlation_id now (early N S own) _ _))
            (record w { host = (host.clock w.host).1 }) h;
    }

    taken-ends :
        (id : String) (answer : Option Bool) (w : World N S)
        → Read w
        → EndsStage Ready IsGuarded
            (taken_answer host cfg intent correlation_id now id answer w).0
            (taken_answer host cfg intent correlation_id now id answer w).1
    unfolding ◌>>=◌ from_option log pure
    taken-ends id none w h = h.1
    taken-ends id (some true) w h = (inr (id, w.trace, refl, h.0), h.1)
    taken-ends id (some false) w h =
        (finishes Ready "approval_consumed" "Human approval has already been used.").leads w h.1

    consume-reads :
        (approval_id : Option String)
        → Leads Read
            (consume_approval host cfg intent correlation_id now approval_id)
            (EndsStage Ready IsGuarded)
    unfolding consume_approval ◌>>=◌ ask pure
    consume-reads none = record { leads = λ w h. (inl h.0, h.1) }
    consume-reads (some id) = record {
      leads = λ w h.
          taken-ends id (host.consume_one_time id w.host).0
            (record w { host = (host.consume_one_time id w.host).1 }) h;
    }

    perform-reads :
        (authorization : Option DryRunAuthorization) (approval_id : Option String)
        → Leads IsGuarded
            (perform host cfg intent correlation_id now authorization approval_id)
            (EndsPerform IsGuarded IsGuarded)
    unfolding perform
    perform-reads authorization approval_id =
        let p = early N S own in
        unless_settled-EndsPerform host cfg intent correlation_id now IsGuarded IsGuarded _ _
          (pass_kill_switch-Stage host cfg intent correlation_id now p)
          (unless_settled-EndsPerform host cfg intent correlation_id now IsGuarded IsGuarded _ _
            (revalidate-Stage host cfg intent correlation_id now p)
            (unless_settled-EndsPerform host cfg intent correlation_id now IsGuarded IsGuarded _ _
              switch-reads
              (unless_settled-EndsPerform host cfg intent correlation_id now IsGuarded IsGuarded _ _
                (recheck-reads authorization)
                (unless_settled-EndsPerform host cfg intent correlation_id now IsGuarded IsGuarded _
                  _ (consume-reads approval_id)
                  (connect-EndsPerform host cfg intent correlation_id now IsGuarded IsGuarded stable
                    (λ w h. h) authorization)))))

    runs :
        (authorization : Option DryRunAuthorization) (approval_id : Option String) (w : World N S)
        → IsGuarded w
        → IsGuarded (run_reserved host cfg intent correlation_id now authorization approval_id w).1
    runs authorization approval_id w g =
        run_reserved-ends host cfg intent correlation_id now (early N S own) IsGuarded stable
          perform-reads IsGuarded (λ w' g'. g') (λ w' g'. g') authorization approval_id w g

  -- Whatever requests are made of a broker with an empty store, one after the other, and however its
  -- collaborators answer, throw and change meanwhile: before each call of the connector the switch
  -- was read for every scope of the intent, each reading is one that does not block the intent, and
  -- since the first of them nothing was recorded but the use of an approval.
  pub run_all-Guarded :
      (steps : List (BrokerStep N S)) (s : S)
      → Guarded (run_all host cfg steps (initial host cfg s)).trace
  run_all-Guarded steps s =
      run_all-kept host cfg (IsGuarded-IsStable "")
        (λ intent correlation_id now authorization approval_id w g absent.
          runs intent correlation_id now authorization approval_id
            (begun host cfg intent correlation_id now w) g)
        steps (initial host cfg s) tt
