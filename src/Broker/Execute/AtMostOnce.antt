-- ===== src/Broker/Execute/AtMostOnce.antt =====
-- `ExecutionBroker.execute` over any sequence of requests calls the connector at most once per scoped
-- idempotency key.
use agent_trading_guardrails.Base.{
  ◌≤◌, String, ◌==◌, eq_iff, ◌≡◌, ◌≢◌, refl, inl, inr, Option, none, Bool-cases, List, arith,
}
use mathlib.Core.Path.{subst}
use agent_trading_guardrails.Base.Dict
use agent_trading_guardrails.Js.{JsNumber}
use agent_trading_guardrails.Schemas.{TradingIntent}
use agent_trading_guardrails.Broker.Host.{Host, BrokerConfig, DryRunAuthorization}
use agent_trading_guardrails.Broker.Idempotency.Laws.{begin_call, perform, begin-holds}
use agent_trading_guardrails.Broker.World.{World}
use agent_trading_guardrails.Broker.Execute.Run.{run_reserved}
use agent_trading_guardrails.Broker.Execute.Performs.{run_reserved-ends, perform-EndsPerform}
use agent_trading_guardrails.Broker.Execute.Once.{
  connector_calls, Once, Uncalled, Held, Once-IsStable, own_phases, other_phases,
}
use agent_trading_guardrails.Broker.Execute.Requests.{
  BrokerStep, run_all, initial, run_all-kept, own, hash, begun,
}

module _ {N S : Type 0} ⦃number : JsNumber N⦄ (host : Host N S) (cfg : BrokerConfig N) where
  module _ (key : String) where
    module _ (intent : TradingIntent N) (correlation_id now : String) where
      abbrev scoped : String
      scoped = own host cfg intent correlation_id now

      abbrev reserved_world : World N S → World N S
      reserved_world w = begun host cfg intent correlation_id now w

      begun-Held : (w : World N S) → Held scoped (reserved_world w)
      unfolding perform
      begun-Held w = begin-holds scoped (hash host cfg intent correlation_id now) w.idempotency

      absent-Uncalled :
          (w : World N S)
          → Once scoped w
          → Dict.get scoped w.idempotency.entries ≡ none
          → Uncalled scoped w
      absent-Uncalled w (inl u) absent = u
      absent-Uncalled w (inr h) absent = absurd (h.1 absent)

      module _ (authorization : Option DryRunAuthorization) (approval_id : Option String) where
        abbrev Ran : String → World N S → Type 0
        Ran k w =
            Once k
              (run_reserved host cfg intent correlation_id now authorization approval_id
                (reserved_world w)).1

        own_runs :
            (w : World N S)
            → Once scoped w
            → Dict.get scoped w.idempotency.entries ≡ none
            → Ran scoped w
        unfolding own_phases
        own_runs w once absent =
            run_reserved-ends host cfg intent correlation_id now (own_phases scoped)
              (own_phases scoped).After (own_phases scoped).after-IsStable
              (perform-EndsPerform host cfg intent correlation_id now (own_phases scoped))
              (Once scoped) (λ w' u. inl u) (λ w' a. inr a) authorization approval_id
              (reserved_world w) (absent-Uncalled w once absent, begun-Held w)

        other_runs : (w : World N S) → scoped ≢ key → Once key w → Ran key w
        unfolding other_phases
        other_runs w ne once =
            run_reserved-ends host cfg intent correlation_id now (other_phases key scoped ne)
              (other_phases key scoped ne).After (other_phases key scoped ne).after-IsStable
              (perform-EndsPerform host cfg intent correlation_id now (other_phases key scoped ne))
              (Once key) (λ w' o. o) (λ w' o. o) authorization approval_id (reserved_world w)
              ((Once-IsStable key).updated w
                (begin_call scoped (hash host cfg intent correlation_id now)) tt once)

        runs :
            (w : World N S) → Once key w → Dict.get scoped w.idempotency.entries ≡ none → Ran key w
        runs w once absent = elim (Bool-cases (scoped == key)) [
          | inl same ↦
              let e : scoped ≡ key = (eq_iff scoped key).0 same in
              subst (λ k. Once k w → Ran k w) e (λ o. own_runs w o absent) once
          | inr differs ↦ other_runs w (λ e. cc (differs, (eq_iff scoped key).1 e)) once
        ]

    run_all-Once :
        (steps : List (BrokerStep N S)) (w : World N S)
        → Once key w
        → Once key (run_all host cfg steps w)
    run_all-Once = run_all-kept host cfg (Once-IsStable key) runs

    initial-Once : (s : S) → Once key (initial host cfg s)
    unfolding connector_calls
    initial-Once s = inl refl

    at_most_one : (w : World N S) → Once key w → connector_calls key w.trace ≤ 1
    at_most_one w (inl u) = omega (arith, u)
    at_most_one w (inr h) = omega (arith, h.0)

    -- Whatever requests are made of a broker with an empty store, one after the other, and however its
    -- collaborators answer, throw and change meanwhile, the connector is called at most once for a
    -- scoped idempotency key.
    pub run_all-at_most_once :
        (steps : List (BrokerStep N S)) (s : S)
        → connector_calls key (run_all host cfg steps (initial host cfg s)).trace ≤ 1
    run_all-at_most_once steps s =
        at_most_one (run_all host cfg steps (initial host cfg s))
          (run_all-Once steps (initial host cfg s) (initial-Once s))
