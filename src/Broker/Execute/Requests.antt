-- ===== src/Broker/Execute/Requests.antt =====
-- `ExecutionBroker.execute` over any sequence of requests, and what such a sequence keeps.
use agent_trading_guardrails.Base.{String, ◌≡◌, refl, Option, none, some, List, [], ◌∷◌}
use agent_trading_guardrails.Base.Dict
use agent_trading_guardrails.Js.{JsNumber}
use agent_trading_guardrails.Schemas.{TradingIntent, envelope}
use agent_trading_guardrails.Broker.Types.{BrokerExecutionResult, BrokerAuditEvent}
use agent_trading_guardrails.Broker.Host.{
  Host, BrokerConfig, GuardrailApproval, DryRunAuthorization,
}
use agent_trading_guardrails.Broker.Idempotency.{
  Reservation, conflict, reserved, known, waiting, empty,
}
use agent_trading_guardrails.Broker.Idempotency.Laws.{
  begin_call, complete_audit_call, perform, begin-absent,
}
use agent_trading_guardrails.Broker.World.{World, M, approval_fault, pure, ◌>>=◌}
use agent_trading_guardrails.Broker.World.Rules.{
  IsStable, Keeps, continue-Keeps, pure-Keeps, ask-Keeps, from_option-Keeps, bind-Keeps,
  update-Keeps, if-Keeps,
}
use agent_trading_guardrails.Broker.Decision.{Refusal, is_canary, decision_refusal}
use agent_trading_guardrails.Broker.Execute.Evidence.{Subject, subject}
use agent_trading_guardrails.Broker.Execute.Stages.{reject, scoped_key, payload_hash}
use agent_trading_guardrails.Broker.Execute.Run.{run_reserved}
use agent_trading_guardrails.Broker.Execute.Admit.{
  done, replay, answered, follow, conflict_text, reserve, execute_once, needs_approval_id, id_of,
  check_approval_id, admit, fallback_subject, decide, execute_parsed, execute,
}
use agent_trading_guardrails.Broker.Execute.Keeps.{audit-Keeps, reject-Keeps, preflight-Keeps}

-- What happens to a broker: it is asked to execute, or its collaborators change on their own.
pub data BrokerStep (N S : Type 0) : Type 0 where
  asked : GuardrailApproval N → Option DryRunAuthorization → BrokerStep N S
  changed : (S → S) → BrokerStep N S

module _ {N S : Type 0} ⦃number : JsNumber N⦄ (host : Host N S) (cfg : BrokerConfig N) where
  unfoldable pub run_step : BrokerStep N S → World N S → World N S
  run_step (asked approval authorization) w = (execute host cfg approval authorization w).1
  run_step (changed f) w = record w { host = f w.host }

  unfoldable pub run_all : List (BrokerStep N S) → World N S → World N S
  run_all [] w = w
  run_all (step ∷ steps) w = run_all steps (run_step step w)

  abbrev pub initial : S → World N S
  initial s = record { host = s; idempotency = empty; trace = [] }

  module _ (intent : TradingIntent N) (correlation_id now : String) where
    abbrev pub own : String
    own = scoped_key host cfg intent correlation_id now

    abbrev pub hash : String
    hash = payload_hash host cfg intent correlation_id now

    -- The world after `begin`.
    abbrev pub begun : World N S → World N S
    begun w = record w { idempotency = perform w.idempotency (begin_call own hash) }

  -- For a predicate that is stable, and that an execution with a new reservation keeps.
  module _ {P : World N S → Type 0} {key : String} (stable : IsStable P key)
      (runs : (intent : TradingIntent N) (correlation_id now : String)
          (authorization : Option DryRunAuthorization) (approval_id : Option String) (w : World N S)
        → P w
        → Dict.get (own intent correlation_id now) w.idempotency.entries ≡ none
        → P
            (run_reserved host cfg intent correlation_id now authorization approval_id
              (begun intent correlation_id now w)).1) where
    module _ (intent : TradingIntent N) (correlation_id now : String) where
      answered-Keeps :
          (m : M N S (BrokerExecutionResult N))
          → Keeps P m
          → Keeps P (answered host cfg intent correlation_id now m)
      answered-Keeps m h = bind-Keeps _ _ h (λ result. pure-Keeps (done result))

      answered_kept :
          (m : M N S (BrokerExecutionResult N)) (w : World N S)
          → P (m w).1
          → P (answered host cfg intent correlation_id now m w).1
      unfolding ◌>>=◌
      answered_kept m w o =
          (continue-Keeps {P = P} _ (λ result. pure-Keeps (done result)) (m w).0).kept (m w).1 o

      rejected-Keeps :
          (s : Subject) (rule explanation : String)
          → Keeps P (
              answered host cfg intent correlation_id now
                (reject host cfg s now correlation_id rule explanation))
      rejected-Keeps s rule explanation =
          answered-Keeps _ (reject-Keeps stable host cfg s now correlation_id rule explanation)

      replay-Keeps :
          (result : BrokerExecutionResult N) (event : Option (BrokerAuditEvent N))
          → Keeps P (replay host cfg intent correlation_id now result event)
      unfolding replay perform
      replay-Keeps result none = pure-Keeps (done result)
      replay-Keeps result (some event) = bind-Keeps _ _ (audit-Keeps stable host event) (λ _.
          bind-Keeps _ _
            (update-Keeps stable
              (complete_audit_call (scoped_key host cfg intent correlation_id now)
                (payload_hash host cfg intent correlation_id now))
              tt)
            (λ _. pure-Keeps (done result)))

      begun-kept : (w : World N S) → P w → P (begun intent correlation_id now w)
      begun-kept w h =
          stable.updated w
            (begin_call (own intent correlation_id now) (hash intent correlation_id now)) tt h

      module _ (authorization : Option DryRunAuthorization) (approval_id : Option String) where
        follow-keeps :
            (r : Reservation (BrokerExecutionResult N) (BrokerAuditEvent N)) (w : World N S)
            → P w
            → (r ≡ reserved
                → P
                    (run_reserved host cfg intent correlation_id now authorization approval_id
                      (begun intent correlation_id now w)).1)
            → P
                (follow host cfg intent correlation_id now authorization approval_id r
                  (begun intent correlation_id now w)).1
        unfolding ◌>>=◌ pure
        follow-keeps conflict w h ran =
            (rejected-Keeps (subject intent) "idempotency_conflict"
                (conflict_text (envelope intent).idempotency_key)).kept
              (begun intent correlation_id now w) (begun-kept w h)
        follow-keeps (known result event) w h ran =
            (replay-Keeps result event).kept (begun intent correlation_id now w) (begun-kept w h)
        follow-keeps (waiting promise) w h ran = begun-kept w h
        follow-keeps reserved w h ran =
            answered_kept
              (run_reserved host cfg intent correlation_id now authorization approval_id)
              (begun intent correlation_id now w) (ran refl)

        execute_once-Keeps :
            Keeps P (execute_once host cfg intent correlation_id now authorization approval_id)
        unfolding execute_once ◌>>=◌ reserve perform
        execute_once-Keeps = record {
          kept = λ w h. follow-keeps _ w h (λ r.
              runs intent correlation_id now authorization approval_id w h (
                begin-absent (own intent correlation_id now) (hash intent correlation_id now)
                  w.idempotency r));
        }

      reject_approval-Keeps : Keeps P (
          answered host cfg intent correlation_id now (
            reject host cfg
              (subject intent)
              now
              correlation_id
              "approval_missing"
              "Human approval is required before execution."))
      reject_approval-Keeps =
          rejected-Keeps (subject intent) "approval_missing"
            "Human approval is required before execution."

      check_approval_id-Keeps :
          (authorization : Option DryRunAuthorization) (approval : GuardrailApproval N)
          → Keeps P (check_approval_id host cfg intent correlation_id now authorization approval)
      unfolding check_approval_id
      check_approval_id-Keeps authorization approval =
          bind-Keeps _ _ (ask-Keeps stable host.approval_list) (λ answer.
            bind-Keeps _ _ (from_option-Keeps approval_fault answer) (λ requests.
              if-Keeps (needs_approval_id host cfg intent correlation_id now approval requests) _ _
                reject_approval-Keeps
                (execute_once-Keeps authorization
                  (id_of host cfg intent correlation_id now approval.approval_id))))

      admit-Keeps :
          (authorization : Option DryRunAuthorization) (approval : GuardrailApproval N)
          → Keeps P (admit host cfg intent correlation_id now authorization approval)
      unfolding admit
      admit-Keeps authorization approval =
          if-Keeps (is_canary host cfg) _ _
            (bind-Keeps _ _ (preflight-Keeps stable host cfg intent correlation_id) (λ passed.
              if-Keeps passed.0 _ _ (check_approval_id-Keeps authorization approval) (
                rejected-Keeps (subject intent) "live_preflight_failed"
                  "Live-mode preflight failed.")))
            (check_approval_id-Keeps authorization approval)

    decide-Keeps :
        (intent : TradingIntent N) (authorization : Option DryRunAuthorization)
        (approval : GuardrailApproval N) (now : String) (refusal : Option Refusal)
        → Keeps P (decide host cfg intent authorization approval now refusal)
    decide-Keeps intent authorization approval now none =
        admit-Keeps intent approval.correlation_id now authorization approval
    decide-Keeps intent authorization approval now (some refusal) =
        rejected-Keeps intent approval.correlation_id now (subject intent) refusal.rule
          refusal.message

    execute_parsed-Keeps :
        (authorization : Option DryRunAuthorization) (approval : GuardrailApproval N) (now : String)
        (parsed : Option (TradingIntent N))
        → Keeps P (execute_parsed host cfg authorization approval now parsed)
    execute_parsed-Keeps authorization approval now none =
        bind-Keeps _ _
          (reject-Keeps stable host cfg (fallback_subject host cfg approval) now
            approval.correlation_id "schema_validation" "Approval intent is malformed.")
          (λ result. pure-Keeps (done result))
    execute_parsed-Keeps authorization approval now (some intent) =
        decide-Keeps intent authorization approval now
          (decision_refusal host cfg approval intent now)

    execute-Keeps :
        (approval : GuardrailApproval N) (authorization : Option DryRunAuthorization)
        → Keeps P (execute host cfg approval authorization)
    unfolding execute
    execute-Keeps approval authorization =
        bind-Keeps _ _ (ask-Keeps stable host.clock)
          (λ now. execute_parsed-Keeps authorization approval now approval.intent)

    pub run_all-kept : (steps : List (BrokerStep N S)) (w : World N S) → P w → P (run_all steps w)
    unfolding run_all run_step
    run_all-kept [] w h = h
    run_all-kept (asked approval authorization ∷ steps) w h =
        run_all-kept steps _ ((execute-Keeps approval authorization).kept w h)
    run_all-kept (changed f ∷ steps) w h = run_all-kept steps _ (stable.hosted w (f w.host) h)
