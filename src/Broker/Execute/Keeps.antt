-- ===== src/Broker/Execute/Keeps.antt =====
-- The stages of `execute` other than the call of the connector keep what is stable.
use agent_trading_guardrails.Base.{String, ◌==◌, Bool, not, Option, none, some, List, [], ◌∷◌}
use agent_trading_guardrails.Js.{JsNumber}
use agent_trading_guardrails.Schemas.{TradingIntent}
use agent_trading_guardrails.Broker.Types.{
  BrokerAuditEvent, KillSwitchScope, PreflightCheckResult, BrokerExecutionResult,
}
use agent_trading_guardrails.Broker.Host.{
  Host, BrokerConfig, Reading, says, not_boolean, unreadable, LiveApprovals,
}
use agent_trading_guardrails.Broker.World.{
  World, wrote, read_switch, audit_fault, kill_switch_unreachable,
}
use agent_trading_guardrails.Broker.World.Rules.{
  IsStable, Keeps, pure-Keeps, throw-Keeps, ask-Keeps, catching-Keeps, on_throw-Keeps, if-Keeps,
  bind-Keeps, log-Keeps, update-Keeps,
}
use agent_trading_guardrails.Broker.Preflight.{
  audit, after_write, blocking, read_kill_switch_blocking, first_blocking, audit_probe,
  approval_probe, check_kill_switch, check_audit, check_approval, get_kill_switch_scopes,
  write_summary, preflight, kill_switch_result, summary_event, written,
}
use agent_trading_guardrails.Broker.Idempotency.Laws.{
  complete_call, complete_audit_call, fail_audit_call, perform,
}
use agent_trading_guardrails.Broker.Execute.Run.{finish_execution_with_audit}
use agent_trading_guardrails.Broker.Execute.Evidence.{Subject}
use agent_trading_guardrails.Broker.Execute.Stages.{
  reject, finish, finish_rejected, scoped_key, payload_hash, blocked_answer, pass_kill_switch,
}

module _ {N S : Type 0} ⦃number : JsNumber N⦄ {P : World N S → Type 0} {key : String}
    (stable : IsStable P key) (host : Host N S) where
  after_write-Keeps :
      (event : BrokerAuditEvent N) (error : Option String) → Keeps P (after_write host event error)
  after_write-Keeps event none = log-Keeps stable (wrote event) tt
  after_write-Keeps event (some error) = throw-Keeps (audit_fault error)

  pub audit-Keeps : (event : BrokerAuditEvent N) → Keeps P (audit host event)
  unfolding audit
  audit-Keeps event =
      bind-Keeps _ _ (ask-Keeps stable (host.audit_write event)) (after_write-Keeps event)

  blocking-Keeps :
      (intent : TradingIntent N) (reading : Reading) → Keeps P (blocking host intent reading)
  blocking-Keeps intent (says active) = pure-Keeps _
  blocking-Keeps intent not_boolean = throw-Keeps kill_switch_unreachable
  blocking-Keeps intent unreadable = throw-Keeps kill_switch_unreachable

  read-Keeps :
      (scope : KillSwitchScope) (intent : TradingIntent N)
      → Keeps P (read_kill_switch_blocking host scope intent)
  unfolding read_kill_switch_blocking
  read-Keeps scope intent = bind-Keeps _ _ (ask-Keeps stable (host.is_active scope)) (λ reading.
      bind-Keeps _ _ (log-Keeps stable (read_switch scope reading) tt)
        (λ _. blocking-Keeps intent reading))

  pub first_blocking-Keeps :
      (intent : TradingIntent N) (scopes : List KillSwitchScope)
      → Keeps P (first_blocking host intent scopes)
  unfolding first_blocking
  first_blocking-Keeps intent [] = pure-Keeps _
  first_blocking-Keeps intent (scope ∷ scopes) =
      bind-Keeps _ _ (read-Keeps scope intent)
        (λ blocked. if-Keeps blocked _ _ (pure-Keeps _) (first_blocking-Keeps intent scopes))

  audit_probe-Keeps : (probe : Option (S → Bool × S)) → Keeps P (audit_probe host probe)
  audit_probe-Keeps none = pure-Keeps _
  audit_probe-Keeps (some probe) = bind-Keeps _ _ (ask-Keeps stable probe) (λ healthy. pure-Keeps _)

  approval_probe-Keeps : (store : Option (LiveApprovals S)) → Keeps P (approval_probe host store)
  approval_probe-Keeps none = pure-Keeps _
  approval_probe-Keeps (some store) =
      if-Keeps (not store.live_configured) _ _ (pure-Keeps _)
        (bind-Keeps _ _ (ask-Keeps stable store.check_health) (λ healthy. pure-Keeps _))

  check_kill_switch-Keeps : (intent : TradingIntent N) → Keeps P (check_kill_switch host intent)
  unfolding check_kill_switch
  check_kill_switch-Keeps intent =
      bind-Keeps _ _
        (catching-Keeps _ (first_blocking-Keeps intent (get_kill_switch_scopes intent)))
        (λ outcome. pure-Keeps (kill_switch_result host outcome))

  module _ (cfg : BrokerConfig N) where
    write_summary-Keeps :
        (intent : TradingIntent N) (correlation_id : String) (checks : List PreflightCheckResult)
        → Keeps P (write_summary host cfg intent correlation_id checks)
    unfolding write_summary
    write_summary-Keeps intent correlation_id checks =
        if-Keeps (correlation_id == "") _ _ (pure-Keeps _) (
          bind-Keeps _ _
            (catching-Keeps _ (audit-Keeps (summary_event host cfg intent correlation_id checks)))
            (λ outcome. pure-Keeps (written host outcome)))

    pub preflight-Keeps :
        (intent : TradingIntent N) (correlation_id : String)
        → Keeps P (preflight host cfg intent correlation_id)
    unfolding preflight check_audit check_approval
    preflight-Keeps intent correlation_id =
        bind-Keeps _ _ (check_kill_switch-Keeps intent) (λ kill_switch.
          bind-Keeps _ _ (audit_probe-Keeps host.audit_health) (λ audit_check.
            bind-Keeps _ _ (approval_probe-Keeps host.live_approvals) (λ approval.
              bind-Keeps _ _ (write_summary-Keeps intent correlation_id _)
                (λ summarised. pure-Keeps _))))

    pub reject-Keeps :
        (s : Subject) (now correlation_id rule explanation : String)
        → Keeps P (reject host cfg s now correlation_id rule explanation)
    unfolding reject
    reject-Keeps s now correlation_id rule explanation =
        bind-Keeps _ _ (audit-Keeps _) (λ _. pure-Keeps _)

    module _ (intent : TradingIntent N) (correlation_id now : String) where
      pub finish-Keeps :
          (result : BrokerExecutionResult N)
          → Keeps P (finish host cfg intent correlation_id now result)
      unfolding finish perform
      finish-Keeps result =
          bind-Keeps _ _
            (update-Keeps stable
              (complete_call (scoped_key host cfg intent correlation_id now)
                (payload_hash host cfg intent correlation_id now) result none)
              tt)
            (λ _. pure-Keeps result)

      pub finish_rejected-Keeps :
          (rule explanation : String)
          → Keeps P (finish_rejected host cfg intent correlation_id now rule explanation)
      unfolding finish_rejected
      finish_rejected-Keeps rule explanation =
          bind-Keeps _ _ (reject-Keeps _ now correlation_id rule explanation) finish-Keeps

      blocked_answer-Keeps :
          (blocked : Option KillSwitchScope)
          → Keeps P (blocked_answer host cfg intent correlation_id now blocked)
      blocked_answer-Keeps none = pure-Keeps _
      blocked_answer-Keeps (some scope) =
          bind-Keeps _ _ (audit-Keeps _)
            (λ _. bind-Keeps _ _ (finish_rejected-Keeps _ _) (λ result. pure-Keeps _))

      pub pass_kill_switch-Keeps : Keeps P (pass_kill_switch host cfg intent correlation_id now)
      unfolding pass_kill_switch
      pass_kill_switch-Keeps =
          bind-Keeps _ _ (first_blocking-Keeps intent (get_kill_switch_scopes intent))
            blocked_answer-Keeps

      pub finish_execution-Keeps :
          (result : BrokerExecutionResult N) (event : BrokerAuditEvent N)
          → Keeps P (finish_execution_with_audit host cfg intent correlation_id now result event)
      unfolding finish_execution_with_audit perform
      finish_execution-Keeps result event =
          let own = scoped_key host cfg intent correlation_id now in
          let hash = payload_hash host cfg intent correlation_id now in
          bind-Keeps _ _ (update-Keeps stable (complete_call own hash result (some event)) tt) (λ _.
            bind-Keeps _ _
              (on_throw-Keeps _ _ (λ fault. update-Keeps stable (fail_audit_call own hash fault) tt)
                (audit-Keeps event))
              (λ _.
                bind-Keeps _ _ (update-Keeps stable (complete_audit_call own hash) tt)
                  (λ _. pure-Keeps result)))
