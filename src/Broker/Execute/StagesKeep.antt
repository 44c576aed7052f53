-- ===== src/Broker/Execute/StagesKeep.antt =====
-- The stages of `execute` between the reservation and the call of the connector, in phases.
use agent_trading_guardrails.Base.{String, not, Option, none, some}
use agent_trading_guardrails.Js.{JsNumber}
use agent_trading_guardrails.Schemas.{TradingIntent, envelope}
use agent_trading_guardrails.Approval.Types.{ApprovalRequest, is_approved, is_consumed}
use agent_trading_guardrails.Broker.Types.{KillSwitchScope}
use agent_trading_guardrails.Broker.Host.{Host, BrokerConfig, DryRunAuthorization}
use agent_trading_guardrails.Broker.Keys.{scope_idempotency_key}
use agent_trading_guardrails.Broker.World.{
  Fault, revalidation_fault, approval_fault, asked_revalidation, consumed, update_store,
}
use agent_trading_guardrails.Broker.World.Rules.{
  Keeps, pure-Keeps, from_option-Keeps, ask-Keeps, bind-Keeps, log-Keeps,
}
use agent_trading_guardrails.Broker.Preflight.{get_kill_switch_scopes}
use agent_trading_guardrails.Broker.Execute.Stages.{
  abort, abort_rejected, payload_hash, is_expired, misfits, ends_finished, ends_aborted,
  judge_approval, judge_approval_id, authorise, blocked_answer, pass_kill_switch,
}
use agent_trading_guardrails.Broker.Execute.Connector.{
  revalidate, revalidated_event, failed_event, revalidation_reason, dry_run_still_fresh,
  recheck_dry_run, consume_approval,
}
use agent_trading_guardrails.Broker.Execute.Keeps.{
  audit-Keeps, first_blocking-Keeps, reject-Keeps, finish_rejected-Keeps,
}
use agent_trading_guardrails.Broker.Execute.Phases.{
  Phases, Stage, Stage-next, Stage-bind, Stage-end, Stage-if,
}

module _ {N S : Type 0} ⦃number : JsNumber N⦄ (host : Host N S) (cfg : BrokerConfig N)
    (intent : TradingIntent N) (correlation_id now : String) {key : String}
    (p : Phases N S key (scope_idempotency_key (envelope intent).idempotency_key intent)) where
  pub abort-Keeps : (fault : Fault) → Keeps p.Ended (abort host cfg intent correlation_id now fault)
  unfolding abort update_store
  abort-Keeps fault = record {
    kept = λ w q. p.aborts (payload_hash host cfg intent correlation_id now) fault w q;
  }

  pub abort_rejected-Keeps :
      (rule explanation : String)
      → Keeps p.Ended (abort_rejected host cfg intent correlation_id now rule explanation)
  unfolding abort_rejected
  abort_rejected-Keeps rule explanation =
      bind-Keeps _ _ (reject-Keeps p.ended-IsStable host cfg _ now correlation_id rule explanation)
        (λ result. bind-Keeps _ _ (abort-Keeps _) (λ _. pure-Keeps result))

  -- The two ways in which a stage ends the execution with a rejection.
  ends_by_finish :
      (rule explanation : String)
      → Stage p.Before p.Ended (ends_finished host cfg intent correlation_id now rule explanation)
  ends_by_finish rule explanation =
      Stage-end p.ends _
        (finish_rejected-Keeps p.ended-IsStable host cfg intent correlation_id now rule explanation)

  ends_by_abort :
      (rule explanation : String)
      → Stage p.Before p.Ended (ends_aborted host cfg intent correlation_id now rule explanation)
  ends_by_abort rule explanation = Stage-end p.ends _ (abort_rejected-Keeps rule explanation)

  judge_approval-Stage :
      (found : Option (ApprovalRequest N)) (read_at : String)
      → Stage p.Before p.Ended (judge_approval host cfg intent correlation_id now found read_at)
  unfolding judge_approval
  judge_approval-Stage none read_at = ends_by_abort _ _
  judge_approval-Stage (some request) read_at =
      Stage-if p.ends (is_consumed request.state) _ _ (ends_by_finish _ _) (
        Stage-if p.ends (not (is_approved request.state)) _ _ (ends_by_abort _ _) (
          Stage-if p.ends (is_expired host cfg intent correlation_id now request read_at) _ _
            (ends_by_finish "approval_expired" "Human approval has expired.")
            (Stage-if p.ends (misfits host cfg intent correlation_id now request) _ _
              (ends_by_finish "approval_mismatch"
                "Human approval does not match the execution intent.")
              (Stage-next p.ends))))

  judge_approval_id-Stage :
      (id : Option String)
      → Stage p.Before p.Ended (judge_approval_id host cfg intent correlation_id now id)
  judge_approval_id-Stage none = Stage-next p.ends
  judge_approval_id-Stage (some id) =
      Stage-bind p.ends _ _ (ask-Keeps p.before-IsStable (host.approval_get id)) (λ answer.
        Stage-bind p.ends _ _ (from_option-Keeps approval_fault answer) (λ found.
          Stage-bind p.ends _ _ (ask-Keeps p.before-IsStable host.clock)
            (λ read_at. judge_approval-Stage found read_at)))

  pub authorise-Stage :
      (authorization : Option DryRunAuthorization) (approval_id : Option String)
      → Stage p.Before p.Ended
          (authorise host cfg intent correlation_id now authorization approval_id)
  unfolding authorise
  authorise-Stage authorization approval_id =
      Stage-if p.ends _ _ _ (ends_by_abort _ _) (judge_approval_id-Stage approval_id)

  blocked_answer-Stage :
      (blocked : Option KillSwitchScope)
      → Stage p.Before p.Ended (blocked_answer host cfg intent correlation_id now blocked)
  blocked_answer-Stage none = Stage-next p.ends
  blocked_answer-Stage (some scope) =
      Stage-bind p.ends _ _ (audit-Keeps p.before-IsStable host _) (λ _. ends_by_finish _ _)

  pub pass_kill_switch-Stage :
      Stage p.Before p.Ended (pass_kill_switch host cfg intent correlation_id now)
  unfolding pass_kill_switch
  pass_kill_switch-Stage =
      Stage-bind p.ends _ _
        (first_blocking-Keeps p.before-IsStable host intent (get_kill_switch_scopes intent))
        blocked_answer-Stage

  pub revalidate-Stage : Stage p.Before p.Ended (revalidate host cfg intent correlation_id now)
  unfolding revalidate
  revalidate-Stage =
      Stage-bind p.ends _ _ (log-Keeps p.before-IsStable (asked_revalidation intent) tt) (λ _.
        Stage-bind p.ends _ _ (ask-Keeps p.before-IsStable (host.revalidate intent)) (λ answer.
          Stage-bind p.ends _ _ (from_option-Keeps revalidation_fault answer) (λ revalidation.
            Stage-bind p.ends _ _
              (audit-Keeps p.before-IsStable host
                (revalidated_event host cfg intent correlation_id now revalidation))
              (λ _. Stage-if p.ends revalidation.passed _ _ (Stage-next p.ends) (
                Stage-bind p.ends _ _
                  (audit-Keeps p.before-IsStable host (
                    failed_event host cfg intent correlation_id now
                      (revalidation_reason host cfg intent correlation_id now revalidation)))
                  (λ _.
                    ends_by_finish "revalidation_failed"
                      (revalidation_reason host cfg intent correlation_id now revalidation)))))))

  pub recheck_dry_run-Stage :
      (authorization : Option DryRunAuthorization)
      → Stage p.Before p.Ended (recheck_dry_run host cfg intent correlation_id now authorization)
  unfolding recheck_dry_run
  recheck_dry_run-Stage authorization =
      Stage-bind p.ends _ _ (ask-Keeps p.before-IsStable host.clock) (λ read_at.
        Stage-if p.ends
          (dry_run_still_fresh host cfg intent correlation_id now authorization read_at) _ _
          (Stage-next p.ends)
          (ends_by_abort "dry_run_expired" "Dry-run report expired during broker revalidation."))

  pub consume_approval-Stage :
      (approval_id : Option String)
      → Stage p.Before p.Ended (consume_approval host cfg intent correlation_id now approval_id)
  unfolding consume_approval
  consume_approval-Stage none = Stage-next p.ends
  consume_approval-Stage (some id) =
      Stage-bind p.ends _ _ (ask-Keeps p.before-IsStable (host.consume_one_time id)) (λ answer.
        Stage-bind p.ends _ _ (from_option-Keeps approval_fault answer) (λ taken.
          Stage-if p.ends taken _ _
            (Stage-bind p.ends _ _ (log-Keeps p.before-IsStable (consumed id) tt)
              (λ _. Stage-next p.ends))
            (ends_by_finish "approval_consumed" "Human approval has already been used.")))
