-- ===== src/Broker/Scenarios/Rehearsals.antt =====
-- The dry run of that order, and its authorization.
use agent_trading_guardrails.Js
use agent_trading_guardrails.Schemas
use agent_trading_guardrails.Broker
use agent_trading_guardrails.Base.{◌≡◌, refl, true, false, some, [], ◌∷◌}
use agent_trading_guardrails.Js.Grid.{Grid, grid_number}
use agent_trading_guardrails.Schemas.{
  Envelope, CexOrder, TradingIntent, place_order, get_order_status, paper, spot, buy, envelope,
}
use agent_trading_guardrails.Broker.Host.{GuardrailApproval}
use agent_trading_guardrails.Broker.Keys.{scope_idempotency_key}
use agent_trading_guardrails.Broker.World.{World, Outcome, returned}
use agent_trading_guardrails.Broker.DryRun.{dry_run_is_fresh, is_hex64}
use agent_trading_guardrails.Broker.Host.{DryRunAuthorization}
use agent_trading_guardrails.Broker.DryRun.{dry_run_authorization_matches}
use agent_trading_guardrails.Broker.Rehearsal.{DryRunReport, passes, dry_run}
use agent_trading_guardrails.Broker.Rehearsal.Laws.{IsBacked, dry_run-IsBacked}
use agent_trading_guardrails.Broker.Rehearsal.Accepted.{dry_run-matches}
use agent_trading_guardrails.Schemas.Json.{Json, null}
use agent_trading_guardrails.Broker.Scenarios.{
  token, quiet_host, paper_config, paper_order, allowed, first_world, token_hex,
}

abbrev rehearsed : GuardrailApproval Grid
rehearsed = record allowed { dry_run = true }

abbrev noon_authorization : DryRunAuthorization
noon_authorization = record { checked_at = "noon"; token = token }

abbrev rehearsed_report : DryRunReport
rehearsed_report = record {
  intent_id = "i-1";
  correlation_id = "c-1";
  checked_at = "noon";
  passed = true;
  requires_human_approval = false;
  checks =
      passes "decision"
      ∷ passes "environment"
      ∷ passes "connector"
      ∷ passes "late_kill_switch"
      ∷ [];
  authorization = some noon_authorization;
}

rehearsal_authorized :
    (dry_run quiet_host paper_config rehearsed first_world).0 ≡ returned rehearsed_report
unfolding Broker.Execute.Stages.non_empty_reason Broker.Execute.Stages.reject
    Broker.Execute.Stages.finish Broker.Execute.Stages.abort Broker.Execute.Stages.finish_rejected
    Broker.Execute.Stages.abort_rejected Broker.Execute.Stages.judge_approval
    Broker.Execute.Stages.authorise Broker.Execute.Stages.pass_kill_switch
    Broker.Decision.create_guardrail_decision_token Broker.Decision.decision_token_matches
    Broker.Decision.decision_is_stale Broker.Decision.decision_refusal
    Broker.Decision.approval_matches_intent Broker.DryRun.is_hex64 Broker.DryRun.is_hex64_any_case
    Broker.DryRun.same_digest Broker.DryRun.dry_run_is_fresh
    Broker.DryRun.create_dry_run_authorization Broker.DryRun.dry_run_authorization_matches
    Broker.Keys.units Broker.Keys.units_le Broker.Keys.key_le Broker.Keys.scope_idempotency_key
    Broker.Keys.hash_intent_payload Broker.Keys.terminal_audit_event_id Broker.World.pure
    Broker.World.throw Broker.World.ask Broker.World.from_option Broker.World.on_throw
    Broker.World.catching Broker.World.◌>>=◌ Broker.World.log Broker.World.update_store
    Broker.Preflight.get_kill_switch_scopes Broker.Preflight.audit
    Broker.Preflight.read_kill_switch_blocking Broker.Preflight.first_blocking
    Broker.Preflight.check_kill_switch Broker.Preflight.check_audit Broker.Preflight.check_approval
    Broker.Preflight.write_summary Broker.Preflight.record_failed_audit_check
    Broker.Preflight.preflight Js.Text.template Js.Text.is_space Js.Text.trim_start Js.Text.trim_end
    Js.Text.trim Js.Text.is_blank Schemas.Json.escape Schemas.Json.escape_all Schemas.Json.quote
    Schemas.Json.join Schemas.Json.insert_member Schemas.Json.sort_members Schemas.Json.write_member
    Schemas.Encode.envelope_fields Schemas.Encode.order_fields Schemas.Encode.reference_fields
    Schemas.Encode.call_fields Schemas.Encode.signing_fields Schemas.Encode.intent_json
    Broker.Rehearsal.dry_run_token_matches Broker.Rehearsal.valid_decision
    Broker.Rehearsal.environment_matches Broker.Rehearsal.finish_dry_run
    Broker.Rehearsal.broker_revalidation Broker.Rehearsal.dry_run_checked Broker.Rehearsal.dry_run
rehearsal_authorized = refl

dry_run-IsBacked_example :
    (intent : TradingIntent Grid) × IsBacked quiet_host paper_config rehearsed first_world intent
      rehearsed_report
      (dry_run quiet_host paper_config rehearsed first_world).1
dry_run-IsBacked_example =
    dry_run-IsBacked quiet_host paper_config rehearsed first_world rehearsed_report
      noon_authorization rehearsal_authorized refl

noon_fresh : dry_run_is_fresh quiet_host "noon" "noon" paper_config.decision_max_age_ms ≡ true
unfolding dry_run_is_fresh
noon_fresh = refl

dry_run-matches_example :
    dry_run_authorization_matches quiet_host rehearsed_report.authorization
      paper_config.decision_verification_secret paper_order "noon" paper_config.decision_max_age_ms
    ≡ true
dry_run-matches_example =
    dry_run-matches quiet_host paper_config rehearsed first_world rehearsed_report paper_order
      noon_authorization "noon" (λ secret content. token_hex) rehearsal_authorized refl refl
      noon_fresh
