-- ===== src/Broker/Scenarios.antt =====
-- A broker on concrete collaborators: an order that is executed, and the theorems on `execute` there.
mod Rehearsals
mod Records
use agent_trading_guardrails.Base
use agent_trading_guardrails.Js
use agent_trading_guardrails.Schemas
use agent_trading_guardrails.Broker
use agent_trading_guardrails.Base.{
  arith, ℕ, suc, ◌≤◌, String, ◌≡◌, ◌≢◌, refl, Option, true, false, none, some, List, [], ◌∷◌,
}
use agent_trading_guardrails.Base.Int.{pos}
use agent_trading_guardrails.Js.Grid.{Grid, whole, grid_number}
use agent_trading_guardrails.Schemas.{
  Envelope, CexOrder, TradingIntent, place_order, get_order_status, paper, spot, buy, envelope,
}
use agent_trading_guardrails.Broker.Types.{
  no_evidence, Evidence, BrokerExecutionResult, executed, cex_order,
}
use agent_trading_guardrails.Broker.Host.{
  Host, BrokerConfig, GuardrailApproval, absent, says, before_side_effect, side_effect, answers,
}
use agent_trading_guardrails.Broker.Keys.{scope_idempotency_key}
use agent_trading_guardrails.Broker.Execute.Once.{connector_calls}
use agent_trading_guardrails.Broker.Execute.Requests.{BrokerStep, asked, changed, run_all, initial}
use agent_trading_guardrails.Broker.Execute.Guarded.{Guarded}
use agent_trading_guardrails.Broker.Execute.SwitchRead.{run_all-Guarded}
use agent_trading_guardrails.Broker.World.{World, Outcome, returned}
use agent_trading_guardrails.Broker.DryRun.{dry_run_is_fresh, is_hex64}
use agent_trading_guardrails.Broker.Host.{DryRunAuthorization}
use agent_trading_guardrails.Broker.DryRun.{dry_run_authorization_matches}
use agent_trading_guardrails.Broker.Rehearsal.{DryRunReport, passes, dry_run}
use agent_trading_guardrails.Broker.Execute.Admit.{execute}
use agent_trading_guardrails.Broker.Execute.Trusted.{IsTrusted, execute-IsTrusted}
use agent_trading_guardrails.Broker.Execute.Connector.{before_connector_side_effect}
use agent_trading_guardrails.Broker.Execute.SideEffect.{IsAllowed, side_effect-IsAllowed}
use agent_trading_guardrails.Broker.Execute.Evidence.{
  subject, rejected_result, accepted, executed_result, evidence_error, evidence_fits_kind,
  execution_kind_for_intent,
}
use agent_trading_guardrails.Broker.Execute.Executed.{IsEvidenceOf, executed_result-IsEvidenceOf}
use agent_trading_guardrails.Schemas.Json.{Json, null}
use agent_trading_guardrails.Broker.Types.{BrokerAuditEvent, broker_executed, execution_data}
use agent_trading_guardrails.Broker.Execute.Run.{progress_of, terminal, terminal_event}
use agent_trading_guardrails.Broker.FileTypes.{stored}
use agent_trading_guardrails.Broker.FileStore.Encode.{cached_json}
use agent_trading_guardrails.Broker.FileStore.Parse.{parsed, parse_file_entry, hash_pending_audit}
use agent_trading_guardrails.Broker.FileStore.Recorded.{pending_audit, recorded-parse_file_entry}
use agent_trading_guardrails.Broker.FileStore.Cached.{cached_entry_error}
use agent_trading_guardrails.Broker.Execute.AtMostOnce.{run_all-at_most_once}

abbrev pub token : String
token = "aaaaaaaaaaaaaaaaaaaaaaaaaaaaaaaaaaaaaaaaaaaaaaaaaaaaaaaaaaaaaaaa"

-- The collaborators count the audit events; the connector looks at the switch and acts once.
abbrev pub quiet_host : Host Grid ℕ
quiet_host = record {
  clock = λ s. ("noon", s);
  date_parse = λ text. whole (pos 100_000);
  sha256 = λ text. text;
  hmac_sha256 = λ secret text. token;
  locale_le = λ a b. true;
  redact_secrets = λ text. text;
  is_uuid = λ text. true;
  is_datetime = λ text. true;
  schema_error = λ intent evidence. "ZodError";
  audit_write = λ event s. (none, suc s);
  audit_health = none;
  is_active = λ scope s. (says false, s);
  revalidate = λ intent s. (some (record { passed = true; reason = none }), s);
  connector_plan = λ intent s. (
    record {
      steps = before_side_effect ∷ side_effect ∷ [];
      end = answers (record no_evidence { order_id = some "7" });
    },
    s,
  );
  approval_list = λ s. (some [], s);
  approval_get = λ id s. (some none, s);
  consume_one_time = λ id s. (some false, s);
  live_approvals = none;
}

abbrev pub paper_config : BrokerConfig Grid
paper_config = record {
  environment = paper;
  canary_live_enabled = false;
  decision_verification_secret = "secret";
  decision_max_age_ms = none;
}

abbrev paper_order : TradingIntent Grid
paper_order =
    place_order
      (record {
        intent_id = "i-1";
        principal = "agent-1";
        resource = "cex:binance:sub-1:ETH-USDC";
        environment = paper;
        requested_at = "noon";
        idempotency_key = "k-1";
        rationale = "rebalance";
        evidence = "snapshot-7" ∷ [];
      })
      (record {
        account = "sub-1";
        account_mode = spot;
        symbol = "ETH-USDC";
        side = buy;
        quantity = whole (pos 1);
        price = whole (pos 3500);
        max_notional_usd = whole (pos 10);
        max_slippage_bps = whole (pos 50);
        leverage = none;
        margin_type = none;
      })

abbrev allowed : GuardrailApproval Grid
allowed = record {
  intent_id = "i-1";
  correlation_id = "c-1";
  outcome = "allow";
  intent = some paper_order;
  decided_at = "noon";
  decision_token = token;
  approval_id = absent;
  dry_run = false;
}

-- The order is asked for, the collaborators change, and it is asked for again.
abbrev asked_twice : List (BrokerStep Grid ℕ)
asked_twice = asked allowed none ∷ changed (λ s. suc s) ∷ asked allowed none ∷ []

abbrev order_key : String
order_key = scope_idempotency_key {N = Grid} "k-1" paper_order

order_called :
    (connector_calls order_key
        (run_all quiet_host paper_config asked_twice (initial quiet_host paper_config 0)).trace
      ≡ 1)
    × (connector_calls order_key
          (execute quiet_host paper_config allowed none (initial quiet_host paper_config 0)).1.trace
        ≡ 1)
unfolding Broker.Execute.Admit.replay Broker.Execute.Admit.reserve Broker.Execute.Admit.execute_once
    Broker.Execute.Admit.check_approval_id Broker.Execute.Admit.admit Broker.Execute.Admit.execute
    Broker.Execute.Run.fault_text Broker.Execute.Run.execution_failed
    Broker.Execute.Run.evidence_rejected Broker.Execute.Run.executed_with Broker.Execute.Run.connect
    Broker.Execute.Run.perform Broker.Execute.Run.finish_execution_with_audit
    Broker.Execute.Run.run_reserved Broker.Execute.Connector.revalidate
    Broker.Execute.Connector.dry_run_still_fresh Broker.Execute.Connector.recheck_dry_run
    Broker.Execute.Connector.consume_approval Broker.Execute.Connector.before_connector_side_effect
    Broker.Execute.Connector.run_steps Broker.Execute.Connector.call_connector
    Broker.Execute.Stages.non_empty_reason Broker.Execute.Stages.reject Broker.Execute.Stages.finish
    Broker.Execute.Stages.abort Broker.Execute.Stages.finish_rejected
    Broker.Execute.Stages.abort_rejected Broker.Execute.Stages.judge_approval
    Broker.Execute.Stages.authorise Broker.Execute.Stages.pass_kill_switch
    Broker.Execute.Evidence.execution_kind_for_intent Broker.Execute.Evidence.evidence_error
    Broker.Execute.Evidence.evidence_fits_kind Broker.Execute.Evidence.executed_result
    Broker.Execute.Once.connector_calls Broker.Execute.Requests.run_step
    Broker.Execute.Requests.run_all Broker.Decision.create_guardrail_decision_token
    Broker.Decision.decision_token_matches Broker.Decision.decision_is_stale
    Broker.Decision.decision_refusal Broker.Decision.approval_matches_intent Broker.DryRun.is_hex64
    Broker.DryRun.is_hex64_any_case Broker.DryRun.same_digest Broker.DryRun.dry_run_is_fresh
    Broker.DryRun.create_dry_run_authorization Broker.DryRun.dry_run_authorization_matches
    Broker.Keys.units Broker.Keys.units_le Broker.Keys.key_le Broker.Keys.scope_idempotency_key
    Broker.Keys.hash_intent_payload Broker.Keys.terminal_audit_event_id Broker.World.pure
    Broker.World.throw Broker.World.ask Broker.World.from_option Broker.World.on_throw
    Broker.World.catching Broker.World.◌>>=◌ Broker.World.log Broker.World.update_store
    Broker.Preflight.get_kill_switch_scopes Broker.Preflight.audit
    Broker.Preflight.read_kill_switch_blocking Broker.Preflight.first_blocking
    Broker.Preflight.check_kill_switch Broker.Preflight.check_audit Broker.Preflight.check_approval
    Broker.Preflight.write_summary Broker.Preflight.record_failed_audit_check
    Broker.Preflight.preflight Broker.Idempotency.settle Broker.Idempotency.begin
    Broker.Idempotency.complete Broker.Idempotency.complete_audit Broker.Idempotency.fail_audit
    Broker.Idempotency.abort Base.Dict.get Base.Dict.put Base.Dict.remove Js.Text.template
    Js.Text.is_space Js.Text.trim_start Js.Text.trim_end Js.Text.trim Js.Text.is_blank
    Schemas.Json.escape Schemas.Json.escape_all Schemas.Json.quote Schemas.Json.join
    Schemas.Json.insert_member Schemas.Json.sort_members Schemas.Json.write_member
    Schemas.Encode.envelope_fields Schemas.Encode.order_fields Schemas.Encode.reference_fields
    Schemas.Encode.call_fields Schemas.Encode.signing_fields Schemas.Encode.intent_json
order_called = (refl, refl)

run_all-at_most_once_example :
    connector_calls order_key
      (run_all quiet_host paper_config asked_twice (initial quiet_host paper_config 0)).trace
    ≤ 1
run_all-at_most_once_example = run_all-at_most_once quiet_host paper_config order_key asked_twice 0

run_all-Guarded_example :
    Guarded (run_all quiet_host paper_config asked_twice (initial quiet_host paper_config 0)).trace
run_all-Guarded_example = run_all-Guarded quiet_host paper_config asked_twice 0

abbrev first_world : World Grid ℕ
first_world = initial quiet_host paper_config 0

order_acts :
    connector_calls order_key (execute quiet_host paper_config allowed none first_world).1.trace
    ≢ connector_calls order_key first_world.trace
unfolding Broker.Execute.Once.connector_calls
order_acts h = ground (arith, h, order_called.1)

execute-IsTrusted_example :
    (intent : TradingIntent Grid) × (allowed.intent ≡ some intent)
    × IsTrusted quiet_host paper_config allowed intent "noon"
execute-IsTrusted_example =
    execute-IsTrusted quiet_host paper_config order_key allowed none first_world order_acts

side_effect-IsAllowed_example :
    IsAllowed quiet_host paper_config paper_order "c-1" "noon" none
      (before_connector_side_effect quiet_host paper_config paper_order "c-1" "noon" none
        first_world).0
      (before_connector_side_effect quiet_host paper_config paper_order "c-1" "noon" none
        first_world).1
side_effect-IsAllowed_example =
    side_effect-IsAllowed quiet_host paper_config paper_order "c-1" "noon" none first_world tt

abbrev order_seven : Evidence Grid
order_seven = record no_evidence { order_id = some "7" }

abbrev seven_executed : BrokerExecutionResult Grid
seven_executed = record {
  intent_id = "i-1";
  idempotency_key = "k-1";
  status = executed;
  execution_kind = some cex_order;
  evidence = order_seven;
  revalidation_passed = true;
  rejection_reason = none;
  executed_at = "noon";
}

seven_accepted : executed_result quiet_host paper_order order_seven "noon" ≡ accepted seven_executed
unfolding executed_result evidence_error evidence_fits_kind execution_kind_for_intent
seven_accepted = refl

executed_result-IsEvidenceOf_example :
    IsEvidenceOf paper_order order_seven
    × (seven_executed.evidence ≡ order_seven)
    × (seven_executed.status ≡ executed)
    × (seven_executed.intent_id ≡ "i-1")
    × (seven_executed.idempotency_key ≡ "k-1")
executed_result-IsEvidenceOf_example =
    executed_result-IsEvidenceOf quiet_host paper_order order_seven "noon" seven_executed
      seven_accepted

token_hex : is_hex64 token ≡ true
unfolding is_hex64
token_hex = refl
