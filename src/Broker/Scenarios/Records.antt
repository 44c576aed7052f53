-- ===== src/Broker/Scenarios/Records.antt =====
-- What is recorded of that order, and of a query that the connector refuses.
use agent_trading_guardrails.Broker
use agent_trading_guardrails.Base.{ℕ, ◌≡◌, refl, true, Option, none, some}
use agent_trading_guardrails.Js.Grid.{Grid, grid_number}
use agent_trading_guardrails.Schemas.{CexReference, TradingIntent, get_order_status, envelope}
use agent_trading_guardrails.Broker.Types.{
  BrokerExecutionResult, executed, failed, broker_failed, failure_data,
}
use agent_trading_guardrails.Broker.Host.{Host}
use agent_trading_guardrails.Broker.World.{returned}
use agent_trading_guardrails.Broker.Execute.Evidence.{
  subject, failed_result, executed_result, evidence_error, evidence_fits_kind,
  execution_kind_for_intent,
}
use agent_trading_guardrails.Schemas.Json.{Json, null}
use agent_trading_guardrails.Broker.Types.{BrokerAuditEvent, broker_executed, execution_data}
use agent_trading_guardrails.Broker.Execute.Run.{progress_of, terminal, terminal_event}
use agent_trading_guardrails.Broker.FileTypes.{stored}
use agent_trading_guardrails.Broker.FileStore.Encode.{cached_json}
use agent_trading_guardrails.Broker.FileStore.Parse.{parsed, parse_file_entry, hash_pending_audit}
use agent_trading_guardrails.Broker.FileStore.Recorded.{pending_audit, recorded-parse_file_entry}
use agent_trading_guardrails.Broker.FileStore.Cached.{cached_entry_error}
use agent_trading_guardrails.Broker.FileStore.Replays.{executed_result-cached}
use agent_trading_guardrails.Broker.Scenarios.{
  token, quiet_host, paper_config, paper_order, order_seven, seven_executed, seven_accepted,
  token_hex,
}

executed_result-cached_example :
    cached_entry_error quiet_host.sha256 "k-1" paper_order seven_executed none ≡ none
executed_result-cached_example =
    executed_result-cached quiet_host "k-1" "noon" paper_order order_seven seven_executed
      seven_accepted

-- A query of the order's status in which the connector throws.
abbrev order_query : CexReference
order_query = record { account = "sub-1"; order_id = "7"; symbol = "ETH-USDC" }

abbrev status_query : TradingIntent Grid
status_query = get_order_status (envelope paper_order) order_query

abbrev query_failed : BrokerExecutionResult Grid
query_failed = failed_result (subject status_query) "noon" true "Execution failed."

abbrev query_event : BrokerAuditEvent Grid
query_event =
    terminal_event quiet_host paper_config status_query "c-1" "noon" "broker.failed" broker_failed
      (failure_data failed (some "Execution failed.") none (quiet_host.redact_secrets "timeout"))

-- A digest of 64 digits, and a schema that accepts the one result.
abbrev hashing_host : Host Grid ℕ
hashing_host = record quiet_host { sha256 = λ text. token }

abbrev one_result : Option (Json Grid) → Option (BrokerExecutionResult Grid)
one_result value = some seven_executed

abbrev seven_event : BrokerAuditEvent Grid
seven_event =
    terminal_event hashing_host paper_config paper_order "c-1" "noon" "broker.executed"
      broker_executed (execution_data executed order_seven)

seven_ends :
    progress_of hashing_host paper_config paper_order "c-1" "noon" (returned order_seven)
    ≡ terminal seven_executed seven_event
unfolding executed_result evidence_error evidence_fits_kind execution_kind_for_intent
    Broker.Execute.Run.executed_with
seven_ends = refl

recorded-parse_file_entry_example :
    parse_file_entry hashing_host.sha256 one_result "k-1" (
      cached_json token null
        (some (pending_audit seven_event))
        (some (hash_pending_audit hashing_host.sha256 (pending_audit seven_event))))
    ≡ parsed (stored token seven_executed (some (pending_audit seven_event)))
recorded-parse_file_entry_example =
    recorded-parse_file_entry hashing_host paper_config one_result (λ text. token_hex) paper_order
      "c-1" "noon" (returned order_seven) seven_executed seven_event "k-1" token null seven_ends
      token_hex refl
