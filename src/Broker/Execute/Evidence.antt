-- ===== src/Broker/Execute/Evidence.antt =====
-- `executedResult` and `assertExecutionEvidenceMatchesIntent` of broker.ts, and the literals of the
-- results that are no execution.
use agent_trading_guardrails.Base.{
  String, ◌==◌, Bool, true, false, not, ◌&&◌, ◌||◌, Option, none, some, [], ◌∷◌, map, every,
  is_some, if◌then◌else◌,
}
use agent_trading_guardrails.Js.{JsNumber}
use agent_trading_guardrails.Js.Text.{codes, template}
use agent_trading_guardrails.Schemas.{
  TradingIntent, place_order, cancel_order, get_order_status, simulate_transaction,
  request_signature, envelope,
}
use agent_trading_guardrails.Schemas.Encode.{side_text}
use agent_trading_guardrails.Broker.Types.{
  BrokerExecutionResult, executed, rejected, failed, BrokerExecutionKind, cex_order, cex_cancel,
  cex_order_status, onchain_signature, onchain_simulation, Evidence, OrderStatus, Reconciliation,
  SimulationEvidence, no_evidence,
}
use agent_trading_guardrails.Broker.Host.{Host}
use agent_trading_guardrails.Broker.DryRun.{to_lower, same_codes}

-- The three properties of an intent that `reject` reads.
pub record Subject : Type 0 where
  pub intent_id : String
  pub idempotency_key : String
  pub principal : String

-- An optional string that is there and not empty, and is not the expected one.
abbrev differs : String → Option String → Bool
differs expected none = false
differs expected (some s) = not (s == "") && not (s == expected)

abbrev is_order : String → Option String → Bool
is_order expected none = false
is_order expected (some s) = s == expected

-- a.toLowerCase() === b, for ASCII letters
abbrev pub equals_lowered : String → String → Bool
equals_lowered a b = same_codes (map to_lower (codes a)) (codes b)

abbrev present : Option String → Bool
present none = false
present (some s) = not (s == "")

-- A string of at least one character, if it is there.
abbrev none_or_present : Option String → Bool
none_or_present none = true
none_or_present (some s) = not (s == "")

module _ {N : Type 0} where
  abbrev pub subject : TradingIntent N → Subject
  subject intent = record {
    intent_id = (envelope intent).intent_id;
    idempotency_key = (envelope intent).idempotency_key;
    principal = (envelope intent).principal;
  }

  abbrev pub rejected_result : Subject → String → String → BrokerExecutionResult N
  rejected_result s now reason = record {
    intent_id = s.intent_id;
    idempotency_key = s.idempotency_key;
    status = rejected;
    execution_kind = none;
    evidence = no_evidence;
    revalidation_passed = false;
    rejection_reason = some reason;
    executed_at = now;
  }

  abbrev pub failed_result : Subject → String → Bool → String → BrokerExecutionResult N
  failed_result s now revalidation_passed reason = record {
    intent_id = s.intent_id;
    idempotency_key = s.idempotency_key;
    status = failed;
    execution_kind = none;
    evidence = no_evidence;
    revalidation_passed = revalidation_passed;
    rejection_reason = some reason;
    executed_at = now;
  }

  unfoldable pub execution_kind_for_intent : TradingIntent N → BrokerExecutionKind
  execution_kind_for_intent (place_order e o) = cex_order
  execution_kind_for_intent (cancel_order e c) = cex_cancel
  execution_kind_for_intent (get_order_status e c) = cex_order_status
  execution_kind_for_intent (request_signature e c s) = onchain_signature
  execution_kind_for_intent (simulate_transaction e c) = onchain_simulation

  -- `assertExecutionEvidenceMatchesIntent`: the message of the error that is thrown.
  unfoldable pub evidence_error : TradingIntent N → Evidence N → Option String
  evidence_error (cancel_order e c) evidence =
      if is_order c.order_id evidence.order_id
      then none
      else some "Connector execution evidence orderId does not match intent."
  evidence_error (get_order_status e c) evidence =
      if differs c.order_id evidence.order_id
      then some "Connector execution evidence orderId does not match intent."
      else elim evidence.order_status [
        | none ↦ some "Connector order status evidence is missing."
        | some status ↦
            if not (status.order_id == c.order_id)
            then some "Connector order status orderId does not match intent."
            else if not (status.symbol == c.symbol)
            then some "Connector order status symbol does not match intent."
            else none
      ]
  evidence_error (place_order e o) evidence = elim evidence.order_status [
    | none ↦ none
    | some status ↦
        if not (status.symbol == o.symbol)
        then some "Connector order status symbol does not match intent."
        else if not (equals_lowered status.side (side_text o.side))
        then some "Connector order status side does not match intent."
        else if differs status.order_id evidence.order_id
        then some "Connector order status orderId does not match execution evidence."
        else none
  ]
  evidence_error (simulate_transaction e c) evidence = none
  evidence_error (request_signature e c s) evidence = none

-- What `executedResult` does: it returns a result, or throws an error with this text.
pub data Judgement (N : Type 0) : Type 0 where
  accepted : BrokerExecutionResult N → Judgement N
  refused : (error : String) → Judgement N

module _ {N S : Type 0} ⦃number : JsNumber N⦄ (host : Host N S) where
  abbrev nonnegative : N → Bool
  nonnegative a = number.is_finite a && number.le (number.of_nat 0) a

  -- `BrokerOrderStatus`
  abbrev valid_order_status : OrderStatus N → Bool
  valid_order_status s =
      not (s.order_id == "")
      && not (s.symbol == "")
      && not (s.side == "")
      && not (s.status == "")
      && nonnegative s.executed_qty
      && nonnegative s.avg_price

  abbrev none_or : {A : Type 0} → (A → Bool) → Option A → Bool
  none_or test none = true
  none_or test (some a) = test a

  -- `BrokerOrderReconciliation`
  abbrev valid_reconciliation : Reconciliation N → Bool
  valid_reconciliation r =
      host.is_datetime r.checked_at
      && valid_order_status r.expected
      && none_or valid_order_status r.observed
      && every (λ d. not (d == "")) r.discrepancies

  -- `BrokerSimulationEvidence`
  abbrev valid_simulation : SimulationEvidence → Bool
  valid_simulation s = none_or host.is_uuid s.simulation_id && not (s.provider == "")

  abbrev lacks : {A : Type 0} → Option A → Bool
  lacks none = true
  lacks (some a) = false

  -- Whether `BrokerExecutionResult` of schemas/src/broker.ts has a member for an execution of this
  -- kind with this evidence. The objects are strict: what a member does not name must be absent.
  unfoldable pub evidence_fits_kind : BrokerExecutionKind → Evidence N → Bool
  evidence_fits_kind cex_order e =
      none_or_present e.order_id
      && none_or valid_order_status e.order_status
      && (is_some e.order_id || is_some e.order_status)
      && none_or valid_reconciliation e.reconciliation
      && lacks e.transaction_hash
      && lacks e.simulation_evidence
  evidence_fits_kind cex_cancel e =
      present e.order_id
      && lacks e.order_status
      && lacks e.reconciliation
      && lacks e.transaction_hash
      && lacks e.simulation_evidence
  evidence_fits_kind cex_order_status e =
      none_or_present e.order_id
      && is_some e.order_status
      && none_or valid_order_status e.order_status
      && lacks e.reconciliation
      && lacks e.transaction_hash
      && lacks e.simulation_evidence
  evidence_fits_kind onchain_signature e =
      present e.transaction_hash
      && lacks e.order_id
      && lacks e.order_status
      && lacks e.reconciliation
      && lacks e.simulation_evidence
  evidence_fits_kind onchain_simulation e =
      is_some e.simulation_evidence
      && none_or valid_simulation e.simulation_evidence
      && lacks e.order_id
      && lacks e.order_status
      && lacks e.reconciliation
      && lacks e.transaction_hash

  abbrev parse_executed : TradingIntent N → Evidence N → String → Judgement N
  parse_executed intent evidence now =
      if evidence_fits_kind (execution_kind_for_intent intent) evidence
      then accepted (record {
        intent_id = (envelope intent).intent_id;
        idempotency_key = (envelope intent).idempotency_key;
        status = executed;
        execution_kind = some (execution_kind_for_intent intent);
        evidence = evidence;
        revalidation_passed = true;
        rejection_reason = none;
        executed_at = now;
      })
      else refused (host.schema_error intent evidence)

  -- executedResult(intent, executionResult, now)
  unfoldable pub executed_result : TradingIntent N → Evidence N → String → Judgement N
  unfolding template
  executed_result intent evidence now = elim (evidence_error intent evidence) [
    | some error ↦ refused (template ("Error: " ∷ error ∷ []))
    | none ↦ parse_executed intent evidence now
  ]
