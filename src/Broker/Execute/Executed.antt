-- ===== src/Broker/Execute/Executed.antt =====
-- What a result of `executedResult` says of the intent, whatever the connector answered.
use agent_trading_guardrails.Base.{
  String, eq_iff, ◌≡◌, ◌≢◌, refl, sym, inl, inr, true, Option, none, some, Option-cases, arith,
}
use mathlib.Core.Path.{subst}
use agent_trading_guardrails.Js.{JsNumber}
use agent_trading_guardrails.Schemas.{
  TradingIntent, CexOrder, place_order, cancel_order, get_order_status, simulate_transaction,
  request_signature, envelope,
}
use agent_trading_guardrails.Schemas.Encode.{side_text}
use agent_trading_guardrails.Broker.Types.{
  BrokerExecutionResult, executed, Evidence, OrderStatus, SimulationEvidence,
}
use agent_trading_guardrails.Broker.Host.{Host}
use agent_trading_guardrails.Broker.Execute.Evidence.{
  accepted, evidence_error, evidence_fits_kind, execution_kind_for_intent, executed_result,
  equals_lowered,
}

module _ {N : Type 0} where
  -- A status of this order, and of this id if there is one.
  abbrev pub IsStatusOf : CexOrder N → Option String → OrderStatus N → Type 0
  IsStatusOf o none status =
      (status.symbol ≡ o.symbol) × (equals_lowered status.side (side_text o.side) ≡ true)
  IsStatusOf o (some id) status =
      (status.symbol ≡ o.symbol)
      × (equals_lowered status.side (side_text o.side) ≡ true)
      × (status.order_id ≡ id)

  -- An order is seen by its id or by a status of it.
  abbrev pub IsSeen : CexOrder N → Option String → Option (OrderStatus N) → Type 0
  IsSeen o id (some status) = IsStatusOf o id status
  IsSeen o (some id) none = Unit
  IsSeen o none none = ⊥

  -- What must be seen of an execution, by the kind of the intent.
  abbrev pub IsEvidenceOf : TradingIntent N → Evidence N → Type 0
  IsEvidenceOf (place_order e o) evidence = IsSeen o evidence.order_id evidence.order_status
  IsEvidenceOf (cancel_order e c) evidence = evidence.order_id ≡ some c.order_id
  IsEvidenceOf (get_order_status e c) evidence =
      (status : OrderStatus N) × (evidence.order_status ≡ some status)
      × (status.order_id ≡ c.order_id)
      × (status.symbol ≡ c.symbol)
  IsEvidenceOf (simulate_transaction e c) evidence =
      (simulation : SimulationEvidence) × (evidence.simulation_evidence ≡ some simulation)
  IsEvidenceOf (request_signature e c s) evidence =
      (hash : String) × (evidence.transaction_hash ≡ some hash) × (hash ≢ "")

module _ {N : Type 0} (o : CexOrder N) where
  status-IsSeen :
      (id : Option String) (status : OrderStatus N)
      → status.symbol ≡ o.symbol
      → equals_lowered status.side (side_text o.side) ≡ true
      → ((i : String) → id ≡ some i → status.order_id ≡ i)
      → IsSeen o id (some status)
  status-IsSeen none status symbol side same = (symbol, side)
  status-IsSeen (some id) status symbol side same = (symbol, side, same id refl)

module _ {N S : Type 0} ⦃number : JsNumber N⦄ (host : Host N S) where
  fits-IsEvidenceOf :
      (intent : TradingIntent N) (evidence : Evidence N)
      → evidence_error intent evidence ≡ none
      → evidence_fits_kind host (execution_kind_for_intent intent) evidence ≡ true
      → IsEvidenceOf intent evidence
  unfolding evidence_error evidence_fits_kind execution_kind_for_intent
  fits-IsEvidenceOf (cancel_order e c) evidence h fits = elim (Option-cases evidence.order_id) [
    | inl q ↦ ground (arith, q)
    | inr found ↦ ground (arith, found.1, eq_iff c.order_id found.0, eq_iff found.0 c.order_id)
  ]
  fits-IsEvidenceOf (get_order_status e c) evidence h fits =
      elim (Option-cases evidence.order_status) [
        | inl q ↦ ground (arith, q)
        | inr found ↦ (
          found.0,
          found.1,
          ground (arith, found.1, eq_iff found.0.order_id c.order_id),
          ground (arith, found.1, eq_iff found.0.symbol c.symbol),
        )
      ]
  fits-IsEvidenceOf (place_order e o) evidence h fits = elim (Option-cases evidence.order_status) [
    | inl q ↦ elim (Option-cases evidence.order_id) [
      | inl r ↦ ground (arith, q, r)
      | inr id ↦
          subst (λ st. IsSeen o evidence.order_id st) (sym q)
            (subst (λ i. IsSeen o i none) (sym id.1) tt)
    ]
    | inr found ↦
        subst (λ st. IsSeen o evidence.order_id st) (sym found.1)
          (status-IsSeen o evidence.order_id found.0
            (ground (arith, found.1, eq_iff found.0.symbol o.symbol)) (ground (arith, found.1))
            (λ i r. ground (arith, found.1, r, eq_iff i found.0.order_id)))
  ]
  fits-IsEvidenceOf (simulate_transaction e c) evidence h fits =
      elim (Option-cases evidence.simulation_evidence) [
        | inl q ↦ ground (arith, q)
        | inr found ↦ found
      ]
  fits-IsEvidenceOf (request_signature e c s) evidence h fits =
      elim (Option-cases evidence.transaction_hash) [
        | inl q ↦ ground (arith, q)
        | inr found ↦
            (found.0, found.1, λ empty. ground (arith, found.1, (eq_iff found.0 "").1 empty))
      ]

  -- A result that `executedResult` accepts is an execution of this intent, with the connector's
  -- evidence, and the evidence is of this intent: an order by its id or by a status of its symbol,
  -- side and id, a cancellation by the id, a query by a status of its id and symbol, a signature by
  -- a transaction hash that is not empty, a simulation by its evidence.
  pub executed_result-IsEvidenceOf :
      (intent : TradingIntent N) (evidence : Evidence N) (now : String)
      (result : BrokerExecutionResult N)
      → executed_result host intent evidence now ≡ accepted result
      → IsEvidenceOf intent evidence
        × (result.evidence ≡ evidence)
        × (result.status ≡ executed)
        × (result.intent_id ≡ (envelope intent).intent_id)
        × (result.idempotency_key ≡ (envelope intent).idempotency_key)
  unfolding executed_result
  executed_result-IsEvidenceOf intent evidence now result h =
      elim (Option-cases (evidence_error intent evidence)) [
        | inl q ↦ (
          fits-IsEvidenceOf intent evidence q (ground (arith, q)),
          ground (arith, q),
          ground (arith, q),
          ground (arith, q),
          ground (arith, q),
        )
        | inr found ↦ ground (arith, found.1)
      ]
