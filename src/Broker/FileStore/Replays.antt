-- ===== src/Broker/FileStore/Replays.antt =====
-- `validateCachedEntryForIntent` of idempotency-store.ts against the results that broker.ts makes.
use agent_trading_guardrails.Base.{
  String, eq_refl, ◌≡◌, refl, ap, inl, inr, true, none, some, Option-cases, arith,
}
use mathlib.Core.Path.{subst}
use agent_trading_guardrails.Js.{JsNumber}
use agent_trading_guardrails.Schemas.{
  TradingIntent, place_order, cancel_order, get_order_status, simulate_transaction,
  request_signature, envelope,
}
use agent_trading_guardrails.Broker.Types.{BrokerExecutionResult, executed, Evidence}
use agent_trading_guardrails.Broker.Host.{Host}
use agent_trading_guardrails.Broker.Execute.Evidence.{
  accepted, evidence_error, evidence_fits_kind, execution_kind_for_intent, executed_result,
}
use agent_trading_guardrails.Broker.FileStore.Cached.{
  evidence_problem, result_problem, cached_problem, cached_entry_error, entry_error_of,
}

-- The result that `executedResult` makes of the evidence.
abbrev pub execution_of :
    {N : Type 0} → TradingIntent N → Evidence N → String → BrokerExecutionResult N
execution_of intent evidence now = record {
  intent_id = (envelope intent).intent_id;
  idempotency_key = (envelope intent).idempotency_key;
  status = executed;
  execution_kind = some (execution_kind_for_intent intent);
  evidence = evidence;
  revalidation_passed = true;
  rejection_reason = none;
  executed_at = now;
}

module _ {N S : Type 0} ⦃number : JsNumber N⦄ (host : Host N S) where
  fits-evidence_problem :
      (intent : TradingIntent N) (evidence : Evidence N)
      → evidence_error intent evidence ≡ none
      → evidence_fits_kind host (execution_kind_for_intent intent) evidence ≡ true
      → evidence_problem intent evidence ≡ none
  unfolding evidence_error evidence_fits_kind execution_kind_for_intent evidence_problem
  fits-evidence_problem (cancel_order e c) evidence h fits = elim (Option-cases evidence.order_id) [
    | inl q ↦ ground (arith, q)
    | inr found ↦ ground (arith, found.1)
  ]
  fits-evidence_problem (get_order_status e c) evidence h fits =
      elim (Option-cases evidence.order_id) [
        | inl q ↦ ground (arith, q)
        | inr found ↦ ground (arith, found.1)
      ]
  fits-evidence_problem (place_order e o) evidence h fits = elim (Option-cases evidence.order_id) [
    | inl q ↦ ground (arith, q)
    | inr found ↦ ground (arith, found.1)
  ]
  fits-evidence_problem (simulate_transaction e c) evidence h fits = refl
  fits-evidence_problem (request_signature e c s) evidence h fits = refl

  made-cached_problem :
      (intent : TradingIntent N) (evidence : Evidence N) (now : String)
      → evidence_problem intent evidence ≡ none
      → cached_problem host.sha256 intent (execution_of intent evidence now) none ≡ none
  unfolding cached_problem result_problem execution_kind_for_intent
  made-cached_problem (cancel_order e c) evidence now h =
      ground (arith, h, eq_refl e.intent_id, eq_refl e.idempotency_key)
  made-cached_problem (get_order_status e c) evidence now h =
      ground (arith, h, eq_refl e.intent_id, eq_refl e.idempotency_key)
  made-cached_problem (place_order e o) evidence now h =
      ground (arith, h, eq_refl e.intent_id, eq_refl e.idempotency_key)
  made-cached_problem (simulate_transaction e c) evidence now h =
      ground (arith, h, eq_refl e.intent_id, eq_refl e.idempotency_key)
  made-cached_problem (request_signature e c t) evidence now h =
      ground (arith, h, eq_refl e.intent_id, eq_refl e.idempotency_key)

  pub executed_result-made :
      (intent : TradingIntent N) (evidence : Evidence N) (now : String)
      (result : BrokerExecutionResult N)
      → executed_result host intent evidence now ≡ accepted result
      → (evidence_problem intent evidence ≡ none) × (execution_of intent evidence now ≡ result)
  unfolding executed_result
  executed_result-made intent evidence now result h =
      elim (Option-cases (evidence_error intent evidence)) [
        | inl q ↦ (fits-evidence_problem intent evidence q (ground (arith, q)), ground (arith, q))
        | inr found ↦ ground (arith, found.1)
      ]

  -- A result that `executedResult` accepts is accepted when it is found again for the same intent,
  -- without an event that is pending.
  pub executed_result-cached :
      (key now : String) (intent : TradingIntent N) (evidence : Evidence N)
      (result : BrokerExecutionResult N)
      → executed_result host intent evidence now ≡ accepted result
      → cached_entry_error host.sha256 key intent result none ≡ none
  unfolding cached_entry_error
  executed_result-cached key now intent evidence result h =
      let made = executed_result-made intent evidence now result h in
      subst (λ r. cached_entry_error host.sha256 key intent r none ≡ none) made.1
        (ap (entry_error_of key) (made-cached_problem intent evidence now made.0))
