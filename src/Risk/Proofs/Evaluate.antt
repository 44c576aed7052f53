-- ===== src/Risk/Proofs/Evaluate.antt =====
-- What an evaluation that passes has established, and that it passes whenever that holds.
use agent_trading_guardrails.Base.{
  String, eq_iff, ◌≡◌, ◌↔◌, inl, inr, true, some, Option-cases, arith,
}
use agent_trading_guardrails.Js.{JsNumber}
use agent_trading_guardrails.Schemas.{
  Envelope, CexOrder, TradingIntent, place_order, Review, DailyStats, DynamicRiskResult,
}
use agent_trading_guardrails.Risk.Types.{RiskLimits, RiskDataProvider}
use agent_trading_guardrails.Risk.Engine.{
  RiskFacts, EngineClock, assess, valid_limits, own_stats, gather, evaluate,
}
use agent_trading_guardrails.Risk.Acceptable.{IsAcceptableOrder, IsSupported}
use agent_trading_guardrails.Risk.Proofs.Order.{PassesOrder, order-passes, order_of_acceptable}
use agent_trading_guardrails.Risk.Proofs.Intent.{intent-Passes, intent_of_supported}

module _ {N : Type 0} ⦃num : JsNumber N⦄ (e : Envelope) (o : CexOrder N) (l : RiskLimits N)
    (clock : EngineClock N) (facts : RiskFacts N) (review : Review) where
  -- The engine passes an order exactly when every fact that it needs was found and is in order, the
  -- evidence names something, and the review is of this intent and does not contradict itself.
  pub assess-passed_iff :
      ((assess (place_order e o) l clock facts review).passed ≡ true)
      ↔ (IsAcceptableOrder o l clock.now_ms facts × IsSupported (place_order e o) review)
  unfolding assess
  assess-passed_iff = (
    λ h.
        let checks : PassesOrder e o l clock.now_ms facts = ground arith in
        (
          order-passes e o l clock.now_ms facts checks,
          intent-Passes (place_order e o) review (ground arith) (ground arith),
        ),
    λ h.
        let checks = order_of_acceptable e o l clock.now_ms facts h.0 in
        let supported = intent_of_supported (place_order e o) review h.1 in ground arith,
  )

module _ {N : Type 0} (provider : RiskDataProvider N) (e : Envelope) (o : CexOrder N) where
  gather-own_stats :
      (today : String) (facts : RiskFacts N)
      → gather provider (place_order e o) today ≡ some facts
      → (s : DailyStats N) → facts.daily_stats ≡ some s
      → (s.account ≡ o.account) × (s.date ≡ today)
  unfolding gather own_stats
  gather-own_stats today facts h s q =
      ground (arith, eq_iff s.account o.account, eq_iff s.date today)

module _ {N : Type 0} ⦃num : JsNumber N⦄ (provider : RiskDataProvider N) (l : RiskLimits N)
    (clock : EngineClock N) (intent : TradingIntent N) (review : Review) where
  pub evaluate-eq-some :
      (result : DynamicRiskResult N)
      → evaluate provider l clock intent review ≡ some result
      → (facts : RiskFacts N) × (gather provider intent clock.today ≡ some facts)
        × (valid_limits l ≡ true)
        × (clock.now_day ≡ clock.today)
        × (result ≡ assess intent l clock facts review)
  unfolding evaluate
  evaluate-eq-some result h = elim (Option-cases (gather provider intent clock.today)) [
    | inl q ↦ ground (arith, q)
    | inr (facts, q) ↦ (
      facts,
      q,
      ground (arith, q),
      ground (arith, q, eq_iff clock.now_day clock.today),
      ground (arith, q),
    )
  ]

module _ {N : Type 0} ⦃num : JsNumber N⦄ (provider : RiskDataProvider N) (l : RiskLimits N)
    (clock : EngineClock N) (e : Envelope) (o : CexOrder N) (review : Review) where
  -- An evaluation that resolves with `passed` has found, for this order: valid limits, facts that
  -- the provider returned and that are all in order, statistics of the order's own account and of
  -- the day on which the evaluation began, and no change of day meanwhile.
  pub evaluate-passes :
      (result : DynamicRiskResult N)
      → evaluate provider l clock (place_order e o) review ≡ some result
      → result.passed ≡ true
      → (facts : RiskFacts N) × (gather provider (place_order e o) clock.today ≡ some facts)
        × (valid_limits l ≡ true)
        × (clock.now_day ≡ clock.today)
        × IsAcceptableOrder o l clock.now_ms facts
        × IsSupported (place_order e o) review
        × ((s : DailyStats N)
            → facts.daily_stats ≡ some s
            → (s.account ≡ o.account) × (s.date ≡ clock.today))
  evaluate-passes result h p =
      let (facts, found, valid, same_day, q) =
        evaluate-eq-some provider l clock (place_order e o) review result h in
      let (acceptable, supported) = (assess-passed_iff e o l clock facts review).0 (rw q at p) in
      (
        facts,
        found,
        valid,
        same_day,
        acceptable,
        supported,
        gather-own_stats provider e o clock.today facts found,
      )
