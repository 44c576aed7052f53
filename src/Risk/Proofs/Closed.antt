-- ===== src/Risk/Proofs/Closed.antt =====
-- The engine fails closed on an order, and asks for no market facts of any other intent.
use agent_trading_guardrails.Base.{◌≡◌, refl, ◌↔◌, inl, inr, true, false, Bool-cases, none, arith}
use mathlib.Core.Path.{subst}
use agent_trading_guardrails.Js.{JsNumber}
use agent_trading_guardrails.Schemas.{
  Envelope, CexOrder, TradingIntent, place_order, is_place_order, Review,
}
use agent_trading_guardrails.Risk.Types.{RiskLimits, undefined}
use agent_trading_guardrails.Risk.Engine.{RiskFacts, EngineClock, assess}
use agent_trading_guardrails.Risk.Checks.{
  check_market_data_freshness, check_price_band, check_portfolio_freshness, check_position_delta,
  check_daily_notional, check_daily_loss, check_order_frequency, check_daily_order_count,
  check_per_order_notional, check_slippage,
}
use agent_trading_guardrails.Risk.Checks.Verdicts.{Passes}
use agent_trading_guardrails.Risk.Acceptable.{IsAcceptableOrder, IsSupported, IsPaced}
use agent_trading_guardrails.Risk.Proofs.Evaluate.{assess-passed_iff}
use agent_trading_guardrails.Risk.Proofs.Intent.{intent-Passes, intent_of_supported}

-- A fact that the provider did not have.
pub data IsMissing {N : Type 0} (facts : RiskFacts N) : Type 0 where
  no_market_data : facts.market_data ≡ none → IsMissing facts
  no_portfolio : facts.portfolio ≡ none → IsMissing facts
  no_daily_stats : facts.daily_stats ≡ none → IsMissing facts
  no_last_order : facts.last_order ≡ undefined → IsMissing facts

module _ {N : Type 0} ⦃num : JsNumber N⦄ (l : RiskLimits N) (clock : EngineClock N)
    (facts : RiskFacts N) (review : Review) where
  missing_unacceptable :
      (o : CexOrder N) (now : N) → IsMissing facts → IsAcceptableOrder o l now facts → ⊥
  missing_unacceptable o now (no_market_data q) a = cc (q, a.quote.1)
  missing_unacceptable o now (no_portfolio q) a = cc (q, a.portfolio.1)
  missing_unacceptable o now (no_daily_stats q) a = cc (q, a.day.1)
  missing_unacceptable o now (no_last_order q) a = subst (λ last. IsPaced l now last) q a.paced

  -- Without market data, portfolio, statistics of the day or an answer about the last order, no order
  -- passes, whatever the other facts, the limits and the review.
  pub assess-missing :
      (e : Envelope) (o : CexOrder N)
      → IsMissing facts
      → (assess (place_order e o) l clock facts review).passed ≡ false
  assess-missing e o m = elim (Bool-cases (assess (place_order e o) l clock facts review).passed) [
    | inl passed ↦ absurd (
        missing_unacceptable o clock.now_ms m
          ((assess-passed_iff e o l clock facts review).0 passed).0)
    | inr failed ↦ failed
  ]

  other-Passes :
      (intent : TradingIntent N)
      → is_place_order intent ≡ false
      → (now : N)
      → Passes (check_market_data_freshness intent l now facts.market_data)
        × Passes (check_price_band intent l now facts.market_data)
        × Passes (check_portfolio_freshness facts.portfolio intent l now)
        × Passes (check_per_order_notional intent l)
        × Passes (check_daily_notional intent l facts.daily_stats)
        × Passes (check_daily_loss intent l facts.daily_stats)
        × Passes (check_slippage intent l)
        × Passes (check_position_delta facts.portfolio intent l)
        × Passes (check_order_frequency facts.last_order intent l now)
        × Passes (check_daily_order_count intent l facts.daily_stats)
  unfolding check_market_data_freshness check_price_band check_portfolio_freshness
      check_per_order_notional check_daily_notional check_daily_loss check_slippage
      check_position_delta check_order_frequency check_daily_order_count
  other-Passes (place_order e o) other now = cc
  other-Passes _ other now = (refl, refl, refl, refl, refl, refl, refl, refl, refl, refl)

  -- An intent that is no order passes exactly when its evidence names something and the review is of
  -- this intent and does not contradict itself; the limits and the market do not matter.
  pub assess_other_iff :
      (intent : TradingIntent N)
      → is_place_order intent ≡ false
      → ((assess intent l clock facts review).passed ≡ true) ↔ IsSupported intent review
  unfolding assess
  assess_other_iff intent other = (
    λ h. intent-Passes intent review (ground arith) (ground arith),
    λ s.
        let others = other-Passes intent other clock.now_ms in
        let supported = intent_of_supported intent review s in ground arith,
  )
