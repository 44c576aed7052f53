-- ===== src/Risk/Proofs/Facts.antt =====
-- Each check of a fact about the market, the account or the day passes exactly when the fact is as
-- it should be.
use agent_trading_guardrails.Base.{eq_iff, ◌≡◌, ◌↔◌, Option, some, arith}
use agent_trading_guardrails.Js.{JsNumber}
use agent_trading_guardrails.Schemas.{Envelope, CexOrder, place_order, DailyStats}
use agent_trading_guardrails.Risk.Types.{
  RiskLimits, MarketDataSnapshot, PortfolioSnapshot, LastOrder, undefined, never, at,
}
use agent_trading_guardrails.Risk.Checks.{
  check_market_data_freshness, check_price_band, check_portfolio_freshness, check_position_delta,
  check_daily_notional, check_daily_loss, check_order_frequency, check_daily_order_count,
  position_for, position_delta_verdict,
}
use agent_trading_guardrails.Risk.Checks.Verdicts.{Passes}
use agent_trading_guardrails.Risk.Acceptable.{
  IsCurrentQuote, IsFairlyPriced, IsCurrentPortfolio, IsSmallAgainst, FitsPosition, FitsDay,
  IsPaced,
}

module _ {N : Type 0} ⦃num : JsNumber N⦄ (e : Envelope) (o : CexOrder N) (l : RiskLimits N) where
  module _ (now : N) where
    pub freshness-Passes :
        (d : MarketDataSnapshot N)
        → Passes (check_market_data_freshness (place_order e o) l now (some d))
        → IsCurrentQuote o l now d
    unfolding check_market_data_freshness
    freshness-Passes d h = ground (arith, eq_iff d.symbol o.symbol)

    pub freshness_of_current :
        (d : MarketDataSnapshot N)
        → IsCurrentQuote o l now d
        → Passes (check_market_data_freshness (place_order e o) l now (some d))
    unfolding check_market_data_freshness
    freshness_of_current d h = ground (arith, eq_iff d.symbol o.symbol)

    pub band-passes :
        (d : MarketDataSnapshot N)
        → Passes (check_price_band (place_order e o) l now (some d))
        → IsFairlyPriced o l now d
    unfolding check_price_band
    band-passes d h = ground (arith, eq_iff d.symbol o.symbol)

    pub band_of_fair :
        (d : MarketDataSnapshot N)
        → IsFairlyPriced o l now d
        → Passes (check_price_band (place_order e o) l now (some d))
    unfolding check_price_band
    band_of_fair d h = ground (arith, eq_iff d.symbol o.symbol)

    pub portfolio-Passes :
        (p : PortfolioSnapshot N)
        → Passes (check_portfolio_freshness (some p) (place_order e o) l now)
        → IsCurrentPortfolio o l now p
    unfolding check_portfolio_freshness
    portfolio-Passes p h = ground (arith, eq_iff p.account o.account)

    pub portfolio_of_current :
        (p : PortfolioSnapshot N)
        → IsCurrentPortfolio o l now p
        → Passes (check_portfolio_freshness (some p) (place_order e o) l now)
    unfolding check_portfolio_freshness
    portfolio_of_current p h = ground (arith, eq_iff p.account o.account)

    pub frequency_iff :
        (last : LastOrder N)
        → Passes (check_order_frequency last (place_order e o) l now) ↔ IsPaced l now last
    unfolding check_order_frequency
    frequency_iff undefined = (λ h. ground arith, λ h. absurd h)
    frequency_iff never = (λ h. tt, λ h. ground arith)
    frequency_iff (at t) = (λ h. ground arith, λ h. ground arith)

  delta_verdict_iff :
      (current : N) → Passes (position_delta_verdict o l current) ↔ IsSmallAgainst o l current
  unfolding position_delta_verdict
  delta_verdict_iff current = (λ h. ground arith, λ h. ground arith)

  pub position-Passes :
      (p : PortfolioSnapshot N)
      → Passes (check_position_delta (some p) (place_order e o) l)
      → FitsPosition o l (position_for o p)
  unfolding check_position_delta
  position-Passes p h = ground (arith, eq_iff p.account o.account)

  pub position_of_fits :
      (p : PortfolioSnapshot N)
      → p.account ≡ o.account
      → FitsPosition o l (position_for o p)
      → Passes (check_position_delta (some p) (place_order e o) l)
  unfolding check_position_delta
  position_of_fits p a h = ground (arith, eq_iff p.account o.account)

  pub record PassesDay (stats : Option (DailyStats N)) : Type 0 where
    pub notional : Passes (check_daily_notional (place_order e o) l stats)
    pub loss : Passes (check_daily_loss (place_order e o) l stats)
    pub count : Passes (check_daily_order_count (place_order e o) l stats)

  pub day-passes : (s : DailyStats N) → PassesDay (some s) → FitsDay o l s
  unfolding check_daily_notional check_daily_loss check_daily_order_count
  day-passes s h = ground arith

  pub day_of_fits : (s : DailyStats N) → FitsDay o l s → PassesDay (some s)
  unfolding check_daily_notional check_daily_loss check_daily_order_count
  day_of_fits s h = ground arith
