-- ===== src/Risk/Proofs/Order.antt =====
-- The ten checks of an order together, against `IsAcceptableOrder`. A fact that was not found fails.
use agent_trading_guardrails.Base.{◌≡◌, refl, Option, none, some, arith}
use agent_trading_guardrails.Js.{JsNumber}
use agent_trading_guardrails.Schemas.{Envelope, CexOrder, place_order, DailyStats}
use agent_trading_guardrails.Risk.Types.{RiskLimits, MarketDataSnapshot, PortfolioSnapshot}
use agent_trading_guardrails.Risk.Checks.{
  check_market_data_freshness, check_price_band, check_portfolio_freshness, check_position_delta,
  check_daily_notional, check_daily_loss, check_order_frequency, check_daily_order_count,
  check_per_order_notional, check_slippage, position_for,
}
use agent_trading_guardrails.Risk.Checks.Verdicts.{Passes}
use agent_trading_guardrails.Risk.Engine.{RiskFacts}
use agent_trading_guardrails.Risk.Acceptable.{
  IsFairlyPriced, IsCurrentPortfolio, FitsPosition, FitsDay, IsWithinOwnBounds, IsAcceptableOrder,
}
use agent_trading_guardrails.Risk.Proofs.Facts.{
  PassesDay, freshness_of_current, band-passes, band_of_fair, portfolio-Passes,
  portfolio_of_current, frequency_iff, position-Passes, position_of_fits, day-passes, day_of_fits,
}

module _ {N : Type 0} ⦃num : JsNumber N⦄ (e : Envelope) (o : CexOrder N) (l : RiskLimits N) where
  -- The checks of an order, one field each.
  pub record PassesOrder (now : N) (facts : RiskFacts N) : Type 0 where
    pub freshness : Passes (check_market_data_freshness (place_order e o) l now facts.market_data)
    pub band : Passes (check_price_band (place_order e o) l now facts.market_data)
    pub portfolio : Passes (check_portfolio_freshness facts.portfolio (place_order e o) l now)
    pub notional : Passes (check_per_order_notional (place_order e o) l)
    pub daily_notional : Passes (check_daily_notional (place_order e o) l facts.daily_stats)
    pub daily_loss : Passes (check_daily_loss (place_order e o) l facts.daily_stats)
    pub slippage : Passes (check_slippage (place_order e o) l)
    pub position : Passes (check_position_delta facts.portfolio (place_order e o) l)
    pub frequency : Passes (check_order_frequency facts.last_order (place_order e o) l now)
    pub count : Passes (check_daily_order_count (place_order e o) l facts.daily_stats)

  bounds-pass :
      Passes (check_per_order_notional (place_order e o) l)
      → Passes (check_slippage (place_order e o) l)
      → IsWithinOwnBounds o l
  unfolding check_per_order_notional check_slippage
  bounds-pass h k = ground arith

  notional_of_bounds : IsWithinOwnBounds o l → Passes (check_per_order_notional (place_order e o) l)
  unfolding check_per_order_notional
  notional_of_bounds h = ground arith

  slippage_of_bounds : IsWithinOwnBounds o l → Passes (check_slippage (place_order e o) l)
  unfolding check_slippage
  slippage_of_bounds h = ground arith

  band_found :
      (now : N) (market : Option (MarketDataSnapshot N))
      → Passes (check_price_band (place_order e o) l now market)
      → (d : MarketDataSnapshot N) × (market ≡ some d) × IsFairlyPriced o l now d
  unfolding check_price_band
  band_found now none h = ground arith
  band_found now (some d) h = (d, refl, band-passes e o l now d h)

  portfolio_found :
      (now : N) (portfolio : Option (PortfolioSnapshot N))
      → Passes (check_portfolio_freshness portfolio (place_order e o) l now)
      → Passes (check_position_delta portfolio (place_order e o) l)
      → (p : PortfolioSnapshot N) × (portfolio ≡ some p)
        × IsCurrentPortfolio o l now p
        × FitsPosition o l (position_for o p)
  unfolding check_portfolio_freshness
  portfolio_found now none h k = cc
  portfolio_found now (some p) h k =
      (p, refl, portfolio-Passes e o l now p h, position-Passes e o l p k)

  day_found :
      (stats : Option (DailyStats N))
      → PassesDay e o l stats
      → (s : DailyStats N) × (stats ≡ some s) × FitsDay o l s
  unfolding check_daily_notional
  day_found none h = cc (h.notional)
  day_found (some s) h = (s, refl, day-passes e o l s h)

  pub order-passes :
      (now : N) (facts : RiskFacts N) → PassesOrder now facts → IsAcceptableOrder o l now facts
  order-passes now facts h = record {
    quote = band_found now facts.market_data h.band;
    portfolio = portfolio_found now facts.portfolio h.portfolio h.position;
    day =
        day_found facts.daily_stats
          (record { notional = h.daily_notional; loss = h.daily_loss; count = h.count });
    paced = (frequency_iff e o l now facts.last_order).0 h.frequency;
    bounds = bounds-pass h.notional h.slippage;
  }

  pub order_of_acceptable :
      (now : N) (facts : RiskFacts N) → IsAcceptableOrder o l now facts → PassesOrder now facts
  order_of_acceptable now facts a =
      let (d, found_d, fair) = a.quote in
      let (p, found_p, current, fits) = a.portfolio in
      let (s, found_s, fits_day) = a.day in
      let day = day_of_fits e o l s fits_day in
      record {
        freshness = rw found_d (freshness_of_current e o l now d fair.current);
        band = rw found_d (band_of_fair e o l now d fair);
        portfolio = rw found_p (portfolio_of_current e o l now p current);
        notional = notional_of_bounds a.bounds;
        daily_notional = rw found_s day.notional;
        daily_loss = rw found_s day.loss;
        slippage = slippage_of_bounds a.bounds;
        position = rw found_p (position_of_fits e o l p current.account fits);
        frequency = (frequency_iff e o l now facts.last_order).1 a.paced;
        count = rw found_s day.count;
      }
