-- ===== src/Risk/Proofs/Relax.antt =====
-- Limits that are relaxed never turn an order that passes into one that does not.
use agent_trading_guardrails.Base.{◌≡◌, inl, inr, true, Option, none, some}
use agent_trading_guardrails.Js.{JsNumber, ◌≼◌}
use agent_trading_guardrails.Js.Laws.{IsIeee, not_above_mono, not_below_mono}
use agent_trading_guardrails.Schemas.{Envelope, CexOrder, place_order, Review, DailyStats}
use agent_trading_guardrails.Risk.Types.{
  RiskLimits, MarketDataSnapshot, PortfolioSnapshot, Position, LastOrder, undefined, never, at,
}
use agent_trading_guardrails.Risk.Engine.{RiskFacts, EngineClock, assess}
use agent_trading_guardrails.Risk.Checks.{position_for}
use agent_trading_guardrails.Risk.Checks.Verdicts.{IsAmount}
use agent_trading_guardrails.Risk.Acceptable.{
  IsFairlyPriced, IsCurrentPortfolio, IsSmallAgainst, FitsPosition, FitsDay, IsPaced,
  IsAcceptableOrder,
}
use agent_trading_guardrails.Risk.Proofs.Evaluate.{assess-passed_iff}

-- Every upper limit of `k` is at least that of `l`, and its order interval is at most that of `l`;
-- the two limits that the checks test for themselves are valid.
pub record IsRelaxed {N : Type 0} ⦃num : JsNumber N⦄ (l k : RiskLimits N) : Type 0 where
  pub market_age : l.max_market_data_age_ms ≼ k.max_market_data_age_ms
  pub market_age_valid : IsAmount k.max_market_data_age_ms
  pub portfolio_age : l.max_portfolio_age_ms ≼ k.max_portfolio_age_ms
  pub notional : l.max_notional_usd ≼ k.max_notional_usd
  pub daily_notional : l.max_daily_notional_usd ≼ k.max_daily_notional_usd
  pub daily_loss : l.max_daily_loss_usd ≼ k.max_daily_loss_usd
  pub slippage : l.max_slippage_bps ≼ k.max_slippage_bps
  pub band : l.max_price_band_bps ≼ k.max_price_band_bps
  pub band_valid : IsAmount k.max_price_band_bps
  pub delta : l.max_position_delta_pct ≼ k.max_position_delta_pct
  pub interval : k.min_order_interval_ms ≼ l.min_order_interval_ms
  pub orders : l.max_orders_per_day ≼ k.max_orders_per_day

module _ {N : Type 0} ⦃num : JsNumber N⦄ (ieee : IsIeee N) (o : CexOrder N) (l k : RiskLimits N)
    (r : IsRelaxed l k) where
  quote_relaxed :
      (now : N) (d : MarketDataSnapshot N) → IsFairlyPriced o l now d → IsFairlyPriced o k now d
  quote_relaxed now d f = record {
    current = record {
      limit = r.market_age_valid;
      symbol = f.current.symbol;
      dated = f.current.dated;
      not_future = f.current.not_future;
      not_old = not_above_mono ieee _ _ _ f.current.not_old r.market_age;
    };
    price_finite = f.price_finite;
    price_positive = f.price_positive;
    quote_finite = f.quote_finite;
    quote_positive = f.quote_positive;
    limit = r.band_valid;
    in_band = not_above_mono ieee _ _ _ f.in_band r.band;
  }

  portfolio_relaxed :
      (now : N) (p : PortfolioSnapshot N)
      → IsCurrentPortfolio o l now p
      → IsCurrentPortfolio o k now p
  portfolio_relaxed now p c = record {
    account = c.account;
    age = c.age;
    not_old = not_above_mono ieee _ _ _ c.not_old r.portfolio_age;
  }

  small_relaxed : (current : N) → IsSmallAgainst o l current → IsSmallAgainst o k current
  small_relaxed current (inl flat) = inl flat
  small_relaxed current (inr small) = inr (not_above_mono ieee _ _ _ small r.delta)

  position_relaxed :
      (position : Option (Position N)) → FitsPosition o l position → FitsPosition o k position
  position_relaxed none h = small_relaxed _ h
  position_relaxed (some p) h = (h.0, small_relaxed _ h.1)

  day_relaxed : (s : DailyStats N) → FitsDay o l s → FitsDay o k s
  day_relaxed s f = record {
    notional = f.notional;
    notional_fits = not_above_mono ieee _ _ _ f.notional_fits r.daily_notional;
    loss = f.loss;
    loss_fits = not_above_mono ieee _ _ _ f.loss_fits r.daily_loss;
    count = f.count;
    count_fits = not_above_mono ieee _ _ _ f.count_fits r.orders;
  }

  IsPaced-relaxed : (now : N) (last : LastOrder N) → IsPaced l now last → IsPaced k now last
  IsPaced-relaxed now undefined h = h
  IsPaced-relaxed now never h = h
  IsPaced-relaxed now (at t) h = (h.0, not_below_mono ieee _ _ _ h.1 r.interval)

  acceptable_relaxed :
      (now : N) (facts : RiskFacts N)
      → IsAcceptableOrder o l now facts
      → IsAcceptableOrder o k now facts
  acceptable_relaxed now facts a =
      let (d, found_d, fair) = a.quote in
      let (p, found_p, current, fits) = a.portfolio in
      let (s, found_s, fits_day) = a.day in
      record {
        quote = (d, found_d, quote_relaxed now d fair);
        portfolio =
            (p, found_p, portfolio_relaxed now p current, position_relaxed (position_for o p) fits);
        day = (s, found_s, day_relaxed s fits_day);
        paced = IsPaced-relaxed now facts.last_order a.paced;
        bounds = record {
          notional = not_above_mono ieee _ _ _ a.bounds.notional r.notional;
          slippage = not_above_mono ieee _ _ _ a.bounds.slippage r.slippage;
        };
      }

  -- In a number model with the laws of IEEE comparison: an order that passes under limits `l` passes,
  -- on the same facts and at the same time, under every limits `k` that relax `l`.
  pub assess_relaxed :
      (e : Envelope) (clock : EngineClock N) (facts : RiskFacts N) (review : Review)
      → (assess (place_order e o) l clock facts review).passed ≡ true
      → (assess (place_order e o) k clock facts review).passed ≡ true
  assess_relaxed e clock facts review h =
      let (acceptable, supported) = (assess-passed_iff e o l clock facts review).0 h in
      (assess-passed_iff e o k clock facts review).1
        (acceptable_relaxed clock.now_ms facts acceptable, supported)
