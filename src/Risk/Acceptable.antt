-- ===== src/Risk/Acceptable.antt =====
-- What the risk engine promises of an order that it passes, stated without its checks.
use agent_trading_guardrails.Base.{true, false, ◌≡◌, ◌≢◌, ◌⊎◌, Option, none, some, [], All, length}
use agent_trading_guardrails.Js.{JsNumber}
use agent_trading_guardrails.Js.Text.{is_blank}
use agent_trading_guardrails.Schemas.{TradingIntent, envelope, CexOrder, Review, DailyStats}
use agent_trading_guardrails.Risk.Types.{
  RiskLimits, MarketDataSnapshot, PortfolioSnapshot, Position, LastOrder, undefined, never, at,
}
use agent_trading_guardrails.Risk.Checks.{deviation_bps, position_for, is_approve}
use agent_trading_guardrails.Risk.Engine.{RiskFacts}
use agent_trading_guardrails.Risk.Checks.Verdicts.{NotAbove, IsAmount}

module _ {N : Type 0} ⦃num : JsNumber N⦄ where
  -- The quote is of the order's symbol, is not from the future and is not too old.
  pub record IsCurrentQuote (o : CexOrder N) (l : RiskLimits N) (now : N) (d : MarketDataSnapshot N)
      : Type 0 where
    pub limit : IsAmount l.max_market_data_age_ms
    pub symbol : d.symbol ≡ o.symbol
    pub dated : num.is_finite d.timestamp_ms ≡ true
    pub not_future : num.lt (num.sub now d.timestamp_ms) (num.of_nat 0) ≡ false
    pub not_old : NotAbove (num.sub now d.timestamp_ms) l.max_market_data_age_ms

  -- The quote prices the order within the band.
  pub record IsFairlyPriced (o : CexOrder N) (l : RiskLimits N) (now : N) (d : MarketDataSnapshot N)
      : Type 0 where
    pub current : IsCurrentQuote o l now d
    pub price_finite : num.is_finite o.price ≡ true
    pub price_positive : num.le o.price (num.of_nat 0) ≡ false
    pub quote_finite : num.is_finite d.price ≡ true
    pub quote_positive : num.le d.price (num.of_nat 0) ≡ false
    pub limit : IsAmount l.max_price_band_bps
    pub in_band : NotAbove (deviation_bps o.price d.price) l.max_price_band_bps

  pub record IsCurrentPortfolio (o : CexOrder N) (l : RiskLimits N) (now : N)
      (p : PortfolioSnapshot N) : Type 0 where
    pub account : p.account ≡ o.account
    pub age : IsAmount (num.sub now p.timestamp_ms)
    pub not_old : NotAbove (num.sub now p.timestamp_ms) l.max_portfolio_age_ms

  -- The order is small against a position of size `current`, or there is no position.
  abbrev pub IsSmallAgainst : CexOrder N → RiskLimits N → N → Type 0
  IsSmallAgainst o l current =
      (num.equals (num.abs current) (num.of_nat 0) ≡ true)
      ⊎ NotAbove (num.mul (num.div o.max_notional_usd (num.abs current)) (num.of_nat 100))
          l.max_position_delta_pct

  abbrev pub FitsPosition : CexOrder N → RiskLimits N → Option (Position N) → Type 0
  FitsPosition o l none = IsSmallAgainst o l (num.of_nat 0)
  FitsPosition o l (some position) =
      (num.is_finite position.notional_usd ≡ true) × IsSmallAgainst o l position.notional_usd

  pub record FitsDay (o : CexOrder N) (l : RiskLimits N) (s : DailyStats N) : Type 0 where
    pub notional : IsAmount s.total_notional_usd
    pub notional_fits :
        NotAbove (num.add s.total_notional_usd o.max_notional_usd) l.max_daily_notional_usd
    pub loss : IsAmount s.realized_loss_usd
    pub loss_fits : NotAbove s.realized_loss_usd l.max_daily_loss_usd
    pub count : IsAmount s.order_count
    pub count_fits : NotAbove (num.add s.order_count (num.of_nat 1)) l.max_orders_per_day

  -- There was no order before, or the last one is long enough ago.
  abbrev pub IsPaced : RiskLimits N → N → LastOrder N → Type 0
  IsPaced l now undefined = ⊥
  IsPaced l now never = Unit
  IsPaced l now (at t) =
      IsAmount (num.sub now t) × (num.lt (num.sub now t) l.min_order_interval_ms ≡ false)

  pub record IsWithinOwnBounds (o : CexOrder N) (l : RiskLimits N) : Type 0 where
    pub notional : NotAbove o.max_notional_usd l.max_notional_usd
    pub slippage : NotAbove o.max_slippage_bps l.max_slippage_bps

  -- All that the engine knows of an order, and the facts that it must have found.
  pub record IsAcceptableOrder (o : CexOrder N) (l : RiskLimits N) (now : N) (facts : RiskFacts N)
      : Type 0 where
    pub quote : (d : MarketDataSnapshot N) × (facts.market_data ≡ some d) × IsFairlyPriced o l now d
    pub portfolio :
        (p : PortfolioSnapshot N) × (facts.portfolio ≡ some p)
        × IsCurrentPortfolio o l now p
        × FitsPosition o l (position_for o p)
    pub day : (s : DailyStats N) × (facts.daily_stats ≡ some s) × FitsDay o l s
    pub paced : IsPaced l now facts.last_order
    pub bounds : IsWithinOwnBounds o l

-- The evidence names something, and the review is of this intent and does not contradict itself.
pub record IsSupported {N : Type 0} (intent : TradingIntent N) (review : Review) : Type 0 where
  pub evidence : (envelope intent).evidence ≢ []
  pub references : All (λ ref. is_blank ref ≡ false) (envelope intent).evidence
  pub review_of_intent : review.intent_id ≡ (envelope intent).intent_id
  pub consistent : is_approve review.verdict ≡ true → length review.detected_issues ≡ 0
