-- ===== src/Risk/Types.antt =====
-- config.ts and providers.ts: the limits, and what a risk data provider returns.
use agent_trading_guardrails.Base.{String, List, Option}
use agent_trading_guardrails.Js.{JsNumber}
use agent_trading_guardrails.Schemas.{DailyStats}

pub record RiskLimits (N : Type 0) : Type 0 where
  pub max_market_data_age_ms : N
  pub max_portfolio_age_ms : N
  pub max_notional_usd : N
  pub max_daily_notional_usd : N
  pub max_daily_loss_usd : N
  pub max_slippage_bps : N
  pub max_price_band_bps : N
  pub max_position_delta_pct : N
  pub min_order_interval_ms : N
  pub max_orders_per_day : N

abbrev pub default_canary_live_limits : {N : Type 0} ⦃num : JsNumber N⦄ → RiskLimits N
default_canary_live_limits ⦃num⦄ = record {
  max_market_data_age_ms = num.of_nat 10_000;
  max_portfolio_age_ms = num.of_nat 30_000;
  max_notional_usd = num.of_nat 10;
  max_daily_notional_usd = num.of_nat 50;
  max_daily_loss_usd = num.of_nat 25;
  max_slippage_bps = num.of_nat 50;
  max_price_band_bps = num.of_nat 100;
  max_position_delta_pct = num.of_nat 10;
  min_order_interval_ms = num.of_nat 5_000;
  max_orders_per_day = num.of_nat 25;
}

pub record MarketDataSnapshot (N : Type 0) : Type 0 where
  pub symbol : String
  pub price : N
  pub timestamp_ms : N

pub record Position (N : Type 0) : Type 0 where
  pub symbol : String
  pub quantity : N
  pub notional_usd : N

pub record PortfolioSnapshot (N : Type 0) : Type 0 where
  pub account : String
  pub timestamp_ms : N
  pub positions : List (Position N)

-- The answer of `getLastOrderTimestampMs`: `undefined`, `null` or a number.
pub data LastOrder (N : Type 0) : Type 0 where
  undefined : LastOrder N
  never : LastOrder N
  at : N → LastOrder N

-- What the provider's promises resolve to for one intent. A promise that rejects makes `evaluate`
-- reject, which `none` in a list of facts stands for.
pub record RiskDataProvider (N : Type 0) : Type 0 where
  pub get_market_data : String → Option (Option (MarketDataSnapshot N))
  pub get_portfolio : String → Option (Option (PortfolioSnapshot N))
  pub get_daily_stats : String → String → Option (Option (DailyStats N))
  pub get_last_order_timestamp_ms : String → Option (LastOrder N)
