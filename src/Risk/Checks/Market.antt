-- ===== src/Risk/Checks/Market.antt =====
-- `checkMarketDataFreshness` and `checkPriceBand` of checks.ts.
use agent_trading_guardrails.Base.{
  Bool, ◌==◌, not, ◌||◌, ◌&&◌, Option, none, some, [], ◌∷◌, if◌then◌else◌,
}
use agent_trading_guardrails.Js.{JsNumber}
use agent_trading_guardrails.Js.Text.{template}
use agent_trading_guardrails.Schemas.{TradingIntent, place_order, CexOrder, RiskCheckResult}
use agent_trading_guardrails.Risk.Types.{RiskLimits, MarketDataSnapshot}
use agent_trading_guardrails.Risk.Checks.Verdicts.{
  passing, passing_at, failing_at, unavailable_because,
}

module _ {N : Type 0} ⦃num : JsNumber N⦄ where
  -- From `const ageMs = ...` on.
  unfoldable pub market_age_verdict : N → N → RiskCheckResult N
  market_age_verdict limit age_ms =
      if num.lt age_ms (num.of_nat 0)
      then unavailable_because "market_data_freshness" "Market data unavailable or invalid."
      else if num.lt limit age_ms
      then failing_at "market_data_freshness" age_ms limit (
          template
            ("Market data is " ∷ num.show age_ms ∷ "ms old, max " ∷ num.show limit ∷ "ms." ∷ []))
      else passing_at "market_data_freshness" age_ms limit

  -- Only a place-order intent has the action "cex.place_order", and it has a symbol.
  unfoldable pub check_market_data_freshness :
      TradingIntent N → RiskLimits N → N → Option (MarketDataSnapshot N) → RiskCheckResult N
  unfolding market_age_verdict
  check_market_data_freshness (place_order e o) limits now_ms snapshot =
      if not (num.is_finite limits.max_market_data_age_ms)
        || num.lt limits.max_market_data_age_ms (num.of_nat 0)
      then unavailable_because "market_data_freshness"
          "Market data freshness limit unavailable or invalid."
      else elim snapshot [
        | none ↦ unavailable_because "market_data_freshness" "Market data unavailable or invalid."
        | some d ↦
            if not (d.symbol == o.symbol) || not (num.is_finite d.timestamp_ms)
            then unavailable_because "market_data_freshness" "Market data unavailable or invalid."
            else market_age_verdict limits.max_market_data_age_ms (num.sub now_ms d.timestamp_ms)
      ]
  check_market_data_freshness _ limits now_ms snapshot = passing "market_data_freshness"

  -- `Math.abs((intent.price - data.price) / data.price) * 10_000`
  abbrev pub deviation_bps : N → N → N
  deviation_bps price market_price =
      num.mul (num.abs (num.div (num.sub price market_price) market_price)) (num.of_nat 10_000)

  -- `!data || data.symbol !== ... || data.price <= 0`, negated.
  abbrev pub usable_quote : CexOrder N → MarketDataSnapshot N → Bool
  usable_quote o d =
      d.symbol == o.symbol
      && num.is_finite d.timestamp_ms
      && num.is_finite d.price
      && not (num.le d.price (num.of_nat 0))

  -- From the test of `limits.maxMarketDataAgeMs` on.
  unfoldable pub price_band_verdict :
      CexOrder N → RiskLimits N → N → MarketDataSnapshot N → RiskCheckResult N
  price_band_verdict o limits now_ms d =
      if not (num.is_finite limits.max_market_data_age_ms)
        || num.lt limits.max_market_data_age_ms (num.of_nat 0)
      then unavailable_because "price_band" "Market data freshness limit unavailable or invalid."
      else if num.lt (num.sub now_ms d.timestamp_ms) (num.of_nat 0)
          || num.lt limits.max_market_data_age_ms (num.sub now_ms d.timestamp_ms)
      then unavailable_because "price_band" "Market data unavailable or invalid."
      else if not (num.is_finite limits.max_price_band_bps)
          || num.lt limits.max_price_band_bps (num.of_nat 0)
      then unavailable_because "price_band" "Price band limit unavailable or invalid."
      else if num.lt limits.max_price_band_bps (deviation_bps o.price d.price)
      then failing_at "price_band" (deviation_bps o.price d.price) limits.max_price_band_bps (
          template (
            "Price band "
            ∷ num.to_fixed (deviation_bps o.price d.price) 1
            ∷ "bps exceeds limit "
            ∷ num.show limits.max_price_band_bps
            ∷ "bps."
            ∷ []))
      else passing_at "price_band" (deviation_bps o.price d.price) limits.max_price_band_bps

  -- A validated order has a price, so it is tested for its value alone.
  unfoldable pub check_price_band :
      TradingIntent N → RiskLimits N → N → Option (MarketDataSnapshot N) → RiskCheckResult N
  unfolding price_band_verdict
  check_price_band (place_order e o) limits now_ms snapshot =
      if not (num.is_finite o.price) || num.le o.price (num.of_nat 0)
      then unavailable_because "price_band" "Intent price unavailable or invalid."
      else elim snapshot [
        | none ↦ unavailable_because "price_band" "Market data unavailable or invalid."
        | some d ↦
            if usable_quote o d
            then price_band_verdict o limits now_ms d
            else unavailable_because "price_band" "Market data unavailable or invalid."
      ]
  check_price_band _ limits now_ms snapshot = passing "price_band"
