-- ===== src/Risk/Checks/Portfolio.antt =====
-- `checkPortfolioFreshness` and `checkPositionDelta` of checks.ts.
use agent_trading_guardrails.Base.{
  ◌==◌, not, ◌||◌, Option, none, some, [], ◌∷◌, find, if◌then◌else◌,
}
use agent_trading_guardrails.Js.{JsNumber}
use agent_trading_guardrails.Js.Text.{template}
use agent_trading_guardrails.Schemas.{TradingIntent, place_order, CexOrder, RiskCheckResult}
use agent_trading_guardrails.Risk.Types.{RiskLimits, PortfolioSnapshot, Position}
use agent_trading_guardrails.Risk.Checks.Verdicts.{
  passing, passing_at, failing_at, unavailable_because,
}

module _ {N : Type 0} ⦃num : JsNumber N⦄ where
  -- From `const ageMs = ...` on.
  unfoldable pub portfolio_age_verdict : N → N → RiskCheckResult N
  portfolio_age_verdict limit age_ms =
      if not (num.is_finite age_ms) || num.lt age_ms (num.of_nat 0)
      then unavailable_because "portfolio_freshness" "Portfolio timestamp is invalid."
      else if num.lt limit age_ms
      then failing_at "portfolio_freshness" age_ms limit (
          template
            ("Portfolio data is " ∷ num.show age_ms ∷ "ms old, max " ∷ num.show limit ∷ "ms." ∷ []))
      else passing_at "portfolio_freshness" age_ms limit

  unfoldable pub check_portfolio_freshness :
      Option (PortfolioSnapshot N) → TradingIntent N → RiskLimits N → N → RiskCheckResult N
  unfolding portfolio_age_verdict
  check_portfolio_freshness portfolio (place_order e o) limits now_ms = elim portfolio [
    | none ↦ unavailable_because "portfolio_freshness" "Portfolio data not available."
    | some p ↦
        if not (p.account == o.account)
        then unavailable_because "portfolio_freshness"
            "Portfolio account does not match intent account."
        else portfolio_age_verdict limits.max_portfolio_age_ms (num.sub now_ms p.timestamp_ms)
  ]
  check_portfolio_freshness portfolio _ limits now_ms = passing "portfolio_freshness"

  -- `portfolio.positions.find((p) => p.symbol === intent.symbol)`
  abbrev pub position_for : CexOrder N → PortfolioSnapshot N → Option (Position N)
  position_for o p = find (λ position. position.symbol == o.symbol) p.positions

  -- From `const currentNotional = ...` on; `current` is `position?.notionalUsd ?? 0`.
  unfoldable pub position_delta_verdict : CexOrder N → RiskLimits N → N → RiskCheckResult N
  position_delta_verdict o limits current =
      let delta_pct = num.mul (num.div o.max_notional_usd (num.abs current)) (num.of_nat 100) in
      if num.equals (num.abs current) (num.of_nat 0)
      then passing "position_delta"
      else if num.lt limits.max_position_delta_pct delta_pct
      then failing_at "position_delta" delta_pct limits.max_position_delta_pct (
          template (
            "Position delta "
            ∷ num.to_fixed delta_pct 1
            ∷ "% exceeds limit "
            ∷ num.show limits.max_position_delta_pct
            ∷ "%."
            ∷ []))
      else passing_at "position_delta" delta_pct limits.max_position_delta_pct

  -- Only a place-order intent has an account, a symbol and a notional.
  unfoldable pub check_position_delta :
      Option (PortfolioSnapshot N) → TradingIntent N → RiskLimits N → RiskCheckResult N
  unfolding position_delta_verdict
  check_position_delta portfolio (place_order e o) limits = elim portfolio [
    | none ↦ unavailable_because "position_delta" "Portfolio not available."
    | some p ↦
        if not (p.account == o.account)
        then unavailable_because "position_delta" "Portfolio account does not match intent account."
        else elim (position_for o p) [
          | none ↦ position_delta_verdict o limits (num.of_nat 0)
          | some position ↦
              if not (num.is_finite position.notional_usd)
              then unavailable_because "position_delta" "Position notional is invalid."
              else position_delta_verdict o limits position.notional_usd
        ]
  ]
  check_position_delta portfolio _ limits = passing "position_delta"
