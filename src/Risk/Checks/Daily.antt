-- ===== src/Risk/Checks/Daily.antt =====
-- `checkDailyNotional`, `checkDailyLoss`, `checkOrderFrequency` and `checkDailyOrderCount` of
-- checks.ts: the checks that only a place-order intent undergoes, against the day's statistics.
use agent_trading_guardrails.Base.{String, not, ◌||◌, Option, none, some, [], ◌∷◌, if◌then◌else◌}
use agent_trading_guardrails.Js.{JsNumber}
use agent_trading_guardrails.Js.Text.{template}
use agent_trading_guardrails.Schemas.{TradingIntent, place_order, RiskCheckResult, DailyStats}
use agent_trading_guardrails.Risk.Types.{RiskLimits, LastOrder, undefined, never, at}
use agent_trading_guardrails.Risk.Checks.Verdicts.{
  passing, passing_at, failing_at, unavailable_because,
}

module _ {N : Type 0} ⦃num : JsNumber N⦄ where
  -- `if (value > limit) { fail } pass`, the end of each check for an upper limit.
  abbrev pub upper_limit : String → N → N → String → RiskCheckResult N
  upper_limit check value limit message =
      if num.lt limit value
      then failing_at check value limit message
      else passing_at check value limit

  unfoldable pub check_daily_notional :
      TradingIntent N → RiskLimits N → Option (DailyStats N) → RiskCheckResult N
  check_daily_notional (place_order e o) limits stats = elim stats [
    | none ↦ unavailable_because "daily_notional" "Daily stats not available."
    | some s ↦
        if not (num.is_finite s.total_notional_usd) || num.lt s.total_notional_usd (num.of_nat 0)
        then unavailable_because "daily_notional" "Daily notional stats are invalid."
        else upper_limit "daily_notional" (num.add s.total_notional_usd o.max_notional_usd)
            limits.max_daily_notional_usd
            (template (
              "Projected daily notional $"
              ∷ num.show (num.add s.total_notional_usd o.max_notional_usd)
              ∷ " exceeds limit $"
              ∷ num.show limits.max_daily_notional_usd
              ∷ "."
              ∷ []))
  ]
  check_daily_notional _ limits stats = passing "daily_notional"

  unfoldable pub check_daily_loss :
      TradingIntent N → RiskLimits N → Option (DailyStats N) → RiskCheckResult N
  check_daily_loss (place_order e o) limits stats = elim stats [
    | none ↦ unavailable_because "daily_loss" "Daily stats not available."
    | some s ↦
        if not (num.is_finite s.realized_loss_usd) || num.lt s.realized_loss_usd (num.of_nat 0)
        then unavailable_because "daily_loss" "Daily loss stats are invalid."
        else upper_limit "daily_loss" s.realized_loss_usd limits.max_daily_loss_usd (
            template (
              "Daily loss $"
              ∷ num.show s.realized_loss_usd
              ∷ " exceeds limit $"
              ∷ num.show limits.max_daily_loss_usd
              ∷ "."
              ∷ []))
  ]
  check_daily_loss _ limits stats = passing "daily_loss"

  -- From `if (!Number.isFinite(elapsed) ...` on.
  unfoldable pub elapsed_verdict : N → N → RiskCheckResult N
  elapsed_verdict limit elapsed =
      if not (num.is_finite elapsed) || num.lt elapsed (num.of_nat 0)
      then unavailable_because "order_frequency" "Last order timestamp is invalid."
      else if num.lt elapsed limit
      then failing_at "order_frequency" elapsed limit (
          template (
            "Only " ∷ num.show elapsed ∷ "ms since last order, min " ∷ num.show limit ∷ "ms." ∷ []))
      else passing_at "order_frequency" elapsed limit

  -- For `undefined` the source takes NaN for the elapsed time, which is not finite.
  unfoldable pub check_order_frequency :
      LastOrder N → TradingIntent N → RiskLimits N → N → RiskCheckResult N
  unfolding elapsed_verdict
  check_order_frequency last (place_order e o) limits now_ms = elim last [
    | never ↦ passing "order_frequency"
    | undefined ↦ unavailable_because "order_frequency" "Last order timestamp is invalid."
    | at t ↦ elapsed_verdict limits.min_order_interval_ms (num.sub now_ms t)
  ]
  check_order_frequency last _ limits now_ms = passing "order_frequency"

  unfoldable pub check_daily_order_count :
      TradingIntent N → RiskLimits N → Option (DailyStats N) → RiskCheckResult N
  check_daily_order_count (place_order e o) limits stats = elim stats [
    | none ↦ unavailable_because "daily_order_count" "Daily stats not available."
    | some s ↦
        if not (num.is_finite s.order_count) || num.lt s.order_count (num.of_nat 0)
        then unavailable_because "daily_order_count" "Daily order count stats are invalid."
        else upper_limit "daily_order_count" (num.add s.order_count (num.of_nat 1))
            limits.max_orders_per_day
            (template (
              "Projected daily order count "
              ∷ num.show (num.add s.order_count (num.of_nat 1))
              ∷ " exceeds limit "
              ∷ num.show limits.max_orders_per_day
              ∷ "."
              ∷ []))
  ]
  check_daily_order_count _ limits stats = passing "daily_order_count"
