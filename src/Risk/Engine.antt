-- ===== src/Risk/Engine.antt =====
-- packages/risk-engine/src/engine.ts: `RiskEngine`. A promise that rejects and an error that is
-- thrown are `none`; the clock is read where the source reads it, and its readings are an argument.
use agent_trading_guardrails.Base.{
  String, ◌==◌, Bool, not, ◌&&◌, Option, none, some, List, [], ◌∷◌, every, if◌then◌else◌,
}
use agent_trading_guardrails.Js.{JsNumber}
use agent_trading_guardrails.Schemas.{
  TradingIntent, place_order, envelope, RiskCheckResult, Review, DailyStats, DynamicRiskResult,
}
use agent_trading_guardrails.Risk.Types.{
  RiskLimits, MarketDataSnapshot, PortfolioSnapshot, LastOrder, undefined, RiskDataProvider,
}
use agent_trading_guardrails.Risk.Checks.{
  check_market_data_freshness, check_price_band, check_portfolio_freshness, check_position_delta,
  check_daily_notional, check_daily_loss, check_order_frequency, check_daily_order_count,
  check_per_order_notional, check_slippage, check_evidence_references, check_reviewer_consistency,
}
use agent_trading_guardrails.Risk.Checks.Verdicts.{is_pass}

infixl 5 ◌>>=◌
abbrev pub ◌>>=◌ : {A B : Type 0} → Option A → (A → Option B) → Option B
none >>= f = none
some a >>= f = f a

-- `today` before the facts are fetched; the time, its UTC day and the time stamp afterwards.
pub record EngineClock (N : Type 0) : Type 0 where
  pub today : String
  pub now_ms : N
  pub now_day : String
  pub evaluated_at : String

-- The snapshots that one evaluation fetched; for an intent that is no order, `undefined` each.
pub record RiskFacts (N : Type 0) : Type 0 where
  pub daily_stats : Option (DailyStats N)
  pub market_data : Option (MarketDataSnapshot N)
  pub portfolio : Option (PortfolioSnapshot N)
  pub last_order : LastOrder N

module _ {N : Type 0} where
  -- `dailyStatsSnapshot`: statistics of another account or of another day are dropped.
  unfoldable pub own_stats : String → String → Option (DailyStats N) → Option (DailyStats N)
  own_stats account today none = none
  own_stats account today (some s) =
      if s.account == account && s.date == today then some s else none

  unfoldable pub gather : RiskDataProvider N → TradingIntent N → String → Option (RiskFacts N)
  unfolding own_stats
  gather provider (place_order e o) today = do
    raw ← provider.get_daily_stats o.account today
    market ← provider.get_market_data o.symbol
    portfolio ← provider.get_portfolio o.account
    last ← provider.get_last_order_timestamp_ms o.account
    some (record {
      daily_stats = own_stats o.account today raw;
      market_data = market;
      portfolio = portfolio;
      last_order = last;
    })
  gather provider _ today =
      some (record {
        daily_stats = none;
        market_data = none;
        portfolio = none;
        last_order = undefined;
      })

module _ {N : Type 0} ⦃num : JsNumber N⦄ where
  abbrev valid_limit : N → Bool
  valid_limit limit = num.is_finite limit && not (num.lt limit (num.of_nat 0))

  -- The constructor's loop over `Object.entries(limits)`; it throws at an invalid limit.
  unfoldable pub valid_limits : RiskLimits N → Bool
  valid_limits l = every valid_limit (
      l.max_market_data_age_ms ∷ l.max_portfolio_age_ms ∷ l.max_notional_usd
      ∷ l.max_daily_notional_usd ∷ l.max_daily_loss_usd ∷ l.max_slippage_bps ∷ l.max_price_band_bps
      ∷ l.max_position_delta_pct ∷ l.min_order_interval_ms ∷ l.max_orders_per_day ∷ [])

  -- The checks in the order in which they are pushed.
  unfoldable pub run_checks :
      TradingIntent N → RiskLimits N → N → RiskFacts N → Review → List (RiskCheckResult N)
  run_checks intent limits now_ms facts review =
      check_market_data_freshness intent limits now_ms facts.market_data
      ∷ check_price_band intent limits now_ms facts.market_data
      ∷ check_portfolio_freshness facts.portfolio intent limits now_ms
      ∷ check_per_order_notional intent limits
      ∷ check_daily_notional intent limits facts.daily_stats
      ∷ check_daily_loss intent limits facts.daily_stats
      ∷ check_slippage intent limits
      ∷ check_position_delta facts.portfolio intent limits
      ∷ check_order_frequency facts.last_order intent limits now_ms
      ∷ check_daily_order_count intent limits facts.daily_stats
      ∷ check_evidence_references intent
      ∷ check_reviewer_consistency intent review
      ∷ []

  unfoldable pub assess :
      TradingIntent N → RiskLimits N → EngineClock N → RiskFacts N → Review → DynamicRiskResult N
  unfolding run_checks
  assess intent limits clock facts review = record {
    intent_id = (envelope intent).intent_id;
    passed = every (λ c. is_pass c.status) (run_checks intent limits clock.now_ms facts review);
    checks = run_checks intent limits clock.now_ms facts review;
    daily_stats = facts.daily_stats;
    evaluated_at = clock.evaluated_at;
  }

  -- `new RiskEngine(provider, limits).evaluate(intent, review)`
  unfoldable pub evaluate :
      RiskDataProvider N
      → RiskLimits N
      → EngineClock N
      → TradingIntent N
      → Review
      → Option (DynamicRiskResult N)
  evaluate provider limits clock intent review = if not (valid_limits limits) then none else (do
    facts ← gather provider intent clock.today
    (if not (clock.now_day == clock.today)
        then none
        else some (assess intent limits clock facts review)))
