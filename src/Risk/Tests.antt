-- ===== src/Risk/Tests.antt =====
-- The theorems on the risk engine at one order, and tests of the checks.
use agent_trading_guardrails.Base.{◌≡◌, refl, ◌↔◌, true, none, some, [], ◌∷◌, arith}
use agent_trading_guardrails.Base.Int.{pos}
use agent_trading_guardrails.Js.Grid.{Grid, whole, nan, grid_number, Grid-IsIeee}
use agent_trading_guardrails.Js.Text.{is_blank}
use agent_trading_guardrails.Schemas.{
  Envelope, CexOrder, TradingIntent, place_order, cancel_order, paper, spot, buy, Review, approve,
  low, DailyStats, unavailable, fail,
}
use agent_trading_guardrails.Risk.Types.{
  RiskLimits, default_canary_live_limits, RiskDataProvider, at,
}
use agent_trading_guardrails.Risk.Engine.{
  RiskFacts, EngineClock, gather, valid_limits, assess, evaluate,
}
use agent_trading_guardrails.Risk.Checks.{
  check_market_data_freshness, check_price_band, check_portfolio_freshness, check_position_delta,
  check_daily_notional, check_daily_loss, check_order_frequency, check_daily_order_count,
  check_per_order_notional, check_slippage, check_evidence_references, check_reviewer_consistency,
}
use agent_trading_guardrails.Risk.Acceptable.{IsAcceptableOrder, IsSupported}
use agent_trading_guardrails.Risk.Proofs.Evaluate.{assess-passed_iff, evaluate-passes}
use agent_trading_guardrails.Risk.Proofs.Relax.{IsRelaxed, assess_relaxed}
use agent_trading_guardrails.Risk.Proofs.Closed.{assess_other_iff}

abbrev sample_envelope : Envelope
sample_envelope = record {
  intent_id = "i-1";
  principal = "agent-1";
  resource = "cex:binance:sub-1:ETH-USDC";
  environment = paper;
  requested_at = "2026-01-01T00:00:00.000Z";
  idempotency_key = "k-1";
  rationale = "rebalance";
  evidence = "snapshot-7" ∷ [];
}

abbrev sample_order : CexOrder Grid
sample_order = record {
  account = "sub-1";
  account_mode = spot;
  symbol = "ETH-USDC";
  side = buy;
  quantity = whole (pos 1);
  price = whole (pos 3500);
  max_notional_usd = whole (pos 10);
  max_slippage_bps = whole (pos 50);
  leverage = none;
  margin_type = none;
}

abbrev sample_review : Review
sample_review = record {
  intent_id = "i-1";
  verdict = approve;
  risk_level = low;
  reasons = "OK" ∷ [];
  detected_issues = [];
  required_policy_tags = [];
  reviewer_model = "m";
  reviewer_provider = "p";
  reviewed_at = "2026-01-01T00:00:00.000Z";
}

abbrev sample_stats : DailyStats Grid
sample_stats = record {
  account = "sub-1";
  date = "2026-01-01";
  total_notional_usd = whole (pos 20);
  realized_loss_usd = whole (pos 5);
  order_count = whole (pos 3);
}

abbrev sample_provider : RiskDataProvider Grid
sample_provider = record {
  get_market_data = λ s.
      some
        (some (record { symbol = s; price = whole (pos 3500); timestamp_ms = whole (pos 99_000) }));
  get_portfolio =
      λ a. some (some (record { account = a; timestamp_ms = whole (pos 95_000); positions = [] }));
  get_daily_stats = λ a day. some (some sample_stats);
  get_last_order_timestamp_ms = λ a. some (at (whole (pos 40_000)));
}

abbrev sample_clock : EngineClock Grid
sample_clock = record {
  today = "2026-01-01";
  now_ms = whole (pos 100_000);
  now_day = "2026-01-01";
  evaluated_at = "2026-01-01T00:01:40.000Z";
}

abbrev sample_facts : RiskFacts Grid
sample_facts = record {
  daily_stats = some sample_stats;
  market_data =
      some (record {
        symbol = "ETH-USDC";
        price = whole (pos 3500);
        timestamp_ms = whole (pos 99_000);
      });
  portfolio =
      some (record { account = "sub-1"; timestamp_ms = whole (pos 95_000); positions = [] });
  last_order = at (whole (pos 40_000));
}

abbrev limits : RiskLimits Grid
limits = default_canary_live_limits

sample_passes :
    (assess
      (place_order sample_envelope sample_order)
      limits
      sample_clock
      sample_facts
      sample_review).passed
    ≡ true
unfolding assess check_market_data_freshness check_price_band check_portfolio_freshness
    check_per_order_notional check_daily_notional check_daily_loss check_slippage
    check_position_delta check_order_frequency check_daily_order_count check_evidence_references
    check_reviewer_consistency is_blank
sample_passes = refl

sample_evaluates :
    evaluate sample_provider limits sample_clock
      (place_order sample_envelope sample_order)
      sample_review
    ≡ some (
        assess
          (place_order sample_envelope sample_order)
          limits
          sample_clock
          sample_facts
          sample_review)
unfolding evaluate valid_limits gather
sample_evaluates = refl

assess-passed_iff_example :
    IsAcceptableOrder sample_order limits sample_clock.now_ms sample_facts
    × IsSupported (place_order sample_envelope sample_order) sample_review
assess-passed_iff_example =
    (assess-passed_iff sample_envelope sample_order limits sample_clock sample_facts
        sample_review).0
      sample_passes

evaluate-passes_example :
    (facts : RiskFacts Grid) × (gather sample_provider
        (place_order sample_envelope sample_order)
        "2026-01-01"
      ≡ some facts)
    × (valid_limits limits ≡ true)
    × (sample_clock.now_day ≡ sample_clock.today)
    × IsAcceptableOrder sample_order limits sample_clock.now_ms facts
    × IsSupported (place_order sample_envelope sample_order) sample_review
    × ((s : DailyStats Grid)
        → facts.daily_stats ≡ some s
        → (s.account ≡ sample_order.account) × (s.date ≡ sample_clock.today))
evaluate-passes_example =
    evaluate-passes sample_provider limits sample_clock sample_envelope sample_order sample_review
      (assess (place_order sample_envelope sample_order) limits sample_clock sample_facts
        sample_review)
      sample_evaluates sample_passes

-- Twice the notional per order, and half the interval.
abbrev wider : RiskLimits Grid
wider = record limits {
  max_notional_usd = whole (pos 20);
  min_order_interval_ms = whole (pos 2_500);
}

wider_relaxes : IsRelaxed limits wider
wider_relaxes = ground arith

assess_relaxed_example :
    (assess
      (place_order sample_envelope sample_order)
      wider
      sample_clock
      sample_facts
      sample_review).passed
    ≡ true
assess_relaxed_example =
    assess_relaxed Grid-IsIeee sample_order limits wider wider_relaxes sample_envelope sample_clock
      sample_facts sample_review sample_passes

abbrev cancellation : TradingIntent Grid
cancellation =
    cancel_order sample_envelope (record { account = "sub-1"; order_id = "7"; symbol = "ETH-USDC" })

assess_other_iff_example :
    ((assess cancellation limits sample_clock sample_facts sample_review).passed ≡ true)
    ↔ IsSupported cancellation sample_review
assess_other_iff_example =
    assess_other_iff limits sample_clock sample_facts sample_review cancellation refl

-- A quote with no number for its time is no quote, and ten seconds and one millisecond are too many.
freshness_tests :
    ((check_market_data_freshness
        (place_order sample_envelope sample_order)
        limits
        (whole (pos 100_000))
        (some
          (record { symbol = "ETH-USDC"; price = whole (pos 3500); timestamp_ms = nan }))).status
      ≡ unavailable)
    × ((check_market_data_freshness
          (place_order sample_envelope sample_order)
          limits
          (whole (pos 100_000))
          (some (record {
            symbol = "ETH-USDC";
            price = whole (pos 3500);
            timestamp_ms = whole (pos 89_999);
          }))).status
        ≡ fail)
unfolding check_market_data_freshness
freshness_tests = (refl, refl)
