-- ===== src/Schemas/Encode.antt =====
-- A validated intent as the JSON object that it is, so that its canonical text can be computed. A
-- property that is `undefined` is left out, as the canonical text leaves it out.
use agent_trading_guardrails.Base.{String, Option, none, some, List, [], ◌∷◌}
use agent_trading_guardrails.Schemas.Json.{
  Json, str, num, arr, obj, JsonItems, no_items, item, JsonFields, no_fields, field,
}
use agent_trading_guardrails.Schemas.Intent.{
  Environment, Action, OrderSide, AccountMode, MarginType, Chain, ChainEnvironment, Envelope,
  CexOrder, CexReference, ExpectedDelta, OnchainCall, Signing, TradingIntent,
}

abbrev pub environment_text : Environment → String
environment_text Environment.dev = "dev"
environment_text Environment.paper = "paper"
environment_text Environment.testnet = "testnet"
environment_text Environment.canary_live = "canary_live"
environment_text Environment.production = "production"

abbrev pub action_text : Action → String
action_text Action.cex_place_order = "cex.place_order"
action_text Action.cex_cancel_order = "cex.cancel_order"
action_text Action.cex_get_order_status = "cex.get_order_status"
action_text Action.onchain_simulate_transaction = "onchain.simulate_transaction"
action_text Action.onchain_request_signature = "onchain.request_signature"

abbrev pub side_text : OrderSide → String
side_text OrderSide.buy = "buy"
side_text OrderSide.sell = "sell"

abbrev mode_text : AccountMode → String
mode_text AccountMode.spot = "spot"
mode_text AccountMode.usdm_futures = "usdm_futures"

abbrev margin_text : MarginType → String
margin_text MarginType.isolated = "isolated"
margin_text MarginType.cross = "cross"

abbrev pub chain_text : Chain → String
chain_text Chain.ethereum = "ethereum"
chain_text Chain.solana = "solana"

abbrev pub chain_environment_text : ChainEnvironment → String
chain_environment_text ChainEnvironment.sepolia = "sepolia"
chain_environment_text ChainEnvironment.devnet = "devnet"
chain_environment_text ChainEnvironment.mainnet = "mainnet"

-- The key of a holder of tokens.
abbrev holder_key : Chain → String
holder_key Chain.ethereum = "address"
holder_key Chain.solana = "account"

module _ {N : Type 0} where
  abbrev pub strings : List String → JsonItems N
  strings [] = no_items
  strings (s ∷ ss) = item (str s) (strings ss)

  abbrev objects : List (JsonFields N) → JsonItems N
  objects [] = no_items
  objects (o ∷ os) = item (obj o) (objects os)

  abbrev pub optional :
      {A : Type 0} → String → (A → Json N) → Option A → JsonFields N → JsonFields N
  optional key write none rest = rest
  optional key write (some a) rest = field key (write a) rest

  unfoldable pub envelope_fields : Envelope → Action → JsonFields N → JsonFields N
  envelope_fields e a rest = field "intentId" (str e.intent_id) (
      field "principal" (str e.principal) (
        field "action" (str (action_text a)) (
          field "resource" (str e.resource) (
            field "environment" (str (environment_text e.environment)) (
              field "requestedAt" (str e.requested_at) (
                field "idempotencyKey" (str e.idempotency_key) (
                  field "rationale" (str e.rationale)
                    (field "evidence" (arr (strings e.evidence)) rest))))))))

  unfoldable pub order_fields : CexOrder N → JsonFields N
  order_fields o = field "exchange" (str "binance") (
      field "account" (str o.account) (
        field "accountMode" (str (mode_text o.account_mode)) (
          field "symbol" (str o.symbol) (
            field "side" (str (side_text o.side)) (
              field "orderType" (str "limit") (
                field "quantity" (num o.quantity) (
                  field "price" (num o.price) (
                    field "maxNotionalUsd" (num o.max_notional_usd) (
                      field "maxSlippageBps" (num o.max_slippage_bps) (
                        optional "leverage" num o.leverage (
                          optional "marginType" (λ m. str (margin_text m)) o.margin_type
                            no_fields)))))))))))

  unfoldable pub reference_fields : CexReference → JsonFields N
  reference_fields c = field "exchange" (str "binance") (
      field "account" (str c.account)
        (field "orderId" (str c.order_id) (field "symbol" (str c.symbol) no_fields)))

  abbrev deltas : Chain → List ExpectedDelta → JsonItems N
  deltas chain [] = no_items
  deltas chain (d ∷ ds) =
      item
        (obj (
          field (holder_key chain) (str d.holder) (
            field "asset" (str d.asset)
              (field "minDelta" (str d.min_delta) (field "maxDelta" (str d.max_delta) no_fields)))))
        (deltas chain ds)

  unfoldable pub call_fields : OnchainCall N → JsonFields N → JsonFields N
  call_fields c rest = field "chain" (str (chain_text c.chain)) (
      field "chainEnvironment" (str (chain_environment_text c.chain_environment)) (
        field "to" (str c.to) (
          optional "data" str c.calldata (
            optional "value" str c.value (
              optional "programId" str c.program_id (
                optional "instructions" (λ i. arr (objects i)) c.instructions
                  (optional "expectedDeltas" (λ d. arr (deltas c.chain d)) c.expected_deltas
                    rest)))))))

  unfoldable pub signing_fields : Signing → JsonFields N
  signing_fields s =
      field "simulationId" (str s.simulation_id)
        (optional "maxTokenApprovalAmount" str s.max_token_approval_amount no_fields)

  unfoldable pub intent_json : TradingIntent N → JsonFields N
  unfolding envelope_fields order_fields reference_fields call_fields signing_fields
  intent_json (TradingIntent.place_order e o) =
      envelope_fields e Action.cex_place_order (order_fields o)
  intent_json (TradingIntent.cancel_order e c) =
      envelope_fields e Action.cex_cancel_order (reference_fields c)
  intent_json (TradingIntent.get_order_status e c) =
      envelope_fields e Action.cex_get_order_status (reference_fields c)
  intent_json (TradingIntent.simulate_transaction e c) =
      envelope_fields e Action.onchain_simulate_transaction (call_fields c no_fields)
  intent_json (TradingIntent.request_signature e c s) =
      envelope_fields e Action.onchain_request_signature (call_fields c (signing_fields s))
