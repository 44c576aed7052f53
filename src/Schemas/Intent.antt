-- ===== src/Schemas/Intent.antt =====
-- common.ts and intent.ts: environments, actions and the discriminated union of trading intents.
use agent_trading_guardrails.Base.{String, Bool, Option, none, some, List}
use agent_trading_guardrails.Schemas.Json.{JsonFields}

pub data Environment : Type 0 where
  dev paper testnet canary_live production : Environment

pub Environment-discrete : Discrete Environment
Environment-discrete = hlevel

pub data Action : Type 0 where
  cex_place_order cex_cancel_order cex_get_order_status : Action
  onchain_simulate_transaction onchain_request_signature : Action

pub data OrderSide : Type 0 where
  buy sell : OrderSide

pub data AccountMode : Type 0 where
  spot usdm_futures : AccountMode

pub data MarginType : Type 0 where
  isolated cross : MarginType

pub data Chain : Type 0 where
  ethereum solana : Chain

pub data ChainEnvironment : Type 0 where
  sepolia devnet mainnet : ChainEnvironment

-- `IntentEnvelope`, without `action`, which the constructor of the intent gives.
pub record Envelope : Type 0 where
  pub intent_id : String
  pub principal : String
  pub resource : String
  pub environment : Environment
  pub requested_at : String
  pub idempotency_key : String
  pub rationale : String
  pub evidence : List String

-- `exchange` is the literal "binance" and `orderType` the literal "limit".
pub record CexOrder (N : Type 0) : Type 0 where
  pub account : String
  pub account_mode : AccountMode
  pub symbol : String
  pub side : OrderSide
  pub quantity : N
  pub price : N
  pub max_notional_usd : N
  pub max_slippage_bps : N
  pub leverage : Option N
  pub margin_type : Option MarginType

-- The fields of `CexCancelIntent` and of `CexOrderStatusIntent`.
pub record CexReference : Type 0 where
  pub account : String
  pub order_id : String
  pub symbol : String

-- `EvmExpectedBalanceDelta` and `SolanaExpectedBalanceDelta`, whose holder is `address`, `account`.
pub record ExpectedDelta : Type 0 where
  pub holder : String
  pub asset : String
  pub min_delta : String
  pub max_delta : String

pub record OnchainCall (N : Type 0) : Type 0 where
  pub chain : Chain
  pub chain_environment : ChainEnvironment
  pub to : String
  pub calldata : Option String
  pub value : Option String
  pub program_id : Option String
  pub instructions : Option (List (JsonFields N))
  pub expected_deltas : Option (List ExpectedDelta)

pub record Signing : Type 0 where
  pub simulation_id : String
  pub max_token_approval_amount : Option String

pub data TradingIntent (N : Type 0) : Type 0 where
  place_order : Envelope → CexOrder N → TradingIntent N
  cancel_order : Envelope → CexReference → TradingIntent N
  get_order_status : Envelope → CexReference → TradingIntent N
  simulate_transaction : Envelope → OnchainCall N → TradingIntent N
  request_signature : Envelope → OnchainCall N → Signing → TradingIntent N

module _ {N : Type 0} where
  abbrev pub envelope : TradingIntent N → Envelope
  envelope (place_order e o) = e
  envelope (cancel_order e c) = e
  envelope (get_order_status e c) = e
  envelope (simulate_transaction e c) = e
  envelope (request_signature e c s) = e

  abbrev pub action : TradingIntent N → Action
  action (place_order e o) = cex_place_order
  action (cancel_order e c) = cex_cancel_order
  action (get_order_status e c) = cex_get_order_status
  action (simulate_transaction e c) = onchain_simulate_transaction
  action (request_signature e c s) = onchain_request_signature

  -- `"account" in intent ? intent.account : undefined`, and so for `exchange`, `chain`, `symbol`.
  abbrev pub account_of : TradingIntent N → Option String
  account_of (place_order e o) = some o.account
  account_of (cancel_order e c) = some c.account
  account_of (get_order_status e c) = some c.account
  account_of _ = none

  abbrev pub exchange_of : TradingIntent N → Option String
  exchange_of (place_order e o) = some "binance"
  exchange_of (cancel_order e c) = some "binance"
  exchange_of (get_order_status e c) = some "binance"
  exchange_of _ = none

  abbrev pub chain_of : TradingIntent N → Option Chain
  chain_of (simulate_transaction e c) = some c.chain
  chain_of (request_signature e c s) = some c.chain
  chain_of _ = none

  abbrev pub is_place_order : TradingIntent N → Bool
  is_place_order (place_order e o) = Bool.true
  is_place_order _ = Bool.false

  abbrev pub is_cancel_order : TradingIntent N → Bool
  is_cancel_order (cancel_order e c) = Bool.true
  is_cancel_order _ = Bool.false
