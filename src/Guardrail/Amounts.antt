-- ===== src/Guardrail/Amounts.antt =====
-- The token approvals of service.ts: `extractErc20ApprovalAmount`, `parseApprovalMetadata`,
-- `approvalCapForEnvironment` and `tokenApprovalFacts`. A bigint is a natural number; where the source
-- compares the decimal texts of two of them, the numbers are compared.
use Prim.Native.Nat.{◌^◌}
use agent_trading_guardrails.Base.{
  ℕ, zero, suc, String, ◌+◌, ◌*◌, ◌-◌, Bool, true, false, not, ◌&&◌, ◌||◌, Option, none, some, List,
  [], ◌∷◌, length, every, ltb, leb, nat_eq, is_some, if◌then◌else◌,
}
use agent_trading_guardrails.Js.Text.{codes, lower_codes, starts_with, equals}
use agent_trading_guardrails.Broker.Keys.{units_le}
use agent_trading_guardrails.Schemas.{
  Environment, dev, paper, testnet, canary_live, production, Chain, TradingIntent,
  request_signature,
}
use agent_trading_guardrails.Guardrail.Types.{TokenApprovalFacts}

abbrev pub erc20_approve_selector : List ℕ
erc20_approve_selector = codes "0x095ea7b3"

-- UINT256_MAX, the text and the number
abbrev pub uint256_max_text : List ℕ
uint256_max_text =
    codes "115792089237316195423570985008687907853269984665640564039457584007913129639935"

abbrev pub uint256_max : ℕ
uint256_max = 115792089237316195423570985008687907853269984665640564039457584007913129639935

-- BigInt(text), for the digits of a base
module _ (base : ℕ) (digit : ℕ → ℕ) where
  unfoldable pub value : List ℕ → ℕ
  value [] = 0
  value (c ∷ cs) = digit c * base ^ length cs + value cs

abbrev pub is_digit : ℕ → Bool
is_digit c = leb b'0' c && leb c b'9'

abbrev pub is_hex : ℕ → Bool
is_hex c = is_digit c || (leb b'a' c && leb c b'f')

abbrev pub decimal_digit : ℕ → ℕ
decimal_digit c = c - b'0'

abbrev pub hex_digit : ℕ → ℕ
hex_digit c = if leb c b'9' then c - b'0' else c - 87

abbrev pub drop : ℕ → List ℕ → List ℕ
drop zero cs = cs
drop (suc n) [] = []
drop (suc n) (c ∷ cs) = drop n cs

-- /^0x[0-9a-f]+$/.test(data)
abbrev pub is_hex_text : List ℕ → Bool
is_hex_text calldata =
    starts_with (codes "0x") calldata && ltb 2 (length calldata) && every is_hex (drop 2 calldata)

-- The 64 digits of data.slice(74, 138), of a text of 138 characters.
unfoldable pub extract_erc20_approval_amount : List ℕ → Option ℕ
unfolding value starts_with
extract_erc20_approval_amount calldata =
    if not (is_hex_text calldata) || not (nat_eq (length calldata) 138)
    then none
    else some (value 16 hex_digit (drop 74 calldata))

abbrev pub is_unbounded_alias : List ℕ → Bool
is_unbounded_alias text =
    equals (codes "unlimited") text
    || equals (codes "max") text
    || equals (codes "uint256.max") text
    || equals (codes "maxuint256") text

-- /^(0|[1-9]\d*)$/.test(value)
abbrev pub is_decimal_text : List ℕ → Bool
is_decimal_text [] = false
is_decimal_text (c ∷ []) = is_digit c
is_decimal_text (c ∷ d ∷ cs) = is_digit c && not (nat_eq c b'0') && every is_digit (d ∷ cs)

unfoldable pub parse_metadata_text : List ℕ → Option ℕ
unfolding value units_le equals lower_codes
parse_metadata_text text =
    if is_unbounded_alias (lower_codes text)
    then some uint256_max
    else if not (is_decimal_text text)
    then none
    else if ltb (length uint256_max_text) (length text)
    then none
    else if nat_eq (length text) (length uint256_max_text) && not (units_le text uint256_max_text)
    then none
    else some (value 10 decimal_digit text)

unfoldable pub parse_approval_metadata : Option String → Option ℕ
unfolding parse_metadata_text
parse_approval_metadata none = none
parse_approval_metadata (some text) = parse_metadata_text (codes text)

-- Each environment has a cap.
abbrev pub approval_cap_for_environment : Environment → ℕ
approval_cap_for_environment dev = 1_000_000_000_000
approval_cap_for_environment paper = 1_000_000_000_000
approval_cap_for_environment testnet = 1_000_000_000_000
approval_cap_for_environment canary_live = 100_000_000
approval_cap_for_environment production = 1_000_000_000

abbrev pub no_token_approval : TokenApprovalFacts
no_token_approval = record {
  is_token_approval = false;
  amount = none;
  amount_missing = false;
  is_unlimited = false;
  amount_exceeds_cap = false;
}

abbrev pub is_amount : Option ℕ → ℕ → Bool
is_amount none n = false
is_amount (some m) n = nat_eq m n

abbrev pub or_else : Option ℕ → Option ℕ → Option ℕ
or_else (some n) other = some n
or_else none other = other

abbrev pub exceeds : Option ℕ → ℕ → Bool
exceeds none cap = false
exceeds (some n) cap = ltb cap n

abbrev pub approval_facts : Environment → Bool → Option ℕ → Option ℕ → TokenApprovalFacts
approval_facts environment has_selector calldata_amount metadata_amount = record {
  is_token_approval = true;
  amount = or_else calldata_amount metadata_amount;
  amount_missing = not (is_some metadata_amount) || (has_selector && not (is_some calldata_amount));
  is_unlimited = is_amount calldata_amount uint256_max || is_amount metadata_amount uint256_max;
  amount_exceeds_cap =
      exceeds (or_else calldata_amount metadata_amount) (approval_cap_for_environment environment);
}

-- `intent.data?.toLowerCase() ?? ""`
abbrev pub calldata_text : Option String → List ℕ
calldata_text none = []
calldata_text (some text) = lower_codes (codes text)

unfoldable pub facts_of_call : Environment → List ℕ → Option ℕ → TokenApprovalFacts
unfolding extract_erc20_approval_amount starts_with
facts_of_call environment calldata metadata_amount =
    let has_selector = starts_with erc20_approve_selector calldata in
    let calldata_amount = if has_selector then extract_erc20_approval_amount calldata else none in
    if not has_selector && not (is_some metadata_amount)
    then no_token_approval
    else approval_facts environment has_selector calldata_amount metadata_amount

abbrev pub facts_on_chain : Chain → Environment → List ℕ → Option ℕ → TokenApprovalFacts
facts_on_chain Chain.ethereum environment calldata metadata_amount =
    facts_of_call environment calldata metadata_amount
facts_on_chain Chain.solana environment calldata metadata_amount = no_token_approval

unfoldable pub token_approval_facts : {N : Type 0} → TradingIntent N → TokenApprovalFacts
unfolding facts_of_call parse_approval_metadata lower_codes
token_approval_facts (request_signature e c s) =
    facts_on_chain c.chain e.environment (calldata_text c.calldata)
      (parse_approval_metadata s.max_token_approval_amount)
token_approval_facts _ = no_token_approval
