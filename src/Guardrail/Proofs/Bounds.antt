-- ===== src/Guardrail/Proofs/Bounds.antt =====
-- The amounts of token approvals are 256-bit numbers, whatever the request says.
use Prim.Native.Nat.{◌^◌}
use native.Mathlib.Nat.{mul-le-mul_right, suc-mul, pow-zero, pow-succ', pow-le-pow_right}
use agent_trading_guardrails.Base.{
  ℕ, zero, suc, String, ◌+◌, ◌*◌, ◌-◌, ◌≤◌, ◌<◌, ◌≡◌, refl, ap, inl, inr, Bool, true, false, not,
  ◌&&◌, Bool-cases, Option, none, some, List, [], ◌∷◌, All, every, every_iff, length, ltb, nat_eq,
  arith, if◌then◌else◌,
}
use mathlib.Core.Path.{subst}
use agent_trading_guardrails.Js.Text.{codes}
use agent_trading_guardrails.Broker.Keys.{units_le}
use agent_trading_guardrails.Schemas.{
  Environment, Chain, TradingIntent, place_order, cancel_order, get_order_status,
  simulate_transaction, request_signature,
}
use agent_trading_guardrails.Guardrail.Types.{TokenApprovalFacts}
use agent_trading_guardrails.Guardrail.Amounts.{
  value, is_digit, is_hex, decimal_digit, hex_digit, drop, is_decimal_text, uint256_max,
  uint256_max_text, extract_erc20_approval_amount, parse_metadata_text, parse_approval_metadata,
  or_else, facts_of_call, facts_on_chain, token_approval_facts, calldata_text, no_token_approval,
}
use agent_trading_guardrails.Guardrail.Proofs.Sound.{Given, none-Given, some-Given}

-- One more digit in front.
digit_bound : (d v base p : ℕ) → d < base → v < p → d * p + v < base * p
digit_bound d v base p small below =
    let scaled : suc d * p ≤ base * p = mul-le-mul_right p (omega arith) in
    omega (arith, suc-mul d p, scaled)

value-bound :
    (base : ℕ) (digit : ℕ → ℕ) (cs : List ℕ)
    → All (λ c. digit c < base) cs
    → value base digit cs < base ^ length cs
unfolding value
value-bound base digit [] h = omega (arith, pow-zero base)
value-bound base digit (c ∷ cs) h = omega (
  arith,
  pow-succ' base (length cs),
  digit_bound (digit c) (value base digit cs) base (base ^ length cs) h.0
      (value-bound base digit cs h.1),
)

decimal_digit-bound :
    (cs : List ℕ) → All (λ c. is_digit c ≡ true) cs → All (λ c. decimal_digit c < 10) cs
decimal_digit-bound [] h = tt
decimal_digit-bound (c ∷ cs) h = (ground (arith, h.0), decimal_digit-bound cs h.1)

hex_digit-bound : (cs : List ℕ) → All (λ c. is_hex c ≡ true) cs → All (λ c. hex_digit c < 16) cs
hex_digit-bound [] h = tt
hex_digit-bound (c ∷ cs) h = (ground (arith, h.0), hex_digit-bound cs h.1)

-- A smaller first digit outweighs the others.
first_digit : (c d v w p : ℕ) → c < d → v < p → c * p + v ≤ d * p + w
first_digit c d v w p below small =
    let scaled : suc c * p ≤ d * p = mul-le-mul_right p (omega arith) in
    omega (arith, suc-mul c p, scaled)

-- Of two decimal texts of one length, the one that comes first in the order of texts is the smaller.
value_mono :
    (xs ys : List ℕ)
    → All (λ c. is_digit c ≡ true) xs
    → All (λ c. is_digit c ≡ true) ys
    → length xs ≡ length ys
    → units_le xs ys ≡ true
    → value 10 decimal_digit xs ≤ value 10 decimal_digit ys
unfolding value units_le
value_mono [] ys hx hy len le = omega arith
value_mono (x ∷ xs) [] hx hy len le = absurd (omega (arith, len))
value_mono (x ∷ xs) (y ∷ ys) hx hy len le =
    let same_length : length xs ≡ length ys = omega (arith, len) in
    let same_power : 10 ^ length xs ≡ 10 ^ length ys = ap (λ n. 10 ^ n) same_length in
    elim (Bool-cases (ltb x y)) [
      | inl below ↦
          let digits : decimal_digit x < decimal_digit y = ground (arith, below, hx.0, hy.0) in
          let small : value 10 decimal_digit xs < 10 ^ length xs =
            value-bound 10 decimal_digit xs (decimal_digit-bound xs hx.1) in
          subst
            (λ p.
              decimal_digit x * 10 ^ length xs + value 10 decimal_digit xs
              ≤ decimal_digit y * p + value 10 decimal_digit ys)
            same_power
            (first_digit (decimal_digit x) (decimal_digit y) (value 10 decimal_digit xs)
              (value 10 decimal_digit ys) (10 ^ length xs) digits small)
      | inr above ↦
          let same_digit : x ≡ y = ground (arith, above, le) in
          let rest : value 10 decimal_digit xs ≤ value 10 decimal_digit ys =
            value_mono xs ys hx.1 hy.1 same_length (ground (arith, above, le)) in
          omega (
            arith,
            rest,
            ap (λ p. decimal_digit x * p) same_power,
            ap (λ d. decimal_digit d * 10 ^ length ys) same_digit,
          )
    ]

length-drop : (n : ℕ) (cs : List ℕ) → length (drop n cs) ≡ length cs - n
length-drop zero cs = omega arith
length-drop (suc n) [] = omega arith
length-drop (suc n) (c ∷ cs) = omega (arith, length-drop n cs)

drop-All : (P : ℕ → Type 0) (n : ℕ) (cs : List ℕ) → All P cs → All P (drop n cs)
drop-All P zero cs h = h
drop-All P (suc n) [] h = tt
drop-All P (suc n) (c ∷ cs) h = drop-All P n cs h.1

-- The digits after the prefix "0x" are there after 74 characters.
sliced_digits :
    (cs : List ℕ) → every is_hex (drop 2 cs) ≡ true → All (λ c. is_hex c ≡ true) (drop 74 cs)
sliced_digits [] h = tt
sliced_digits (a ∷ []) h = tt
sliced_digits (a ∷ b ∷ cs) h = drop-All (λ c. is_hex c ≡ true) 72 cs ((every_iff is_hex cs).0 h)

-- The digits of data.slice(74, 138).
slice_bound :
    (cs : List ℕ)
    → every is_hex (drop 2 cs) ≡ true
    → length cs ≡ 138
    → value 16 hex_digit (drop 74 cs) ≤ uint256_max
slice_bound cs h len =
    let below : value 16 hex_digit (drop 74 cs) < 16 ^ length (drop 74 cs) =
      value-bound 16 hex_digit (drop 74 cs) (hex_digit-bound (drop 74 cs) (sliced_digits cs h)) in
    let digits : length (drop 74 cs) ≡ 64 = omega (arith, length-drop 74 cs, len) in
    let size : 16 ^ length (drop 74 cs) ≡ 16 ^ 64 = ap (λ n. 16 ^ n) digits in
    omega (arith, below, size)

guarded_Given :
    {A : Type 0} {Q : A → Type 0} (refused : Bool) (a : A)
    → (refused ≡ false → Q a)
    → Given Q (if refused then none else some a)
guarded_Given true a h = none-Given
guarded_Given false a h = some-Given a (h refl)

-- A number that fits 256 bits.
abbrev pub Fits : ℕ → Type 0
Fits n = n ≤ uint256_max

extract-bound : (cs : List ℕ) → Given Fits (extract_erc20_approval_amount cs)
unfolding extract_erc20_approval_amount
extract-bound cs = guarded_Given _ _ λ h. slice_bound cs (ground (arith, h)) (ground (arith, h))

decimal_digits : (text : List ℕ) → is_decimal_text text ≡ true → All (λ c. is_digit c ≡ true) text
decimal_digits [] h = tt
decimal_digits (c ∷ []) h = (h, tt)
decimal_digits (c ∷ d ∷ cs) h =
    (ground (arith, h), (every_iff is_digit (d ∷ cs)).0 (ground (arith, h)))

tested_Given :
    (alias decimal longer above : Bool) (n : ℕ)
    → (decimal ≡ true → longer ≡ false → above ≡ false → Fits n)
    → Given Fits (
        if alias
        then some uint256_max
        else if not decimal
        then none
        else if longer
        then none
        else if above
        then none
        else some n)
tested_Given true decimal longer above n h = some-Given uint256_max (omega arith)
tested_Given false false longer above n h = none-Given
tested_Given false true true above n h = none-Given
tested_Given false true false true n h = none-Given
tested_Given false true false false n h = some-Given n (h refl refl refl)

max_value : value 10 decimal_digit uint256_max_text ≡ uint256_max
unfolding value
max_value = refl

max_digits : All (λ c. is_digit c ≡ true) uint256_max_text
max_digits = (every_iff is_digit uint256_max_text).0 refl

shorter_Fits :
    (text : List ℕ)
    → is_decimal_text text ≡ true
    → length text < 78
    → Fits (value 10 decimal_digit text)
shorter_Fits text decimal short =
    let below : value 10 decimal_digit text < 10 ^ length text =
      value-bound 10 decimal_digit text (decimal_digit-bound text (decimal_digits text decimal)) in
    let power : 10 ^ length text ≤ 10 ^ 77 =
      pow-le-pow_right {n = 10} (omega arith) {j = 77} (omega (arith, short)) in
    omega (arith, below, power)

decimal_Fits :
    (text : List ℕ)
    → is_decimal_text text ≡ true
    → ltb 78 (length text) ≡ false
    → (nat_eq (length text) 78 && not (units_le text uint256_max_text)) ≡ false
    → Fits (value 10 decimal_digit text)
decimal_Fits text decimal longer above = elim (Bool-cases (nat_eq (length text) 78)) [
  | inr q ↦ shorter_Fits text decimal (ground (arith, q, longer))
  | inl q ↦
      let bound : value 10 decimal_digit text ≤ value 10 decimal_digit uint256_max_text =
        value_mono text uint256_max_text (decimal_digits text decimal) max_digits
          (ground (arith, q)) (ground (arith, q, above)) in
      omega (arith, bound, max_value)
]

metadata-bound : (text : List ℕ) → Given Fits (parse_metadata_text text)
unfolding parse_metadata_text
metadata-bound text = tested_Given _ _ _ _ _ (decimal_Fits text)

option_metadata-bound : (text : Option String) → Given Fits (parse_approval_metadata text)
unfolding parse_approval_metadata
option_metadata-bound none = none-Given
option_metadata-bound (some text) = metadata-bound (codes text)

or_else-Given : {Q : ℕ → Type 0} (a b : Option ℕ) → Given Q a → Given Q b → Given Q (or_else a b)
or_else-Given none b g h = h
or_else-Given (some n) b g h = g

selected_Given :
    (selects : Bool) (a : Option ℕ) → Given Fits a → Given Fits (if selects then a else none)
selected_Given true a h = h
selected_Given false a h = none-Given

chosen_Given :
    (b : Bool) (f g : TokenApprovalFacts)
    → Given Fits f.amount
    → Given Fits g.amount
    → Given Fits (if b then f else g).amount
chosen_Given true f g hf hg = hf
chosen_Given false f g hf hg = hg

call-bound :
    (e : Environment) (text : List ℕ) (metadata : Option ℕ)
    → Given Fits metadata
    → Given Fits (facts_of_call e text metadata).amount
unfolding facts_of_call
call-bound e text metadata h =
    chosen_Given _ no_token_approval _ none-Given
      (or_else-Given _ metadata (selected_Given _ _ (extract-bound text)) h)

chain-bound :
    (chain : Chain) (e : Environment) (text : List ℕ) (metadata : Option ℕ)
    → Given Fits metadata
    → Given Fits (facts_on_chain chain e text metadata).amount
chain-bound Chain.ethereum e text metadata h = call-bound e text metadata h
chain-bound Chain.solana e text metadata h = none-Given

-- The amount that is reported for an intent, if any, fits 256 bits, whatever its calldata and metadata.
pub token_approval_facts-bound :
    {N : Type 0} (intent : TradingIntent N) → Given Fits (token_approval_facts intent).amount
unfolding token_approval_facts
token_approval_facts-bound (request_signature e c s) =
    chain-bound c.chain e.environment (calldata_text c.calldata) _
      (option_metadata-bound s.max_token_approval_amount)
token_approval_facts-bound (place_order e o) = none-Given
token_approval_facts-bound (cancel_order e c) = none-Given
token_approval_facts-bound (get_order_status e c) = none-Given
token_approval_facts-bound (simulate_transaction e c) = none-Given
