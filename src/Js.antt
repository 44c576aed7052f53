-- ===== src/Js.antt =====
-- What the program does with a JavaScript number: an IEEE 754 double is a parameter of the model,
-- with the operations that the source applies to it and the laws of the standard that it relies on.
pub mod Laws
pub mod Grid
pub mod Text
use agent_trading_guardrails.Base.{ℕ, String, Bool, ◌≡◌, true}

pub record JsNumber (N : Type 0) : Type 0 where
  pub of_nat : ℕ → N  -- a numeral of the source
  pub is_finite : N → Bool  -- Number.isFinite(a)
  pub lt : N → N → Bool  -- a < b
  pub le : N → N → Bool  -- a <= b
  pub equals : N → N → Bool  -- a === b
  pub add : N → N → N
  pub sub : N → N → N
  pub mul : N → N → N
  pub div : N → N → N
  pub abs : N → N  -- Math.abs(a)
  pub show : N → String  -- `${a}`
  pub to_fixed : N → ℕ → String  -- a.toFixed(digits)

infix 4 ◌≼◌
abbrev pub ◌≼◌ : {N : Type 0} ⦃num : JsNumber N⦄ → N → N → Type 0
◌≼◌ ⦃num⦄ a b = num.le a b ≡ true

infix 4 ◌≺◌
abbrev pub ◌≺◌ : {N : Type 0} ⦃num : JsNumber N⦄ → N → N → Type 0
◌≺◌ ⦃num⦄ a b = num.lt a b ≡ true

abbrev pub Finite : {N : Type 0} ⦃num : JsNumber N⦄ → N → Type 0
Finite ⦃num⦄ a = num.is_finite a ≡ true
