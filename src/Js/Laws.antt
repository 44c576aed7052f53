-- ===== src/Js/Laws.antt =====
-- The laws of IEEE 754 comparison that the theorems rely on. They hold of every pair of doubles, as
-- no comparison with NaN is true. Nothing is assumed of the rounding of arithmetic.
use agent_trading_guardrails.Base.{Bool-cases, false, ◌≡◌, inl, inr}
use agent_trading_guardrails.Js.{JsNumber, ◌≼◌, ◌≺◌}

pub record IsIeee (N : Type 0) ⦃num : JsNumber N⦄ : Type 0 where
  pub lt_of_le_of_lt : (a b c : N) → a ≼ b → b ≺ c → a ≺ c
  pub lt_of_lt_of_le : (a b c : N) → a ≺ b → b ≼ c → a ≺ c

module _ {N : Type 0} ⦃num : JsNumber N⦄ (ieee : IsIeee N) where
  -- What does not exceed a limit does not exceed a higher one.
  pub not_above_mono : (a b c : N) → num.lt b a ≡ false → b ≼ c → num.lt c a ≡ false
  not_above_mono a b c h k = elim (Bool-cases (num.lt c a)) [
    | inl above ↦ cc (h, ieee.lt_of_le_of_lt b c a k above)
    | inr q ↦ q
  ]

  -- What is not below a limit is not below a lower one.
  pub not_below_mono : (a b c : N) → num.lt a b ≡ false → c ≼ b → num.lt a c ≡ false
  not_below_mono a b c h k = elim (Bool-cases (num.lt a c)) [
    | inl below ↦ cc (h, ieee.lt_of_lt_of_le a c b below k)
    | inr q ↦ q
  ]
