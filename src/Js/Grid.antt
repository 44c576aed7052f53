-- ===== src/Js/Grid.antt =====
-- A number model in which the laws hold: whole numbers with NaN. It runs the tests and witnesses.
use agent_trading_guardrails.Base.{Bool, true, false, arith}
use agent_trading_guardrails.Base.Int.{ℤ, pos, ltb_ℤ, leb_ℤ, magnitude, ◌+ℤ◌, ◌-ℤ◌, ◌*ℤ◌, ◌/ℤ◌}
use agent_trading_guardrails.Base.{◌&&◌}
use agent_trading_guardrails.Js.{JsNumber}
use agent_trading_guardrails.Js.Laws.{IsIeee}

pub data Grid : Type 0 where
  nan : Grid
  whole : ℤ → Grid

abbrev compare_with : (ℤ → ℤ → Bool) → Grid → Grid → Bool
compare_with test (whole a) (whole b) = test a b
compare_with test _ _ = false

abbrev lift₂ : (ℤ → ℤ → ℤ) → Grid → Grid → Grid
lift₂ f (whole a) (whole b) = whole (f a b)
lift₂ f _ _ = nan

abbrev is_whole : Grid → Bool
is_whole nan = false
is_whole (whole a) = true

abbrev size : Grid → Grid
size nan = nan
size (whole a) = whole (pos (magnitude a))

instance abbrev pub grid_number : JsNumber Grid
grid_number = record {
  of_nat = λ n. whole (pos n);
  is_finite = is_whole;
  lt = compare_with ltb_ℤ;
  le = compare_with leb_ℤ;
  equals = compare_with (λ a b. leb_ℤ a b && leb_ℤ b a);
  add = lift₂ (λ a b. a +ℤ b);
  sub = lift₂ (λ a b. a -ℤ b);
  mul = lift₂ (λ a b. a *ℤ b);
  div = lift₂ (λ a b. a /ℤ b);
  abs = size;
  show = λ a. "n";
  to_fixed = λ a digits. "n";
}

pub Grid-IsIeee : IsIeee Grid
Grid-IsIeee = record {
  lt_of_le_of_lt = λ a b c p q. ground arith;
  lt_of_lt_of_le = λ a b c p q. ground arith;
}
