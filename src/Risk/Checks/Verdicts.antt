-- ===== src/Risk/Checks/Verdicts.antt =====
-- The object literals that the checks of checks.ts return.
use agent_trading_guardrails.Base.{String, Bool, ◌≡◌, true, false, none, some}
use agent_trading_guardrails.Js.{JsNumber}
use agent_trading_guardrails.Schemas.{RiskCheckStatus, RiskCheckResult, pass, fail, unavailable}

module _ {N : Type 0} where
  abbrev pub passing : String → RiskCheckResult N
  passing check = record {
    check = check;
    status = pass;
    value = none;
    threshold = none;
    message = none;
  }

  abbrev pub passing_at : String → N → N → RiskCheckResult N
  passing_at check value threshold = record {
    check = check;
    status = pass;
    value = some value;
    threshold = some threshold;
    message = none;
  }

  abbrev pub failing : String → String → RiskCheckResult N
  failing check message = record {
    check = check;
    status = fail;
    value = none;
    threshold = none;
    message = some message;
  }

  abbrev pub failing_at : String → N → N → String → RiskCheckResult N
  failing_at check value threshold message = record {
    check = check;
    status = fail;
    value = some value;
    threshold = some threshold;
    message = some message;
  }

  abbrev pub unavailable_because : String → String → RiskCheckResult N
  unavailable_because check message = record {
    check = check;
    status = unavailable;
    value = none;
    threshold = none;
    message = some message;
  }

abbrev pub is_pass : RiskCheckStatus → Bool
is_pass pass = true
is_pass _ = false

abbrev pub Passes : {N : Type 0} → RiskCheckResult N → Type 0
Passes r = r.status ≡ pass

-- `!(a > b)`: what a check for an upper limit lets through.
abbrev pub NotAbove : {N : Type 0} ⦃num : JsNumber N⦄ → N → N → Type 0
NotAbove ⦃num⦄ a b = num.lt b a ≡ false

-- A number that `Number.isFinite(a) && !(a < 0)` accepts.
pub record IsAmount {N : Type 0} ⦃num : JsNumber N⦄ (a : N) : Type 0 where
  pub finite : num.is_finite a ≡ true
  pub nonnegative : num.lt a (num.of_nat 0) ≡ false
