-- ===== src/Risk/Checks/Proposal.antt =====
-- `checkPerOrderNotional`, `checkSlippage`, `checkEvidenceReferences` and
-- `checkReviewerConsistency` of checks.ts: the checks of the proposal and of its review.
use agent_trading_guardrails.Base.{
  String, ◌==◌, not, Bool, true, false, List, [], ◌∷◌, ◌&&◌, length, ltb, if◌then◌else◌,
}
use agent_trading_guardrails.Js.{JsNumber}
use agent_trading_guardrails.Js.Text.{template, is_blank}
use agent_trading_guardrails.Schemas.{
  TradingIntent, place_order, envelope, RiskCheckResult, Review, ReviewerVerdict, approve,
}
use agent_trading_guardrails.Risk.Types.{RiskLimits}
use agent_trading_guardrails.Risk.Checks.Daily.{upper_limit}
use agent_trading_guardrails.Risk.Checks.Verdicts.{passing, failing}

abbrev pub is_approve : ReviewerVerdict → Bool
is_approve approve = true
is_approve _ = false

module _ {N : Type 0} ⦃num : JsNumber N⦄ where
  -- Only a place-order intent has `maxNotionalUsd` and `maxSlippageBps`.
  unfoldable pub check_per_order_notional : TradingIntent N → RiskLimits N → RiskCheckResult N
  check_per_order_notional (place_order e o) limits =
      upper_limit "per_order_notional" o.max_notional_usd limits.max_notional_usd (
        template (
          "Notional $"
          ∷ num.show o.max_notional_usd
          ∷ " exceeds limit $"
          ∷ num.show limits.max_notional_usd
          ∷ "."
          ∷ []))
  check_per_order_notional _ limits = passing "per_order_notional"

  unfoldable pub check_slippage : TradingIntent N → RiskLimits N → RiskCheckResult N
  check_slippage (place_order e o) limits =
      upper_limit "slippage" o.max_slippage_bps limits.max_slippage_bps (
        template (
          "Slippage "
          ∷ num.show o.max_slippage_bps
          ∷ "bps exceeds limit "
          ∷ num.show limits.max_slippage_bps
          ∷ "bps."
          ∷ []))
  check_slippage _ limits = passing "slippage"

module _ {N : Type 0} where
  -- The `for` loop over the references. An empty text is blank, so `!ref ||` adds nothing.
  unfoldable pub scan_evidence : List String → RiskCheckResult N
  scan_evidence [] = passing "evidence_references"
  scan_evidence (ref ∷ refs) =
      let rest = scan_evidence refs in
      if is_blank ref then failing "evidence_references" "Empty evidence reference found." else rest

  -- The body of `checkEvidenceReferences`, on `intent.evidence`.
  unfoldable pub evidence_verdict : List String → RiskCheckResult N
  unfolding scan_evidence
  evidence_verdict [] = failing "evidence_references" "No evidence references provided."
  evidence_verdict (ref ∷ refs) = scan_evidence (ref ∷ refs)

  unfoldable pub check_evidence_references : TradingIntent N → RiskCheckResult N
  unfolding evidence_verdict
  check_evidence_references intent = evidence_verdict (envelope intent).evidence

  unfoldable pub check_reviewer_consistency : TradingIntent N → Review → RiskCheckResult N
  check_reviewer_consistency intent review =
      if not (review.intent_id == (envelope intent).intent_id)
      then failing "reviewer_consistency" "Reviewer verdict intentId does not match intent."
      else if is_approve review.verdict && ltb 0 (length review.detected_issues)
      then failing "reviewer_consistency" "Reviewer approved but detected issues present."
      else passing "reviewer_consistency"
