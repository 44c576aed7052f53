-- ===== src/Risk/Proofs/Intent.antt =====
-- The checks of the evidence and of the review, which every intent undergoes.
use agent_trading_guardrails.Base.{String, eq_iff, ◌≡◌, ◌≢◌, false, refl, List, [], ◌∷◌, All, arith}
use agent_trading_guardrails.Js.Text.{is_blank}
use agent_trading_guardrails.Schemas.{TradingIntent, envelope, Review}
use agent_trading_guardrails.Risk.Checks.{
  scan_evidence, evidence_verdict, check_evidence_references, check_reviewer_consistency,
}
use agent_trading_guardrails.Risk.Checks.Verdicts.{Passes}
use agent_trading_guardrails.Risk.Acceptable.{IsSupported}

module _ (N : Type 0) where
  scan-Passes :
      (refs : List String)
      → Passes (scan_evidence {N = N} refs)
      → All (λ ref. is_blank ref ≡ false) refs
  unfolding scan_evidence
  scan-Passes [] h = tt
  scan-Passes (ref ∷ refs) h = (ground arith, scan-Passes refs (ground arith))

  scan_of_All :
      (refs : List String)
      → All (λ ref. is_blank ref ≡ false) refs
      → Passes (scan_evidence {N = N} refs)
  unfolding scan_evidence
  scan_of_All [] h = refl
  scan_of_All (ref ∷ refs) h = ground (arith, scan_of_All refs h.1)

  evidence-Passes :
      (refs : List String)
      → Passes (evidence_verdict {N = N} refs)
      → (refs ≢ []) × All (λ ref. is_blank ref ≡ false) refs
  unfolding evidence_verdict
  evidence-Passes [] h = cc
  evidence-Passes (ref ∷ refs) h = (λ e. cc, scan-Passes (ref ∷ refs) h)

  evidence_of_All :
      (refs : List String)
      → refs ≢ []
      → All (λ ref. is_blank ref ≡ false) refs
      → Passes (evidence_verdict {N = N} refs)
  unfolding evidence_verdict
  evidence_of_All [] h k = absurd (h refl)
  evidence_of_All (ref ∷ refs) h k = scan_of_All (ref ∷ refs) k

module _ {N : Type 0} (intent : TradingIntent N) (review : Review) where
  pub intent-Passes :
      Passes (check_evidence_references intent)
      → Passes (check_reviewer_consistency intent review)
      → IsSupported intent review
  unfolding check_evidence_references check_reviewer_consistency
  intent-Passes h k =
      let (some_evidence, references) = evidence-Passes N (envelope intent).evidence h in
      record {
        evidence = some_evidence;
        references = references;
        review_of_intent = ground (arith, eq_iff review.intent_id (envelope intent).intent_id);
        consistent = λ a. ground arith;
      }

  pub intent_of_supported :
      IsSupported intent review
      → Passes (check_evidence_references intent)
        × Passes (check_reviewer_consistency intent review)
  unfolding check_evidence_references check_reviewer_consistency
  intent_of_supported s = (
    evidence_of_All N (envelope intent).evidence s.evidence s.references,
    ground (arith, eq_iff review.intent_id (envelope intent).intent_id),
  )
