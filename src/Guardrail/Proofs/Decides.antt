-- ===== src/Guardrail/Proofs/Decides.antt =====
-- A request that was parsed: each way through the stages of `evaluate` ends in an answer.
use agent_trading_guardrails.Base.{
  String, ◌≡◌, refl, Bool, true, false, not, Option, none, some, if◌then◌else◌,
}
use agent_trading_guardrails.Js.{JsNumber}
use agent_trading_guardrails.Schemas.{TradingIntent, Review, DynamicRiskResult}
use agent_trading_guardrails.Schemas.Json.{Json}
use agent_trading_guardrails.Guardrail.Types.{GuardrailDecision, PolicyOutput, Reason, is_deny}
use agent_trading_guardrails.Guardrail.Idempotency
use agent_trading_guardrails.Guardrail.Idempotency.{
  Store, Cached, missing, conflict, known, waiting,
}
use agent_trading_guardrails.Guardrail.Opa.{lacks_time}
use agent_trading_guardrails.Guardrail.Unsafe.{detect_unsafe_content}
use agent_trading_guardrails.Guardrail.Facts.{idempotency_scope, policy_input}
use agent_trading_guardrails.Guardrail.Host.{EvaluationOptions, GuardrailHost, GuardrailConfig}
use agent_trading_guardrails.Guardrail.World.{Fault, pure, ask, ◌>>=◌}
use agent_trading_guardrails.Guardrail.World.Rules.{
  Anything, pure-Ensures, throw-Ensures, catch-Ensures, update_store-Ensures, bind-Ensures,
  step-Ensures,
}
use agent_trading_guardrails.Guardrail.Finish.{decided, awaiting, conclude}
use agent_trading_guardrails.Guardrail.Evaluate.{
  after_policy, policy_time_of, ask_policy, after_risk, after_review, after_content, decide,
  evaluate_reserved, after_lookup, evaluate_checked, transformed,
}
use agent_trading_guardrails.Guardrail.Proofs.Sound.{IsSound, Given, transform-IsSound, none-Given}
use agent_trading_guardrails.Guardrail.Proofs.Justified.{
  denies, rests, AllJustified, reserve-AllJustified, CachedIsJustified, get-CachedIsJustified,
}
use agent_trading_guardrails.Guardrail.Proofs.Final.{
  Safe, chosen_AllJustified, ask-Safe, write_audit-Safe, finalize_decision-Safe, Answers,
  abort_decision-Safe, conclude-Safe, finalize_cached-Safe, conclude_policy-Safe,
}

module _ {N S : Type 0} ⦃number : JsNumber N⦄ (host : GuardrailHost N S)
    (cfg : GuardrailConfig) where
  module _ (intent : TradingIntent N) (ctx : EvaluationOptions) (hash : String) where
    module _ (correlation_id now : String) where
      after_policy-Safe :
          (review : Review) (risk : DynamicRiskResult N) (p : Option PolicyOutput)
          → risk.passed ≡ true
          → Given IsSound p
          → Safe host cfg
              (Answers host cfg intent ctx hash)
              (after_policy host cfg intent ctx hash correlation_id now review risk p)
      after_policy-Safe review risk none passed sound =
          conclude-Safe host cfg intent ctx hash _ (denies refl)
      after_policy-Safe review risk (some p) passed sound =
          step-Ensures (write_audit-Safe host cfg _) λ u.
            conclude_policy-Safe host cfg intent ctx hash _
              (rests review risk p refl refl passed refl refl (sound.given p refl))

      transformed-Given :
          (raw : Option (Json N)) (policy_time : String)
          → Given IsSound (transformed host cfg intent ctx hash correlation_id now raw policy_time)
      transformed-Given none policy_time = none-Given
      transformed-Given (some raw) policy_time = transform-IsSound host.is_datetime policy_time raw

      chosen_time-Safe : (b : Bool) → Safe host cfg Anything (if b then ask host.clock else pure "")
      chosen_time-Safe true = ask-Safe host cfg host.clock
      chosen_time-Safe false = pure-Ensures "" tt

      policy_time_of-Safe :
          (raw : Option (Json N))
          → Safe host cfg Anything (policy_time_of host cfg intent ctx hash correlation_id now raw)
      policy_time_of-Safe none = pure-Ensures "" tt
      policy_time_of-Safe (some raw) = chosen_time-Safe (lacks_time raw)

      ask_policy-Safe :
          (review : Review) (risk : DynamicRiskResult N)
          → risk.passed ≡ true
          → Safe host cfg
              (Answers host cfg intent ctx hash)
              (ask_policy host cfg intent ctx hash correlation_id now review risk)
      unfolding ask_policy
      ask_policy-Safe review risk passed =
          step-Ensures
            (ask-Safe host cfg (host.policy_evaluate (policy_input host intent review risk)))
            λ raw. step-Ensures (policy_time_of-Safe raw) λ policy_time.
              after_policy-Safe review risk _ passed (transformed-Given raw policy_time)

      risk_Safe :
          (review : Review) (risk : DynamicRiskResult N) (d : GuardrailDecision N) (passed : Bool)
          → risk.passed ≡ passed
          → is_deny d.outcome ≡ true
          → Safe host cfg (Answers host cfg intent ctx hash) (
              if not passed
              then conclude host cfg intent ctx hash d
              else ask_policy host cfg intent ctx hash correlation_id now review risk)
      risk_Safe review risk d true h k = ask_policy-Safe review risk h
      risk_Safe review risk d false h k = conclude-Safe host cfg intent ctx hash d (denies k)

      after_risk-Safe :
          (review : Review) (risk : Option (DynamicRiskResult N))
          → Safe host cfg
              (Answers host cfg intent ctx hash)
              (after_risk host cfg intent ctx hash correlation_id now review risk)
      after_risk-Safe review none = conclude-Safe host cfg intent ctx hash _ (denies refl)
      after_risk-Safe review (some risk) =
          step-Ensures (write_audit-Safe host cfg _)
            λ u. risk_Safe review risk _ risk.passed refl refl

      after_review-Safe :
          (review : Option Review)
          → Safe host cfg
              (Answers host cfg intent ctx hash)
              (after_review host cfg intent ctx hash correlation_id now review)
      after_review-Safe none = conclude-Safe host cfg intent ctx hash _ (denies refl)
      after_review-Safe (some review) = step-Ensures (write_audit-Safe host cfg _) λ u.
          step-Ensures (ask-Safe host cfg (host.risk_evaluate intent review))
            λ risk. after_risk-Safe review risk

      healthy_Safe :
          (d : GuardrailDecision N) (unhealthy : Bool)
          → is_deny d.outcome ≡ true
          → Safe host cfg (Answers host cfg intent ctx hash) (
              if unhealthy
              then conclude host cfg intent ctx hash d
              else (ask (host.review intent) >>= λ review.
                  after_review host cfg intent ctx hash correlation_id now review))
      healthy_Safe d true k = conclude-Safe host cfg intent ctx hash d (denies k)
      healthy_Safe d false k =
          step-Ensures (ask-Safe host cfg (host.review intent)) λ review. after_review-Safe review

      after_content-Safe :
          (rejection : Option Reason)
          → Safe host cfg
              (Answers host cfg intent ctx hash)
              (after_content host cfg intent ctx hash correlation_id now rejection)
      after_content-Safe (some rejection) = conclude-Safe host cfg intent ctx hash _ (denies refl)
      after_content-Safe none =
          step-Ensures (ask-Safe host cfg host.is_healthy) λ healthy. healthy_Safe _ _ refl

      decide-Safe :
          Safe host cfg
            (Answers host cfg intent ctx hash)
            (decide host cfg intent ctx hash correlation_id now)
      unfolding decide
      decide-Safe = after_content-Safe (detect_unsafe_content intent)

      evaluate_reserved-Safe :
          Safe host cfg
            (Answers host cfg intent ctx hash)
            (evaluate_reserved host cfg intent ctx hash correlation_id now)
      unfolding evaluate_reserved
      evaluate_reserved-Safe =
          step-Ensures
            (update_store-Ensures _ λ w p. record {
              decisions = chosen_AllJustified host cfg ctx.dry_run p.decisions (
                  reserve-AllJustified (idempotency_scope host intent) hash w.idempotency
                    p.decisions);
            })
            λ u. catch-Ensures decide-Safe λ fault.
              step-Ensures (abort_decision-Safe host cfg intent ctx hash fault)
                λ u. throw-Ensures fault

      after_lookup-Safe :
          (cached : Cached (GuardrailDecision N))
          → CachedIsJustified cached
          → Safe host cfg
              (Answers host cfg intent ctx hash)
              (after_lookup host cfg intent ctx hash correlation_id now cached)
      after_lookup-Safe conflict j =
          bind-Ensures (finalize_decision-Safe host cfg intent _ correlation_id ctx (denies refl))
            λ finalized final. pure-Ensures (decided finalized) final
      after_lookup-Safe (known d) j =
          finalize_cached-Safe host cfg intent ctx hash correlation_id d j
      after_lookup-Safe (waiting i) j = pure-Ensures (awaiting i) tt
      after_lookup-Safe missing j = evaluate_reserved-Safe

      looked_up_justified :
          (s : Store (GuardrailDecision N) Fault) (dry_run : Bool)
          → AllJustified s
          → CachedIsJustified
              (if dry_run then missing else Idempotency.get (idempotency_scope host intent) hash s)
      looked_up_justified s true a = tt
      looked_up_justified s false a = get-CachedIsJustified (idempotency_scope host intent) hash s a

      looked_up_Safe : Safe host cfg (Answers host cfg intent ctx hash) (λ w.
          after_lookup host cfg intent ctx hash correlation_id now
            (if ctx.dry_run
              then missing
              else Idempotency.get (idempotency_scope host intent) hash w.idempotency)
            w)
      looked_up_Safe = record {
        ensured = λ w p.
            (after_lookup-Safe _
                (looked_up_justified w.idempotency ctx.dry_run p.decisions)).ensured
              w p;
      }

      pub evaluate_checked-Safe :
          Safe host cfg
            (Answers host cfg intent ctx hash)
            (evaluate_checked host cfg intent ctx hash correlation_id now)
      unfolding evaluate_checked
      evaluate_checked-Safe = step-Ensures (write_audit-Safe host cfg _) λ u. looked_up_Safe
