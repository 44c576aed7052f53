-- ===== src/Guardrail/Proofs/Final.antt =====
-- How a call of `evaluate` ends: what its last steps ensure.
use agent_trading_guardrails.Base.{
  String, ◌≡◌, refl, sym, ap, ◌∙◌, Bool, true, false, not, ◌&&◌, Option, none, some, if◌then◌else◌,
}
use agent_trading_guardrails.Js.{JsNumber}
use agent_trading_guardrails.Js.Text.{is_empty}
use agent_trading_guardrails.Schemas.{TradingIntent}
use agent_trading_guardrails.Approval.Types.{ApprovalRequest}
use agent_trading_guardrails.Guardrail.Types.{GuardrailDecision, is_deny, is_needs_human}
use agent_trading_guardrails.Guardrail.Idempotency.{Store}
use agent_trading_guardrails.Guardrail.Facts.{idempotency_scope}
use agent_trading_guardrails.Guardrail.Host.{
  EvaluationOptions, approval_requested, approval_data, GuardrailEvent, GuardrailHost,
  GuardrailConfig,
}
use agent_trading_guardrails.Guardrail.World.{
  World, M, Fault, audit_fault, approval_fault, pure, ask,
}
use agent_trading_guardrails.Guardrail.World.Rules.{
  Anything, Ensures, IsHosted, pure-Ensures, throw-Ensures, ask-Ensures, from_option-Ensures,
  catch-Ensures, attempt-Ensures, update_store-Ensures, bind-Ensures, step-Ensures,
}
use agent_trading_guardrails.Guardrail.Finish.{
  Evaluated, decided, awaiting, signed, intent_event, create_decision_token, write_audit,
  finalize_decision, delete_approval, delete_given, request_human_approval, store_decision,
  abort_decision, conclude, finalize_cached, conclude_policy,
}
use agent_trading_guardrails.Guardrail.Proofs.Justified.{
  IsJustified, denies, rests, AllJustified, set-AllJustified, abort-AllJustified,
}

pub record WorldIsJustified {N S : Type 0} (w : World N S) : Type 0 where
  pub decisions : AllJustified w.idempotency

module _ {N S : Type 0} where
  WorldIsJustified-IsHosted : IsHosted (WorldIsJustified {N = N} {S = S})
  WorldIsJustified-IsHosted = record { hosted = λ w s p. record { decisions = p.decisions } }

module _ {N S : Type 0} ⦃number : JsNumber N⦄ (host : GuardrailHost N S)
    (cfg : GuardrailConfig) where
  abbrev pub Safe : {A : Type 0} → (A → Type 0) → M N S A → Type 0
  Safe Q m = Ensures WorldIsJustified Q m

  pub chosen_AllJustified :
      {s t : Store (GuardrailDecision N) Fault} (b : Bool)
      → AllJustified s
      → AllJustified t
      → AllJustified (if b then s else t)
  chosen_AllJustified true a b = a
  chosen_AllJustified false a b = b

  pub ask-Safe : {A : Type 0} (f : S → A × S) → Safe Anything (ask f)
  ask-Safe f = ask-Ensures WorldIsJustified-IsHosted f

  pub write_audit-Safe : (event : GuardrailEvent N) → Safe Anything (write_audit host cfg event)
  unfolding write_audit
  write_audit-Safe event =
      step-Ensures (ask-Safe _) λ accepted. attempt-Ensures audit_fault accepted

  delete_approval-Safe : (id : String) → Safe Anything (delete_approval host cfg id)
  unfolding delete_approval
  delete_approval-Safe id =
      step-Ensures (ask-Safe _) λ accepted. attempt-Ensures approval_fault accepted

  -- A decision that is justified and carries the token that its fields determine.
  pub record IsFinal (intent : TradingIntent N) (ctx : EvaluationOptions) (d : GuardrailDecision N)
      : Type 0 where
    pub justified : IsJustified d
    pub token :
        d.decision_token ≡ create_decision_token host cfg intent d d.correlation_id ctx.dry_run

  IsJustified-again :
      (d e : GuardrailDecision N)
      → e.outcome ≡ d.outcome
      → e.reviewer_verdict ≡ d.reviewer_verdict
      → e.risk_result ≡ d.risk_result
      → e.policy_output ≡ d.policy_output
      → IsJustified d
      → IsJustified e
  IsJustified-again d e o v r p (denies h) = denies (ap is_deny o ∙ h)
  IsJustified-again d e o v r p (rests review risk out hv hr passed hp same sound) =
      rests review risk out (v ∙ hv) (r ∙ hr) passed (p ∙ hp) (same ∙ sym o) sound

  pub finalize_decision-Safe :
      (intent : TradingIntent N) (d : GuardrailDecision N) (correlation_id : String)
      (ctx : EvaluationOptions)
      → IsJustified d
      → Safe (IsFinal intent ctx) (finalize_decision host cfg intent d correlation_id ctx)
  unfolding finalize_decision create_decision_token
  finalize_decision-Safe intent d correlation_id ctx j = step-Ensures (write_audit-Safe _) λ u.
      pure-Ensures _ (record {
        justified =
            IsJustified-again d (signed host cfg intent d correlation_id ctx) refl refl refl refl j;
        token = refl;
      })

  request_human_approval-Safe :
      (intent : TradingIntent N) (d : GuardrailDecision N) (ctx : EvaluationOptions)
      → IsJustified d
      → Safe IsJustified (request_human_approval host cfg intent d ctx)
  unfolding request_human_approval
  request_human_approval-Safe intent d ctx j = step-Ensures (ask-Safe _) λ created.
      step-Ensures (from_option-Ensures approval_fault created) λ (request : ApprovalRequest N).
        step-Ensures
          (catch-Ensures
            (write_audit-Safe (
              intent_event host cfg intent d.correlation_id ctx approval_requested
                (approval_data request)))
            λ fault.
              step-Ensures (delete_approval-Safe request.approval_id) λ u. throw-Ensures fault)
          λ u. pure-Ensures _ (
            IsJustified-again d (record d { approval_id = some request.approval_id }) refl refl refl
              refl j)

  module _ (intent : TradingIntent N) (ctx : EvaluationOptions) (hash : String) where
    -- What a call on this intent ends in.
    abbrev pub Answers : Evaluated N → Type 0
    Answers (decided d) = IsFinal intent ctx d
    Answers (awaiting i) = Unit

    store_decision-Safe :
        (d : GuardrailDecision N)
        → IsJustified d
        → Safe Anything (store_decision host cfg intent ctx hash d)
    unfolding store_decision
    store_decision-Safe d j = update_store-Ensures _ λ w p. record {
      decisions =
          chosen_AllJustified ctx.dry_run p.decisions
            (set-AllJustified (idempotency_scope host intent) hash d w.idempotency p.decisions j);
    }

    pub abort_decision-Safe :
        (fault : Fault) → Safe Anything (abort_decision host cfg intent ctx hash fault)
    unfolding abort_decision
    abort_decision-Safe fault = update_store-Ensures _ λ w p. record {
      decisions =
          chosen_AllJustified ctx.dry_run p.decisions (
            abort-AllJustified (idempotency_scope host intent) hash fault w.idempotency
              p.decisions);
    }

    pub conclude-Safe :
        (d : GuardrailDecision N)
        → IsJustified d
        → Safe Answers (conclude host cfg intent ctx hash d)
    unfolding conclude
    conclude-Safe d j =
        bind-Ensures (finalize_decision-Safe intent d d.correlation_id ctx j) λ finalized final.
          step-Ensures (store_decision-Safe finalized final.justified)
            λ u. pure-Ensures (decided finalized) final

    pub finalize_cached-Safe :
        (correlation_id : String) (d : GuardrailDecision N)
        → IsJustified d
        → Safe Answers (finalize_cached host cfg intent ctx hash correlation_id d)
    unfolding finalize_cached
    finalize_cached-Safe correlation_id d j =
        bind-Ensures (finalize_decision-Safe intent d _ ctx j)
          λ finalized final. pure-Ensures (decided finalized) final

    delete_given-Safe :
        (id : Option String) → Safe Anything (delete_given host cfg intent ctx hash id)
    delete_given-Safe none = pure-Ensures tt tt
    delete_given-Safe (some id) =
        elim (is_empty id)
          as (λ b. Safe Anything (if b then pure tt else delete_approval host cfg id)) [
            | true ↦ pure-Ensures tt tt
            | false ↦ delete_approval-Safe id
          ]

    requested_Safe :
        (d : GuardrailDecision N) (asks : Bool)
        → IsJustified d
        → Safe IsJustified (if asks then request_human_approval host cfg intent d ctx else pure d)
    requested_Safe d true j = request_human_approval-Safe intent d ctx j
    requested_Safe d false j = pure-Ensures d j

    pub conclude_policy-Safe :
        (d : GuardrailDecision N)
        → IsJustified d
        → Safe Answers (conclude_policy host cfg intent ctx hash d)
    unfolding conclude_policy
    conclude_policy-Safe d j =
        bind-Ensures (requested_Safe d (is_needs_human d.outcome && not ctx.dry_run) j)
          λ (e : GuardrailDecision N) je.
            bind-Ensures
              (catch-Ensures (finalize_decision-Safe intent e e.correlation_id ctx je) λ fault.
                step-Ensures
                  (step-Ensures (delete_given-Safe e.approval_id) λ u. abort_decision-Safe fault)
                  λ u. throw-Ensures fault)
              λ finalized final.
                step-Ensures (store_decision-Safe finalized final.justified)
                  λ u. pure-Ensures (decided finalized) final
