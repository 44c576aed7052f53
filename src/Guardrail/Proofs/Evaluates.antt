-- ===== src/Guardrail/Proofs/Evaluates.antt =====
-- What `evaluate` ensures, however its collaborators answer and whatever they do.
use agent_trading_guardrails.Base.{
  String, ◌==◌, eq_iff, ◌≡◌, refl, Bool, true, false, not, Option, none, some, List, [], ◌∷◌,
  if◌then◌else◌,
}
use agent_trading_guardrails.Js.{JsNumber}
use agent_trading_guardrails.Schemas.{TradingIntent, envelope}
use agent_trading_guardrails.Schemas.Json.{Json, stable_json}
use agent_trading_guardrails.Broker.Decision.{same_environment}
use agent_trading_guardrails.Broker.Execute.Trusted.{environment_text_injective}
use agent_trading_guardrails.Guardrail.Types.{GuardrailDecision, Reason, is_deny}
use agent_trading_guardrails.Guardrail.Facts.{canonical_resource}
use agent_trading_guardrails.Guardrail.Host.{
  EvaluationOptions, Parsed, invalid, parsed, GuardrailHost, GuardrailConfig,
}
use agent_trading_guardrails.Guardrail.World.{Outcome, returned, threw, World, M}
use agent_trading_guardrails.Guardrail.World.Rules.{
  Returns, Anything, pure-Ensures, bind-Ensures, step-Ensures,
}
use agent_trading_guardrails.Guardrail.Finish.{
  Evaluated, decided, awaiting, create_decision_token, finalize_invalid_decision,
}
use agent_trading_guardrails.Guardrail.Evaluate.{
  reason, evaluate_checked, invalid_decision, evaluate_parsed, or_generated, evaluate,
}
use agent_trading_guardrails.Guardrail.Proofs.Justified.{IsJustified, AllJustified}
use agent_trading_guardrails.Guardrail.Proofs.Final.{Safe, ask-Safe, write_audit-Safe, Answers}
use agent_trading_guardrails.Guardrail.Proofs.Decides.{evaluate_checked-Safe}

module _ {N S : Type 0} ⦃number : JsNumber N⦄ (host : GuardrailHost N S)
    (cfg : GuardrailConfig) where
  -- A decision that denies, or one on an intent that the request holds, that names its own resource and
  -- the environment of the service, and with the token for it.
  pub data IsAuthorized (raw : Json N) (ctx : EvaluationOptions) (d : GuardrailDecision N)
      : Type 0 where
    is_denied : is_deny d.outcome ≡ true → IsAuthorized raw ctx d
    is_authorized :
        (intent : TradingIntent N)
        → host.safe_parse raw ≡ parsed intent
        → (envelope intent).resource ≡ canonical_resource intent
        → (envelope intent).environment ≡ cfg.environment
        → IsJustified d
        → d.decision_token ≡ create_decision_token host cfg intent d d.correlation_id ctx.dry_run
        → IsAuthorized raw ctx d

  abbrev pub Authorizes : Json N → EvaluationOptions → Evaluated N → Type 0
  Authorizes raw ctx (decided d) = IsAuthorized raw ctx d
  Authorizes raw ctx (awaiting i) = Unit

  invalid_decision-Safe :
      (raw : Json N) (ctx : EvaluationOptions) (intent_id correlation_id now : String)
      (reasons : List Reason)
      → Safe host cfg
          (Authorizes raw ctx)
          (invalid_decision host cfg ctx intent_id correlation_id now reasons)
  unfolding finalize_invalid_decision
  invalid_decision-Safe raw ctx intent_id correlation_id now reasons =
      bind-Ensures {Q = λ d. is_deny d.outcome ≡ true}
        (step-Ensures (write_audit-Safe host cfg _) λ u. pure-Ensures _ refl)
        λ finalized h. pure-Ensures (decided finalized) (is_denied h)

  answered_Authorizes :
      (raw : Json N) (ctx : EvaluationOptions) (hash : String) (intent : TradingIntent N)
      → host.safe_parse raw ≡ parsed intent
      → (envelope intent).resource ≡ canonical_resource intent
      → (envelope intent).environment ≡ cfg.environment
      → (o : Evaluated N) → Answers host cfg intent ctx hash o
      → Authorizes raw ctx o
  answered_Authorizes raw ctx hash intent h r e (decided d) final =
      is_authorized intent h r e final.justified final.token
  answered_Authorizes raw ctx hash intent h r e (awaiting i) t = tt

  weaken_Safe :
      {A : Type 0} {Q R : A → Type 0} {m : M N S A}
      → ((a : A) → Q a → R a)
      → Safe host cfg Q m
      → Safe host cfg R m
  weaken_Safe {A} {Q} {R} {m} f h = record {
    ensured = λ w p. let first = h.ensured w p in (first.0, weakened (m w).0 first.1);
  }
    where
      weakened : (o : Outcome A) → Returns Q o → Returns R o
      weakened (returned a) q = f a q
      weakened (threw fault) t = tt

  intent_Safe :
      (raw : Json N) (ctx : EvaluationOptions) (hash correlation_id now : String)
      (intent : TradingIntent N) (own_resource own_environment : Bool)
      → host.safe_parse raw ≡ parsed intent
      → ((envelope intent).resource == canonical_resource intent) ≡ own_resource
      → same_environment (envelope intent).environment cfg.environment ≡ own_environment
      → Safe host cfg (Authorizes raw ctx) (
          if not own_resource
          then invalid_decision host cfg ctx
              (envelope intent).intent_id
              correlation_id
              now
              (reason "resource_mismatch" "Intent resource does not match intent fields." ∷ [])
          else if not own_environment
          then invalid_decision host cfg ctx (envelope intent).intent_id correlation_id now (
              reason "environment_mismatch"
                "Intent environment does not match guardrail service environment."
              ∷ [])
          else evaluate_checked host cfg intent ctx hash correlation_id now)
  intent_Safe raw ctx hash correlation_id now intent false b h r e =
      invalid_decision-Safe raw ctx _ correlation_id now _
  intent_Safe raw ctx hash correlation_id now intent true false h r e =
      invalid_decision-Safe raw ctx _ correlation_id now _
  intent_Safe raw ctx hash correlation_id now intent true true h r e =
      weaken_Safe
        (answered_Authorizes raw ctx hash intent h
          ((eq_iff (envelope intent).resource (canonical_resource intent)).0 r)
          (environment_text_injective _ _ ((eq_iff _ _).0 e)))
        (evaluate_checked-Safe host cfg intent ctx hash correlation_id now)

  evaluate_parsed-Safe :
      (raw : Json N) (ctx : EvaluationOptions) (hash correlation_id now : String) (p : Parsed N)
      → host.safe_parse raw ≡ p
      → Safe host cfg (Authorizes raw ctx) (evaluate_parsed host cfg ctx hash correlation_id now p)
  evaluate_parsed-Safe raw ctx hash correlation_id now (invalid issues) h =
      invalid_decision-Safe raw ctx "" correlation_id now issues
  evaluate_parsed-Safe raw ctx hash correlation_id now (parsed intent) h =
      intent_Safe raw ctx hash correlation_id now intent _ _ h refl refl

  or_generated-Safe : (id : Option String) → Safe host cfg Anything (or_generated host cfg id)
  or_generated-Safe none = ask-Safe host cfg host.generate_correlation_id
  or_generated-Safe (some id) = pure-Ensures id tt

  evaluate-Safe :
      (raw : Json N) (ctx : EvaluationOptions)
      → Safe host cfg (Authorizes raw ctx) (evaluate host cfg raw ctx)
  unfolding evaluate
  evaluate-Safe raw ctx = step-Ensures (or_generated-Safe ctx.correlation_id) λ correlation_id.
      step-Ensures (ask-Safe host cfg host.clock) λ now.
        evaluate_parsed-Safe raw ctx (stable_json host.locale_le raw) correlation_id now
          (host.safe_parse raw) refl

  -- However the collaborators answer: from a store of justified decisions, a call of `evaluate` leaves one,
  -- and the decision that it returns denies, or it is on an intent that the request holds, with the
  -- resource of its own fields and the environment of the service; it rests on a review, a risk result
  -- that passed and a sound output of the policy engine with that outcome; and its token is the one that
  -- its fields determine.
  pub evaluate-IsAuthorized :
      (raw : Json N) (ctx : EvaluationOptions) (w : World N S)
      → AllJustified w.idempotency
      → AllJustified (evaluate host cfg raw ctx w).1.idempotency
        × Returns (Authorizes raw ctx) (evaluate host cfg raw ctx w).0
  evaluate-IsAuthorized raw ctx w a =
      let both = (evaluate-Safe raw ctx).ensured w (record { decisions = a }) in
      (both.0.decisions, both.1)
