-- ===== src/Guardrail/Finish.antt =====
-- How `evaluate` of service.ts ends: the token of a decision, its audit event, the request of an approval
-- and what is stored. `evaluate` itself is in Guardrail/Evaluate.
use agent_trading_guardrails.Base.{
  ℕ, String, Bool, true, false, not, ◌&&◌, ◌||◌, Option, none, some, List, [], ◌∷◌, if◌then◌else◌,
}
use agent_trading_guardrails.Js.{JsNumber}
use agent_trading_guardrails.Js.Text.{template, is_empty}
use agent_trading_guardrails.Schemas.{TradingIntent, envelope}
use agent_trading_guardrails.Schemas.Json.{
  Json, null, bool, str, obj, JsonFields, no_fields, field, stable_json,
}
use agent_trading_guardrails.Schemas.Encode.{intent_json}
use agent_trading_guardrails.Guardrail.Types.{
  outcome_text, is_deny, is_needs_human, Reason, GuardrailDecision,
}
use agent_trading_guardrails.Guardrail.Idempotency
use agent_trading_guardrails.Guardrail.Idempotency.{Cached, missing, conflict, known, waiting}
use agent_trading_guardrails.Guardrail.Facts.{idempotency_scope}
use agent_trading_guardrails.Guardrail.Host.{
  EvaluationOptions, EventType, approval_requested, decision_final, decision_dry_run, EventData,
  approval_data, decision_data, GuardrailEvent, GuardrailHost, GuardrailConfig,
}
use agent_trading_guardrails.Guardrail.World.{
  M, Fault, audit_fault, approval_fault, pure, throw, ask, from_option, catch, attempt,
  update_store, ◌>>=◌, ◌>>◌,
}

pub data Evaluated (N : Type 0) : Type 0 where
  decided : GuardrailDecision N → Evaluated N
  awaiting : (promise : ℕ) → Evaluated N

abbrev first_message : List Reason → String
first_message [] = "Policy requires human approval."
first_message (r ∷ rs) = r.message

module _ {N S : Type 0} ⦃number : JsNumber N⦄ (host : GuardrailHost N S)
    (cfg : GuardrailConfig) where
  -- `decision.approvalId ?? null`
  abbrev approval_id_json : Option String → Json N
  approval_id_json none = null
  approval_id_json (some id) = str id

  abbrev dry_run_field : Bool → JsonFields N
  dry_run_field true = field "dryRun" (bool true) no_fields
  dry_run_field false = no_fields

  unfoldable pub create_decision_token :
      TradingIntent N
      → GuardrailDecision N
      → (correlation_id : String) → (dry_run : Bool) → Option String
  unfolding intent_json stable_json
  create_decision_token intent d correlation_id dry_run =
      if is_deny d.outcome
      then none
      else some (
          host.hmac_sha256 cfg.decision_signing_secret (
            stable_json host.locale_le (
              obj (
                field "intent" (obj (intent_json intent)) (
                  field "outcome" (str (outcome_text d.outcome)) (
                    field "correlationId" (str correlation_id) (
                      field "decidedAt" (str d.decided_at) (
                        field "approvalId" (approval_id_json d.approval_id)
                          (dry_run_field dry_run)))))))))

  -- The fingerprint that is audited in the place of a token; "" is no token.
  abbrev pub fingerprint : Option String → Option String
  fingerprint none = none
  fingerprint (some token) =
      if is_empty token
      then some token
      else some
          (template ("[sha256:" ∷ host.hmac_sha256 "audit-token-fingerprint" token ∷ "]" ∷ []))

  unfoldable pub write_audit : GuardrailEvent N → M N S (Unit {0})
  unfolding ask attempt ◌>>=◌
  write_audit event = do accepted ← ask (host.audit_write event); attempt audit_fault accepted

  -- An event about an intent.
  abbrev pub intent_event :
      TradingIntent N → String → EvaluationOptions → EventType → EventData N → GuardrailEvent N
  intent_event intent correlation_id ctx event_type content = record {
    event_type = event_type;
    environment = (envelope intent).environment;
    correlation_id = correlation_id;
    intent_id = some (envelope intent).intent_id;
    principal = some (envelope intent).principal;
    prompt_id = ctx.prompt_id;
    session_id = ctx.session_id;
    input_ref = ctx.input_ref;
    content = content;
  }

  abbrev final_event : EvaluationOptions → EventType
  final_event ctx = if ctx.dry_run then decision_dry_run else decision_final

  unfoldable pub finalize_invalid_decision :
      EvaluationOptions → GuardrailDecision N → M N S (GuardrailDecision N)
  unfolding write_audit pure ◌>>=◌
  finalize_invalid_decision ctx d = do
    let audited = record d { dry_run = ctx.dry_run || d.dry_run }
    write_audit (record {
      event_type = final_event ctx;
      environment = cfg.environment;
      correlation_id = d.correlation_id;
      intent_id = none;
      principal = none;
      prompt_id = ctx.prompt_id;
      session_id = ctx.session_id;
      input_ref = ctx.input_ref;
      content = decision_data audited;
    })
    pure audited

  -- The decision that `finalizeDecision` returns.
  abbrev pub signed :
      TradingIntent N → GuardrailDecision N → String → EvaluationOptions → GuardrailDecision N
  signed intent d correlation_id ctx = record d {
    correlation_id = correlation_id;
    decision_token = create_decision_token intent d correlation_id ctx.dry_run;
    dry_run = ctx.dry_run || d.dry_run;
  }

  unfoldable pub finalize_decision :
      TradingIntent N
      → GuardrailDecision N
      → String
      → EvaluationOptions
      → M N S (GuardrailDecision N)
  unfolding write_audit pure ◌>>=◌ create_decision_token template
  finalize_decision intent d correlation_id ctx = do
    let audited = signed intent d correlation_id ctx
    let fingerprinted = record audited { decision_token = fingerprint audited.decision_token }
    write_audit
        (intent_event intent correlation_id ctx (final_event ctx) (decision_data fingerprinted))
    pure audited

  unfoldable pub delete_approval : String → M N S (Unit {0})
  unfolding ask attempt ◌>>=◌
  delete_approval id = do accepted ← ask (host.approval_delete id); attempt approval_fault accepted

  unfoldable pub request_human_approval :
      TradingIntent N → GuardrailDecision N → EvaluationOptions → M N S (GuardrailDecision N)
  unfolding write_audit delete_approval ask from_option catch throw pure ◌>>=◌
  request_human_approval intent d ctx = do
    created ← ask (host.approval_create intent d.correlation_id (first_message d.reasons))
    request ← from_option approval_fault created
    catch
        (write_audit
          (intent_event intent d.correlation_id ctx approval_requested (approval_data request)))
        (λ fault. delete_approval request.approval_id >> throw fault)
    pure (record d { approval_id = some request.approval_id })

  module _ (intent : TradingIntent N) (ctx : EvaluationOptions) (hash : String) where
    abbrev pub scope : String
    scope = idempotency_scope host intent

    -- `if (!auditContext.dryRun) this.idempotency.set(...)`, and so for `abort`
    unfoldable pub store_decision : GuardrailDecision N → M N S (Unit {0})
    unfolding update_store Idempotency.set idempotency_scope
    store_decision d = update_store (λ s. if ctx.dry_run then s else Idempotency.set scope hash d s)

    unfoldable pub abort_decision : Fault → M N S (Unit {0})
    unfolding update_store Idempotency.abort idempotency_scope
    abort_decision fault =
        update_store (λ s. if ctx.dry_run then s else Idempotency.abort scope hash fault s)

    -- A decision that is finalized, stored and returned.
    unfoldable pub conclude : GuardrailDecision N → M N S (Evaluated N)
    unfolding finalize_decision store_decision pure ◌>>=◌
    conclude d = do
      finalized ← finalize_decision intent d d.correlation_id ctx
      store_decision finalized
      pure (decided finalized)

    unfoldable pub finalize_cached : String → GuardrailDecision N → M N S (Evaluated N)
    unfolding finalize_decision pure ◌>>=◌
    finalize_cached correlation_id d = do
      finalized ←
          finalize_decision intent d
            (if is_needs_human d.outcome then d.correlation_id else correlation_id) ctx
      pure (decided finalized)

    abbrev pub delete_given : Option String → M N S (Unit {0})
    delete_given none = pure tt
    delete_given (some id) = if is_empty id then pure tt else delete_approval id

    -- From `const approvalDecision` to the end.
    unfoldable pub conclude_policy : GuardrailDecision N → M N S (Evaluated N)
    unfolding request_human_approval finalize_decision store_decision abort_decision delete_approval
        catch throw pure ◌>>=◌
    conclude_policy d = do
      approval_decision ←
          (if is_needs_human d.outcome && not ctx.dry_run
            then request_human_approval intent d ctx
            else pure d)
      finalized ←
          catch (finalize_decision intent approval_decision approval_decision.correlation_id ctx)
            (λ fault.
              delete_given approval_decision.approval_id >> abort_decision fault >> throw fault)
      store_decision finalized
      pure (decided finalized)
