-- ===== src/Broker/Execute/Admit.antt =====
-- `ExecutionBroker.execute` of broker.ts as a whole: the guards, the reservation, and what each answer
-- of the idempotency store leads to.
use agent_trading_guardrails.Base.{
  ℕ, String, ◌==◌, Bool, true, false, not, ◌&&◌, ◌||◌, Option, none, some, List, [], ◌∷◌, find,
  is_some, if◌then◌else◌,
}
use agent_trading_guardrails.Js.{JsNumber}
use agent_trading_guardrails.Js.Text.{template}
use agent_trading_guardrails.Schemas.{TradingIntent, envelope}
use agent_trading_guardrails.Approval.Types.{ApprovalRequest}
use agent_trading_guardrails.Broker.Types.{BrokerExecutionResult, BrokerAuditEvent}
use agent_trading_guardrails.Broker.Host.{
  Host, BrokerConfig, GuardrailApproval, ApprovalIdField, absent, given, other, DryRunAuthorization,
}
use agent_trading_guardrails.Broker.Idempotency
use agent_trading_guardrails.Broker.Idempotency.{Reservation, conflict, reserved, known, waiting}
use agent_trading_guardrails.Broker.World.{
  M, approval_fault, returned, pure, ask, from_option, update_store, ◌>>=◌, ◌>>◌,
}
use agent_trading_guardrails.Broker.Preflight.{audit, preflight}
use agent_trading_guardrails.Broker.Decision.{
  is_canary, decision_refusal, approval_matches_intent, Refusal,
}
use agent_trading_guardrails.Broker.Execute.Evidence.{Subject, subject}
use agent_trading_guardrails.Broker.Execute.Stages.{reject, scoped_key, payload_hash}
use agent_trading_guardrails.Broker.Execute.Run.{run_reserved}

-- What `execute` resolves to: a result, or whatever the promise of another request resolves to.
pub data Answer (N : Type 0) : Type 0 where
  done : BrokerExecutionResult N → Answer N
  deferred : (promise : ℕ) → Answer N

-- The message of `IdempotencyConflictError`.
abbrev pub conflict_text : String → String
conflict_text key =
    template ("Idempotency key " ∷ key ∷ " was already used with a different intent payload." ∷ [])

module _ {N S : Type 0} ⦃number : JsNumber N⦄ (host : Host N S) (cfg : BrokerConfig N) where
  module _ (intent : TradingIntent N) (correlation_id now : String) where
    -- A cached result, with flushPendingTerminalAudit.
    unfoldable pub replay : BrokerExecutionResult N → Option (BrokerAuditEvent N) → M N S (Answer N)
    unfolding ◌>>=◌ pure update_store
    replay result none = pure (done result)
    replay result (some event) = do
      audit host event
      update_store (λ s.
          Idempotency.complete_audit (scoped_key host cfg intent correlation_id now)
            (payload_hash host cfg intent correlation_id now) s)
      pure (done result)

    abbrev pub answered : M N S (BrokerExecutionResult N) → M N S (Answer N)
    answered m = do result ← m; pure (done result)

    abbrev pub follow :
        Option DryRunAuthorization
        → Option String
        → Reservation (BrokerExecutionResult N) (BrokerAuditEvent N)
        → M N S (Answer N)
    follow authorization approval_id conflict = answered (
        reject host cfg (subject intent) now correlation_id "idempotency_conflict"
          (conflict_text (envelope intent).idempotency_key))
    follow authorization approval_id (known result pending) = replay result pending
    follow authorization approval_id (waiting promise) = pure (deferred promise)
    follow authorization approval_id reserved =
        answered (run_reserved host cfg intent correlation_id now authorization approval_id)

    -- idempotency.begin(intent.idempotencyKey, intent)
    unfoldable pub reserve : M N S (Reservation (BrokerExecutionResult N) (BrokerAuditEvent N))
    reserve w =
        let (reservation, store) =
          Idempotency.begin (scoped_key host cfg intent correlation_id now)
            (payload_hash host cfg intent correlation_id now) w.idempotency in
        (returned reservation, record w { idempotency = store })

    -- From the reservation on.
    unfoldable pub execute_once : Option DryRunAuthorization → Option String → M N S (Answer N)
    unfolding ◌>>=◌ pure
    execute_once authorization approval_id = do
      reservation ← reserve
      follow authorization approval_id reservation

    -- `"approvalId" in approval` with a value that is no string or is empty.
    abbrev pub malformed_id : ApprovalIdField N → Bool
    malformed_id absent = false
    malformed_id (given id) = id == ""
    malformed_id (other j) = true

    abbrev pub id_of : ApprovalIdField N → Option String
    id_of (given id) = some id
    id_of _ = none

    -- The two tests of the approval id, given the requests of the store.
    abbrev pub needs_approval_id : GuardrailApproval N → List (ApprovalRequest N) → Bool
    needs_approval_id approval requests =
        malformed_id approval.approval_id
        || ((approval.outcome == "needs_human"
              || is_some
                  (find (λ request. approval_matches_intent host request intent none) requests))
            && not (is_some (id_of approval.approval_id)))

    -- From findApprovalForIntent to the reservation.
    unfoldable pub check_approval_id :
        Option DryRunAuthorization → GuardrailApproval N → M N S (Answer N)
    unfolding ◌>>=◌ pure ask from_option
    check_approval_id authorization approval = do
      answer ← ask host.approval_list
      requests ← from_option approval_fault answer
      (if needs_approval_id approval requests
          then answered (
              reject host cfg (subject intent) now correlation_id "approval_missing"
                "Human approval is required before execution.")
          else execute_once authorization (id_of approval.approval_id))

    -- From the block of the canary environment on.
    unfoldable pub admit : Option DryRunAuthorization → GuardrailApproval N → M N S (Answer N)
    unfolding ◌>>=◌
    admit authorization approval =
        if is_canary host cfg
        then (do
          (passed, checks) ← preflight host cfg intent correlation_id
          (if passed
              then check_approval_id authorization approval
              else answered (
                  reject host cfg (subject intent) now correlation_id "live_preflight_failed"
                    "Live-mode preflight failed.")))
        else check_approval_id authorization approval

  abbrev pub fallback_subject : GuardrailApproval N → Subject
  fallback_subject approval = record {
    intent_id = approval.intent_id;
    idempotency_key = "invalid-approval-intent";
    principal = "unknown";
  }

  -- For an intent that was parsed, `refusal` is what the guards on the decision say.
  abbrev pub decide :
      TradingIntent N
      → Option DryRunAuthorization
      → GuardrailApproval N
      → String
      → Option Refusal
      → M N S (Answer N)
  decide intent authorization approval now none =
      admit intent approval.correlation_id now authorization approval
  decide intent authorization approval now (some refusal) =
      answered intent approval.correlation_id now
        (reject host cfg (subject intent) now approval.correlation_id refusal.rule refusal.message)

  abbrev pub execute_parsed :
      Option DryRunAuthorization
      → GuardrailApproval N
      → String
      → Option (TradingIntent N)
      → M N S (Answer N)
  execute_parsed authorization approval now none = do
    result ←
        reject host cfg (fallback_subject approval) now approval.correlation_id "schema_validation"
          "Approval intent is malformed."
    pure (done result)
  execute_parsed authorization approval now (some intent) =
      decide intent authorization approval now (decision_refusal host cfg approval intent now)

  -- execute(approval, options)
  unfoldable pub execute : GuardrailApproval N → Option DryRunAuthorization → M N S (Answer N)
  unfolding ◌>>=◌ pure ask
  execute approval authorization = do
    now ← ask host.clock
    execute_parsed authorization approval now approval.intent
