-- ===== src/Broker/Execute/Trusted.antt =====
-- Which decisions `execute` acts on: the guards before the reservation, and what a refusal leaves.
use agent_trading_guardrails.Base.{
  ℕ, String, eq_iff, ◌≡◌, ◌≢◌, refl, sym, ap, ◌∙◌, ◌⊎◌, true, false, Option, none, some, nat_eq,
  if◌then◌else◌, arith,
}
use Prim.Native.String.{count}
use agent_trading_guardrails.Js.{JsNumber}
use agent_trading_guardrails.Schemas.{
  Environment, dev, paper, testnet, canary_live, production, TradingIntent, envelope,
}
use agent_trading_guardrails.Schemas.Encode.{environment_text}
use agent_trading_guardrails.Broker.Host.{
  Host, BrokerConfig, GuardrailApproval, DryRunAuthorization,
}
use agent_trading_guardrails.Broker.World.{World, ask, ◌>>=◌}
use agent_trading_guardrails.Broker.World.Rules.{Keeps, bind-Keeps, pure-Keeps}
use agent_trading_guardrails.Broker.Execute.Evidence.{subject}
use agent_trading_guardrails.Broker.Execute.Admit.{
  done, decide, execute_parsed, execute, fallback_subject,
}
use agent_trading_guardrails.Broker.Execute.Keeps.{reject-Keeps}
use agent_trading_guardrails.Broker.Execute.Once.{connector_calls, calls-IsStable}
use agent_trading_guardrails.Broker.Decision.{
  Refusal, decision_token_matches, decision_is_stale, decision_refusal,
}

-- The names of the environments are told apart by their length.
abbrev size : Environment → ℕ
size dev = 3
size paper = 5
size testnet = 7
size canary_live = 11
size production = 10

abbrev of_size : ℕ → Environment
of_size n =
    if nat_eq n 3
    then dev
    else if nat_eq n 5
    then paper
    else if nat_eq n 7
    then testnet
    else if nat_eq n 11
    then canary_live
    else production

of_size-size : (e : Environment) → of_size (size e) ≡ e
of_size-size dev = refl
of_size-size paper = refl
of_size-size testnet = refl
of_size-size canary_live = refl
of_size-size production = refl

count-environment_text : (e : Environment) → count (environment_text e) ≡ size e
count-environment_text dev = refl
count-environment_text paper = refl
count-environment_text testnet = refl
count-environment_text canary_live = refl
count-environment_text production = refl

pub environment_text_injective :
    (a b : Environment) → environment_text a ≡ environment_text b → a ≡ b
environment_text_injective a b h =
    sym (of_size-size a)
    ∙ ap of_size (sym (count-environment_text a) ∙ ap count h ∙ count-environment_text b)
    ∙ of_size-size b

module _ {N S : Type 0} ⦃number : JsNumber N⦄ (host : Host N S) (cfg : BrokerConfig N) where
  -- A decision on this intent that the broker may act on at this time.
  pub record IsTrusted (approval : GuardrailApproval N) (intent : TradingIntent N) (now : String)
      : Type 0 where
    pub not_dry_run : approval.dry_run ≡ false
    pub outcome : (approval.outcome ≡ "allow") ⊎ (approval.outcome ≡ "needs_human")
    pub token : decision_token_matches host cfg approval intent ≡ true
    pub fresh : decision_is_stale host cfg approval.decided_at now ≡ false
    pub not_production : cfg.environment ≢ production
    pub environment : (envelope intent).environment ≡ cfg.environment
    pub same_intent : approval.intent_id ≡ (envelope intent).intent_id
    pub enabled : cfg.environment ≡ canary_live → cfg.canary_live_enabled ≡ true

  pub accepted-IsTrusted :
      (approval : GuardrailApproval N) (intent : TradingIntent N) (now : String)
      → decision_refusal host cfg approval intent now ≡ none
      → IsTrusted approval intent now
  unfolding decision_refusal
  accepted-IsTrusted approval intent now h = record {
    not_dry_run = ground arith;
    outcome =
        ground (arith, eq_iff approval.outcome "allow", eq_iff approval.outcome "needs_human");
    token = ground arith;
    fresh = ground arith;
    not_production = λ e. ground (
      arith,
      (eq_iff (environment_text cfg.environment) (environment_text production)).1
          (ap environment_text e),
    );
    environment = environment_text_injective _ _ (
        ground (
          arith,
          eq_iff (environment_text (envelope intent).environment)
              (environment_text cfg.environment),
        ));
    same_intent = ground (arith, eq_iff approval.intent_id (envelope intent).intent_id);
    enabled = λ e. ground (
      arith,
      (eq_iff (environment_text cfg.environment) (environment_text canary_live)).1
          (ap environment_text e),
    );
  }

  module _ (key : String) (approval : GuardrailApproval N)
      (authorization : Option DryRunAuthorization) where
    abbrev Counts : ℕ → World N S → Type 0
    Counts n w = connector_calls key w.trace ≡ n

    refused-Keeps :
        (n : ℕ) (intent : TradingIntent N) (now : String) (refusal : Refusal)
        → Keeps (Counts n) (decide host cfg intent authorization approval now (some refusal))
    refused-Keeps n intent now refusal =
        bind-Keeps _ _
          (reject-Keeps (calls-IsStable key n) host cfg (subject intent) now approval.correlation_id
            refusal.rule refusal.message)
          (λ result. pure-Keeps (done result))

    unparsed-Keeps :
        (n : ℕ) (now : String)
        → Keeps (Counts n) (execute_parsed host cfg authorization approval now none)
    unparsed-Keeps n now =
        bind-Keeps _ _
          (reject-Keeps (calls-IsStable key n) host cfg (fallback_subject host cfg approval) now
            approval.correlation_id "schema_validation" "Approval intent is malformed.")
          (λ result. pure-Keeps (done result))

    module _ (now : String) (w : World N S) where
      abbrev Acts : World N S → Type 0
      Acts w' = connector_calls key w'.trace ≢ connector_calls key w.trace

      decided :
          (intent : TradingIntent N) (refusal : Option Refusal)
          → decision_refusal host cfg approval intent now ≡ refusal
          → Acts (decide host cfg intent authorization approval now refusal w).1
          → IsTrusted approval intent now
      decided intent none q acts = accepted-IsTrusted approval intent now q
      decided intent (some refusal) q acts =
          absurd
            (acts ((refused-Keeps (connector_calls key w.trace) intent now refusal).kept w refl))

      parsed :
          (intent : Option (TradingIntent N))
          → approval.intent ≡ intent
          → Acts (execute_parsed host cfg authorization approval now intent w).1
          → (i : TradingIntent N) × (approval.intent ≡ some i) × IsTrusted approval i now
      parsed none q acts =
          absurd (acts ((unparsed-Keeps (connector_calls key w.trace) now).kept w refl))
      parsed (some intent) q acts =
          (intent, q, decided intent (decision_refusal host cfg approval intent now) refl acts)

    -- If a request makes the broker call the connector, for whatever key, then its intent was parsed
    -- and the decision on it is one that the broker may act on at the time of the request: no dry run,
    -- allowed or referred to a human, with a token that matches and is not stale, of this intent and of
    -- the broker's environment, which is not production, and canary only where that is enabled.
    pub execute-IsTrusted :
        (w : World N S)
        → connector_calls key (execute host cfg approval authorization w).1.trace
          ≢ connector_calls key w.trace
        → (intent : TradingIntent N) × (approval.intent ≡ some intent)
          × IsTrusted approval intent (host.clock w.host).0
    unfolding execute ◌>>=◌ ask
    execute-IsTrusted w acts =
        parsed (host.clock w.host).0 (record w { host = (host.clock w.host).1 }) approval.intent
          refl acts
