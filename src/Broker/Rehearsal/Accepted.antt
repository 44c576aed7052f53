-- ===== src/Broker/Rehearsal/Accepted.antt =====
-- What the authorization of a dry run is good for.
use agent_trading_guardrails.Base.{String, ◌≡◌, refl, sym, ap, ◌∙◌, true, &&_iff, some}
use mathlib.Core.Path.{subst}
use mathlib.Core.Option.{some-injective}
use agent_trading_guardrails.Js.{JsNumber}
use agent_trading_guardrails.Schemas.{TradingIntent}
use agent_trading_guardrails.Broker.Host.{
  Host, BrokerConfig, GuardrailApproval, DryRunAuthorization,
}
use agent_trading_guardrails.Broker.DryRun.{
  is_hex64, same_digest, dry_run_is_fresh, create_dry_run_authorization,
  dry_run_authorization_matches,
}
use agent_trading_guardrails.Broker.DryRun.Laws.{same_digest_refl}
use agent_trading_guardrails.Broker.World.{World, returned}
use agent_trading_guardrails.Broker.Rehearsal.{DryRunReport, dry_run}
use agent_trading_guardrails.Broker.Rehearsal.Laws.{dry_run-IsBacked}

module _ {N S : Type 0} ⦃number : JsNumber N⦄ (host : Host N S) (cfg : BrokerConfig N) where
  abbrev own : TradingIntent N → String → DryRunAuthorization
  own intent checked_at =
      create_dry_run_authorization host cfg.decision_verification_secret intent checked_at

  own_hex :
      (intent : TradingIntent N) (checked_at : String)
      → ((secret content : String) → is_hex64 (host.hmac_sha256 secret content) ≡ true)
      → is_hex64 (own intent checked_at).token ≡ true
  unfolding create_dry_run_authorization
  own_hex intent checked_at hex = hex cfg.decision_verification_secret _

  own_time : (intent : TradingIntent N) (at : String) → at ≡ (own intent at).checked_at
  unfolding create_dry_run_authorization
  own_time intent at = refl

  own_matches :
      (intent : TradingIntent N) (at now : String)
      → ((secret content : String) → is_hex64 (host.hmac_sha256 secret content) ≡ true)
      → dry_run_is_fresh host (own intent at).checked_at now cfg.decision_max_age_ms ≡ true
      → dry_run_authorization_matches host
          (some (own intent at))
          cfg.decision_verification_secret
          intent
          now
          cfg.decision_max_age_ms
        ≡ true
  unfolding dry_run_authorization_matches
  own_matches intent at now hex fresh =
      (&&_iff _ _).1 ((&&_iff _ _).1 (own_hex intent at hex, fresh), same_own)
    where
      same_own :
          same_digest (own intent at).token (own intent (own intent at).checked_at).token ≡ true
      same_own =
          subst (λ t. same_digest (own intent at).token (own intent t).token ≡ true)
            (own_time intent at) (same_digest_refl (own intent at).token)

module _ {N S : Type 0} ⦃number : JsNumber N⦄ (host : Host N S) (cfg : BrokerConfig N)
    (approval : GuardrailApproval N) where
  -- The roundtrip from a dry run to an execution, when digests are 64 lower-case hex digits: an
  -- authorization in the report that a dry run returns is accepted for the intent of the approval, with
  -- the secret and the age of the same broker, at each time at which it is fresh.
  pub dry_run-matches :
      (w : World N S) (r : DryRunReport) (intent : TradingIntent N) (a : DryRunAuthorization)
      (now : String)
      → ((secret content : String) → is_hex64 (host.hmac_sha256 secret content) ≡ true)
      → (dry_run host cfg approval w).0 ≡ returned r
      → approval.intent ≡ some intent
      → r.authorization ≡ some a
      → dry_run_is_fresh host a.checked_at now cfg.decision_max_age_ms ≡ true
      → dry_run_authorization_matches host r.authorization cfg.decision_verification_secret intent
          now cfg.decision_max_age_ms
        ≡ true
  unfolding create_dry_run_authorization
  dry_run-matches w r intent a now hex answered p made fresh =
      let (i, b) = dry_run-IsBacked host cfg approval w r a answered made in
      let made_own = b.finished.made in
      ap
        (λ o.
          dry_run_authorization_matches host o cfg.decision_verification_secret intent now
            cfg.decision_max_age_ms)
        made_own
      ∙ subst
          (λ x.
            dry_run_authorization_matches host
              (some
                (create_dry_run_authorization host cfg.decision_verification_secret x r.checked_at))
              cfg.decision_verification_secret intent now cfg.decision_max_age_ms
            ≡ true)
          (some-injective intent i (sym p ∙ b.parsed))
          (own_matches host cfg intent r.checked_at now hex (
            subst (λ x. dry_run_is_fresh host x.checked_at now cfg.decision_max_age_ms ≡ true)
              (some-injective a
                (create_dry_run_authorization host cfg.decision_verification_secret i r.checked_at)
                (sym made ∙ made_own))
              fresh))
