-- ===== src/Broker/DryRun.antt =====
-- packages/broker/src/dry-run.ts: the authorization that a dry run hands out for a live order.
pub mod Laws
use agent_trading_guardrails.Base.{
  ℕ, String, Bool, true, false, ◌&&◌, ◌||◌, ◌+◌, Option, none, some, List, [], ◌∷◌, map, every,
  length, leb, nat_eq, if◌then◌else◌,
}
use agent_trading_guardrails.Js.{JsNumber}
use agent_trading_guardrails.Js.Text.{template, codes}
use agent_trading_guardrails.Schemas.{TradingIntent}
use agent_trading_guardrails.Broker.Host.{Host, DryRunAuthorization}
use agent_trading_guardrails.Broker.Keys.{hash_intent_payload}

abbrev is_lower_hex : ℕ → Bool
is_lower_hex c = (leb 48 c && leb c 57) || (leb 97 c && leb c 102)

abbrev pub to_lower : ℕ → ℕ
to_lower c = if leb 65 c && leb c 90 then c + 32 else c

-- /^[0-9a-f]{64}$/ and, with the flag i, /^[0-9a-f]{64}$/i
unfoldable pub is_hex64 : String → Bool
is_hex64 s = nat_eq (length (codes s)) 64 && every is_lower_hex (codes s)

unfoldable pub is_hex64_any_case : String → Bool
is_hex64_any_case s =
    nat_eq (length (codes s)) 64 && every (λ c. is_lower_hex (to_lower c)) (codes s)

abbrev pub same_codes : List ℕ → List ℕ → Bool
same_codes [] [] = true
same_codes (x ∷ xs) (y ∷ ys) = nat_eq x y && same_codes xs ys
same_codes _ _ = false

-- `timingSafeEqual` of the bytes that two hex texts of 64 digits denote.
unfoldable pub same_digest : String → String → Bool
same_digest a b = same_codes (map to_lower (codes a)) (map to_lower (codes b))

module _ {N S : Type 0} ⦃number : JsNumber N⦄ (host : Host N S) where
  abbrev pub or_default : N → Option N → N
  or_default d none = d
  or_default d (some a) = a

  unfoldable pub dry_run_is_fresh : String → String → Option N → Bool
  dry_run_is_fresh checked_at now decision_max_age_ms =
      let age = number.sub (host.date_parse now) (host.date_parse checked_at) in
      number.is_finite age
      && number.le (number.of_nat 0) age
      && number.le age (or_default (number.of_nat 300_000) decision_max_age_ms)

  unfoldable pub create_dry_run_authorization :
      String → TradingIntent N → String → DryRunAuthorization
  unfolding template
  create_dry_run_authorization secret intent checked_at = record {
    checked_at = checked_at;
    token = host.hmac_sha256 secret (
        template
          ("broker-dry-run:" ∷ hash_intent_payload host.sha256 intent ∷ ":" ∷ checked_at ∷ []));
  }

  unfoldable pub dry_run_authorization_matches :
      Option DryRunAuthorization → String → TradingIntent N → String → Option N → Bool
  dry_run_authorization_matches none secret intent now decision_max_age_ms = false
  dry_run_authorization_matches (some authorization) secret intent now decision_max_age_ms =
      is_hex64 authorization.token
      && dry_run_is_fresh authorization.checked_at now decision_max_age_ms
      && same_digest authorization.token
          (create_dry_run_authorization secret intent authorization.checked_at).token
