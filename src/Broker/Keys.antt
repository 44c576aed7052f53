-- ===== src/Broker/Keys.antt =====
-- `hashIntentPayload`, `scopeIdempotencyKey` and `terminalAuditEventId` of idempotency-store.ts. The
-- digest of node:crypto is a parameter.
use agent_trading_guardrails.Base.{
  ℕ, String, ◌+◌, ◌∷◌, [], ltb, Bool, true, false, ◌&&◌, ◌||◌, nat_eq, List, if◌then◌else◌,
}
use Prim.Native.Nat.{◌/◌, ◌%◌, ◌-◌}
use Prim.Native.String.{slice}
use agent_trading_guardrails.Js.{JsNumber}
use agent_trading_guardrails.Js.Text.{template, codes}
use agent_trading_guardrails.Schemas.{TradingIntent, envelope, action}
use agent_trading_guardrails.Schemas.Json.{str, obj, no_fields, field, stable_json}
use agent_trading_guardrails.Schemas.Encode.{intent_json, action_text}

-- The UTF-16 code units of a text, and the order of `.sort()` on strings.
abbrev units_of : ℕ → List ℕ → List ℕ
units_of c rest =
    if ltb c 0x10000
    then c ∷ rest
    else (0xd800 + (c - 0x10000) / 0x400) ∷ (0xdc00 + (c - 0x10000) % 0x400) ∷ rest

unfoldable pub units : List ℕ → List ℕ
units [] = []
units (c ∷ cs) = units_of c (units cs)

unfoldable pub units_le : List ℕ → List ℕ → Bool
units_le [] ys = true
units_le (x ∷ xs) [] = false
units_le (x ∷ xs) (y ∷ ys) = ltb x y || (nat_eq x y && units_le xs ys)

unfoldable pub key_le : String → String → Bool
unfolding units units_le
key_le a b = units_le (units (codes a)) (units (codes b))

module _ {N : Type 0} ⦃number : JsNumber N⦄ where
  -- `stableStringify({key, principal, action, resource})`
  unfoldable pub scope_idempotency_key : String → TradingIntent N → String
  unfolding key_le stable_json
  scope_idempotency_key key intent = stable_json {N = N} key_le (
      obj (
        field "key" (str key) (
          field "principal" (str (envelope intent).principal) (
            field "action" (str (action_text (action intent)))
              (field "resource" (str (envelope intent).resource) no_fields)))))

  module _ (sha256 : String → String) where
    unfoldable pub hash_intent_payload : TradingIntent N → String
    unfolding key_le stable_json intent_json
    hash_intent_payload intent = sha256 (stable_json key_le (obj (intent_json intent)))

    -- The digest laid out as a version 4 UUID.
    unfoldable pub terminal_audit_event_id : TradingIntent N → String → String → String
    unfolding template
    terminal_audit_event_id intent correlation_id event_type =
        let hash = sha256 (
          template (
            event_type
            ∷ ":"
            ∷ (envelope intent).intent_id
            ∷ ":"
            ∷ (envelope intent).idempotency_key
            ∷ ":"
            ∷ (envelope intent).principal
            ∷ ":"
            ∷ action_text (action intent)
            ∷ ":"
            ∷ (envelope intent).resource
            ∷ ":"
            ∷ correlation_id
            ∷ [])) in
        template (
          slice hash 0 8
          ∷ "-"
          ∷ slice hash 8 12
          ∷ "-4"
          ∷ slice hash 13 16
          ∷ "-8"
          ∷ slice hash 17 20
          ∷ "-"
          ∷ slice hash 20 32
          ∷ [])
