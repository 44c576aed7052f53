-- ===== src/Audit/Proofs/Redaction.antt =====
-- What is left of the texts and of the secret values in a redacted payload.
use agent_trading_guardrails.Base.{
  String, ◌≡◌, refl, ◌⊎◌, inl, inr, Bool, true, false, arith, if◌then◌else◌,
}
use agent_trading_guardrails.Schemas.Json.{
  Json, null, bool, num, str, arr, obj, JsonItems, no_items, item, JsonFields, no_fields, field,
}
use agent_trading_guardrails.Audit.Redact.{
  is_secret_key, redact_object, redact_items, redact_fields,
}

module _ (redact_secrets : String → String) {N : Type 0} where
  -- Each text went through `redactSecrets` or is the mark, and each value of a secret key is the mark.
  mutual
    pub IsRedacted : Json N → Type 0
    IsRedacted (str s) = (s ≡ "[REDACTED]") ⊎ ((t : String) × (s ≡ redact_secrets t))
    IsRedacted (arr items) = AreRedacted items
    IsRedacted (obj fields) = HasRedacted fields
    IsRedacted _ = Unit

    pub AreRedacted : JsonItems N → Type 0
    AreRedacted no_items = Unit
    AreRedacted (item j items) = IsRedacted j × AreRedacted items

    pub HasRedacted : JsonFields N → Type 0
    HasRedacted no_fields = Unit
    HasRedacted (field key j fields) =
        (is_secret_key key ≡ true → j ≡ str "[REDACTED]") × IsRedacted j × HasRedacted fields

  marked :
      (secret : Bool) (j : Json N)
      → IsRedacted j
      → (secret ≡ true → (if secret then str "[REDACTED]" else j) ≡ str "[REDACTED]")
        × IsRedacted (if secret then str "[REDACTED]" else j)
  unfolding IsRedacted
  marked true j r = (λ h. refl, inl refl)
  marked false j r = (λ h. absurd (ground arith), r)

  mutual
    unfolding IsRedacted redact_object

    redact_object_lem : (j : Json N) → IsRedacted (redact_object redact_secrets j)
    redact_object_lem null = tt
    redact_object_lem (bool b) = tt
    redact_object_lem (num a) = tt
    redact_object_lem (str s) = inr (s, refl)
    redact_object_lem (arr items) = redact_items_lem items
    redact_object_lem (obj fields) = redact_fields_lem fields

    redact_items_lem : (items : JsonItems N) → AreRedacted (redact_items redact_secrets items)
    redact_items_lem no_items = tt
    redact_items_lem (item j items) = (redact_object_lem j, redact_items_lem items)

    redact_fields_lem : (fields : JsonFields N) → HasRedacted (redact_fields redact_secrets fields)
    redact_fields_lem no_fields = tt
    redact_fields_lem (field key j fields) =
        let m = marked (is_secret_key key) (redact_object redact_secrets j) (redact_object_lem j) in
        (m.0, m.1, redact_fields_lem fields)

  -- In what `redactObject` makes of an object, at any depth, the value of each secret key is the mark
  -- "[REDACTED]", and each other text is the result of `redactSecrets`.
  pub redact_fields-HasRedacted :
      (fields : JsonFields N) → HasRedacted (redact_fields redact_secrets fields)
  redact_fields-HasRedacted = redact_fields_lem
