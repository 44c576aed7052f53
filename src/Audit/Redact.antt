-- ===== src/Audit/Redact.antt =====
-- `redactObject` and `isSecretKey` of writer.ts. `redactSecrets`, which is a series of regular
-- expressions, is a parameter. An object is taken to have no key "__proto__".
use agent_trading_guardrails.Base.{
  ℕ, String, Bool, ◌||◌, Option, none, some, List, [], ◌∷◌, nat_eq, if◌then◌else◌,
}
use agent_trading_guardrails.Schemas.Json.{
  Json, null, bool, num, str, arr, obj, JsonItems, no_items, item, JsonFields, no_fields, field,
}
use agent_trading_guardrails.Js.Text.{codes, lower_codes, includes, ends_with, equals}
use agent_trading_guardrails.Audit.Types.{AuditEventInput}

-- text.replace(/[_-]/g, "")
unfoldable pub without_dashes : List ℕ → List ℕ
without_dashes [] = []
without_dashes (c ∷ cs) =
    let rest = without_dashes cs in if nat_eq c b'_' || nat_eq c b'-' then rest else c ∷ rest

unfoldable pub is_secret_key : String → Bool
unfolding lower_codes without_dashes includes ends_with equals
is_secret_key key =
    let text = without_dashes (lower_codes (codes key)) in
    includes (codes "secret") text
    || includes (codes "private") text
    || includes (codes "mnemonic") text
    || includes (codes "seed") text
    || equals (codes "token") text
    || (ends_with (codes "vaulttoken") text
        || ends_with (codes "accesstoken") text
        || ends_with (codes "refreshtoken") text
        || ends_with (codes "authtoken") text
        || ends_with (codes "bearertoken") text)
    || equals (codes "authorization") text
    || ends_with (codes "apikey") text
    || ends_with (codes "apisecret") text

abbrev redact_option : (String → String) → Option String → Option String
redact_option redact none = none
redact_option redact (some s) = some (redact s)

module _ (redact_secrets : String → String) {N : Type 0} where
  unfoldable mutual
    unfolding is_secret_key

    pub redact_object : Json N → Json N
    redact_object null = null
    redact_object (bool b) = bool b
    redact_object (num a) = num a
    redact_object (str s) = str (redact_secrets s)
    redact_object (arr items) = arr (redact_items items)
    redact_object (obj fields) = obj (redact_fields fields)

    pub redact_items : JsonItems N → JsonItems N
    redact_items no_items = no_items
    redact_items (item j items) = item (redact_object j) (redact_items items)

    pub redact_fields : JsonFields N → JsonFields N
    redact_fields no_fields = no_fields
    redact_fields (field key j fields) =
        let rest = redact_fields fields in
        let kept = redact_object j in
        field key (if is_secret_key key then str "[REDACTED]" else kept) rest

  -- redactObject(event); none of the keys of an event is a secret key.
  unfoldable pub redact_event : AuditEventInput N → AuditEventInput N
  unfolding redact_fields
  redact_event event = record {
    event_id = redact_option redact_secrets event.event_id;
    event_type = redact_secrets event.event_type;
    environment = redact_secrets event.environment;
    correlation_id = redact_secrets event.correlation_id;
    intent_id = redact_option redact_secrets event.intent_id;
    principal = redact_option redact_secrets event.principal;
    prompt_id = redact_option redact_secrets event.prompt_id;
    session_id = redact_option redact_secrets event.session_id;
    input_ref = redact_option redact_secrets event.input_ref;
    payload = redact_fields event.payload;
  }
