-- ===== src/Guardrail/Opa.antt =====
-- packages/guardrail-service/src/opa-transform.ts, with `PolicyOutput` of packages/schemas/src/policy.ts.
-- What throws is `none`, as the service looks at no text of these errors. What comes from the policy
-- engine is a JSON value; on one that is no object the operator `in` throws, or finds nothing.
use agent_trading_guardrails.Base.{
  String, ◌==◌, Bool, true, false, not, ◌&&◌, ◌||◌, Option, none, some, List, [], ◌∷◌, ◌++◌, map,
  every, is_some, if◌then◌else◌,
}
use agent_trading_guardrails.Js.Text.{is_empty}
use agent_trading_guardrails.Broker.Keys.{key_le}
use agent_trading_guardrails.Schemas.Json.{
  Json, null, bool, str, arr, obj, JsonItems, no_items, item, JsonFields, no_fields, field,
}
use agent_trading_guardrails.Guardrail.Types.{
  DecisionOutcome, allow, deny, needs_human, is_allow, is_deny, is_needs_human, Reason,
  PolicyOutput,
}

-- A chain of tests that throw, and of values that may be missing.
infixl 10 ◌>>=◌
unfoldable pub ◌>>=◌ : {A B : Type 0} → Option A → (A → Option B) → Option B
◌>>=◌ none f = none
◌>>=◌ (some a) f = f a

abbrev pub require : {A : Type 0} → Bool → Option A → Option A
require test a = if test then a else none

abbrev pub is_nil : {A : Type 0} → List A → Bool
is_nil [] = true
is_nil (x ∷ xs) = false

module _ {N : Type 0} where
  -- raw[key], if `key in raw`
  unfoldable pub lookup : String → JsonFields N → Option (Json N)
  lookup key no_fields = none
  lookup key (field k j fields) = let rest = lookup key fields in if k == key then some j else rest

  abbrev text_of : Option (Json N) → Option String
  text_of (some (str s)) = some s
  text_of _ = none

  -- The callback of `normalizeReasons`.
  abbrev normalize_reason : Json N → Option Reason
  normalize_reason (str s) = some (record { rule = s; message = s })
  normalize_reason (obj fields) = text_of (lookup "rule" fields) >>= λ rule.
      text_of (lookup "message" fields) >>= λ message.
      some (record { rule = rule; message = message })
  normalize_reason _ = none

  abbrev normalize_items : JsonItems N → Option (List Reason)
  normalize_items no_items = some []
  normalize_items (item j items) =
      let rest = normalize_items items in
      normalize_reason j >>= λ reason. rest >>= λ reasons. some (reason ∷ reasons)

  unfoldable pub normalize_reasons : Json N → Option (List Reason)
  unfolding lookup
  normalize_reasons (arr items) = normalize_items items
  normalize_reasons _ = none

  unfoldable pub normalize_optional_reasons : Option (Json N) → Option (List Reason)
  unfolding normalize_reasons
  normalize_optional_reasons none = some []
  normalize_optional_reasons (some j) = normalize_reasons j

  abbrev strings_of : JsonItems N → Option (List String)
  strings_of no_items = some []
  strings_of (item (str s) items) = strings_of items >>= λ rest. some (s ∷ rest)
  strings_of (item _ items) = none

  unfoldable pub normalize_string_array : Json N → Option (List String)
  normalize_string_array (arr items) = strings_of items
  normalize_string_array _ = none

  abbrev or_snake : Option (Json N) → Option (Json N) → Option (Json N)
  or_snake (some j) snake = some j
  or_snake none snake = snake

  unfoldable pub required_field : JsonFields N → String → String → Option (Json N)
  unfolding lookup
  required_field raw camel snake = or_snake (lookup camel raw) (lookup snake raw)

  -- `PolicyDecision`
  abbrev decision_of : Json N → Option DecisionOutcome
  decision_of (str s) =
      if s == "allow"
      then some allow
      else if s == "deny"
      then some deny
      else if s == "needs_human"
      then some needs_human
      else none
  decision_of _ = none

  abbrev bool_of : Json N → Option Bool
  bool_of (bool b) = some b
  bool_of _ = none

  -- `raw.evaluatedAt ?? new Date().toISOString()`, as a text
  abbrev evaluated_at_of : Option (Json N) → String → Option String
  evaluated_at_of none now = some now
  evaluated_at_of (some null) now = some now
  evaluated_at_of (some (str s)) now = some s
  evaluated_at_of (some _) now = none

-- z.string().min(1) of both texts
abbrev is_reason : Reason → Bool
is_reason r = not (is_empty r.rule) && not (is_empty r.message)

abbrev includes_rule : List String → String → Bool
includes_rule [] rule = false
includes_rule (r ∷ rs) rule = r == rule || includes_rule rs rule

unfoldable pub all_reasons_match_rules : List Reason → List String → Bool
all_reasons_match_rules reasons rules = every (λ r. includes_rule rules r.rule) reasons

abbrev insert_text : String → List String → List String
insert_text s [] = s ∷ []
insert_text s (t ∷ ts) = let rest = insert_text s ts in if key_le s t then s ∷ t ∷ ts else t ∷ rest

-- texts.sort()
unfoldable pub sort_texts : List String → List String
unfolding key_le
sort_texts [] = []
sort_texts (s ∷ ss) = insert_text s (sort_texts ss)

abbrev same_texts : List String → List String → Bool
same_texts [] [] = true
same_texts (s ∷ ss) (t ∷ ts) = s == t && same_texts ss ts
same_texts _ _ = false

abbrev pub rules_of : List Reason → List String
rules_of = map (λ r. r.rule)

unfoldable pub reason_rules_exactly_match : List Reason → List String → Bool
unfolding sort_texts
reason_rules_exactly_match reasons rules =
    same_texts (sort_texts (rules_of reasons)) (sort_texts rules)

-- The refinements of the schema.
unfoldable pub is_policy_output : (is_datetime : String → Bool) → PolicyOutput → Bool
is_policy_output is_datetime p =
    every is_reason p.reasons
    && is_datetime p.evaluated_at
    && not (is_allow p.decision && p.requires_human_approval)
    && (not (is_allow p.decision) || not (is_nil p.reasons))
    && not (is_deny p.decision && p.requires_human_approval)
    && (not (is_needs_human p.decision) || p.requires_human_approval)
    && (not (is_needs_human p.decision) || not (is_nil p.reasons))

-- The tests of `transformOpaOutput` on the parsed output, each of which throws.
abbrev pub refined_allow : PolicyOutput → (escalation : List Reason) → Bool
refined_allow p escalation =
    not p.requires_human_approval
    && not (is_nil p.matched_allow_rules)
    && not (is_nil p.reasons)
    && is_nil escalation
    && all_reasons_match_rules p.reasons p.matched_allow_rules

abbrev pub refined_deny : PolicyOutput → (hard_deny : List Reason) → Bool
refined_deny p hard_deny =
    not (is_nil p.reasons)
    && (is_nil hard_deny || reason_rules_exactly_match p.reasons (rules_of hard_deny))

abbrev pub refined_needs_human : PolicyOutput → (escalation : List Reason) → Bool
refined_needs_human p escalation =
    p.requires_human_approval
    && (is_nil escalation || reason_rules_exactly_match p.reasons (rules_of escalation))

unfoldable pub is_refined : PolicyOutput → (hard_deny escalation : List Reason) → Bool
unfolding all_reasons_match_rules reason_rules_exactly_match
is_refined p hard_deny escalation =
    (is_deny p.decision || (is_nil hard_deny && is_nil p.matched_deny_rules))
    && (not (is_allow p.decision) || refined_allow p escalation)
    && (not (is_deny p.decision) || refined_deny p hard_deny)
    && (not (is_needs_human p.decision) || refined_needs_human p escalation)

unfoldable pub checked :
    (is_datetime : String → Bool) → List Reason → List Reason → PolicyOutput → Option PolicyOutput
unfolding is_policy_output is_refined
checked is_datetime hard_deny escalation p =
    require (is_policy_output is_datetime p && is_refined p hard_deny escalation) (some p)

module _ {N : Type 0} where
  -- Whether `reasons` is there decides where the reasons come from.
  abbrev reasons_of : Option (Json N) → List Reason → List Reason → Option (List Reason)
  reasons_of (some j) hard_deny escalation = normalize_reasons j
  reasons_of none hard_deny escalation = some (hard_deny ++ escalation)

  unfoldable pub transform_fields :
      (is_datetime : String → Bool) → (now : String) → JsonFields N → Option PolicyOutput
  unfolding lookup required_field normalize_reasons normalize_optional_reasons
      normalize_string_array checked
  transform_fields is_datetime now raw = do
    decision_field ← lookup "decision" raw
    given ←
        require
          (is_some (lookup "reasons" raw)
            || is_some (lookup "hard_deny_reasons" raw)
            || is_some (lookup "escalation_reasons" raw))
          (some decision_field)
    hard_deny ← normalize_optional_reasons (lookup "hard_deny_reasons" raw)
    escalation ← normalize_optional_reasons (lookup "escalation_reasons" raw)
    reasons ← reasons_of (lookup "reasons" raw) hard_deny escalation
    human_field ← required_field raw "requiresHumanApproval" "requires_human_approval"
    allow_field ← required_field raw "matchedAllowRules" "matched_allow_rules"
    allow_rules ← normalize_string_array allow_field
    deny_field ← required_field raw "matchedDenyRules" "matched_deny_rules"
    deny_rules ← normalize_string_array deny_field
    decision ← decision_of given
    requires_human ← bool_of human_field
    evaluated_at ← evaluated_at_of (lookup "evaluatedAt" raw) now
    checked is_datetime hard_deny escalation (record {
      decision = decision;
      reasons = reasons;
      requires_human_approval = requires_human;
      matched_allow_rules = allow_rules;
      matched_deny_rules = deny_rules;
      evaluated_at = evaluated_at;
    })

  -- transformOpaOutput(raw)
  unfoldable pub transform_opa_output :
      (is_datetime : String → Bool) → (now : String) → Json N → Option PolicyOutput
  unfolding transform_fields
  transform_opa_output is_datetime now (obj fields) = transform_fields is_datetime now fields
  transform_opa_output is_datetime now _ = none

  abbrev is_nullish : Option (Json N) → Bool
  is_nullish none = true
  is_nullish (some null) = true
  is_nullish (some _) = false

  -- Whether the time of the answer is taken from the clock: `raw.evaluatedAt ?? new Date()`.
  unfoldable pub lacks_time : Json N → Bool
  unfolding lookup
  lacks_time (obj fields) = is_nullish (lookup "evaluatedAt" fields)
  lacks_time _ = false
