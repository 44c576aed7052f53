-- ===== src/Guardrail/Proofs/Sound.antt =====
-- What every answer of the policy engine that `transformOpaOutput` accepts looks like.
use agent_trading_guardrails.Base.{
  String, ◌≡◌, refl, ap, Bool, true, false, Option, none, some, List, arith, ◌&&◌,
}
use mathlib.Core.Path.{subst}
use mathlib.Core.Option.{some-injective}
use agent_trading_guardrails.Schemas.Json.{Json, null, bool, num, str, arr, obj, JsonFields}
use agent_trading_guardrails.Guardrail.Types.{
  DecisionOutcome, allow, deny, needs_human, is_allow, is_deny, is_needs_human, Reason,
  PolicyOutput,
}
use agent_trading_guardrails.Guardrail.Opa.{
  ◌>>=◌, is_nil, all_reasons_match_rules, is_policy_output, is_refined, checked, transform_fields,
  transform_opa_output, require,
}

pub record IsSound (p : PolicyOutput) : Type 0 where
  pub reasons : is_nil p.reasons ≡ false
  pub human : p.requires_human_approval ≡ is_needs_human p.decision
  pub undenied : is_deny p.decision ≡ false → is_nil p.matched_deny_rules ≡ true
  pub allowed :
      is_allow p.decision ≡ true
      → (is_nil p.matched_allow_rules ≡ false)
        × (all_reasons_match_rules p.reasons p.matched_allow_rules ≡ true)

-- `Q` of what is there.
pub record Given {A : Type 0} (Q : A → Type 0) (o : Option A) : Type 0 where
  pub given : (a : A) → o ≡ some a → Q a

module _ {A : Type 0} {Q : A → Type 0} where
  pub none-Given : Given Q none
  none-Given = record { given = λ a h. absurd (ground arith) }

  pub some-Given : (a : A) → Q a → Given Q (some a)
  some-Given a q = record { given = λ b h. subst Q (some-injective a b h) q }

  require-Given : (test : Bool) (a : A) → (test ≡ true → Q a) → Given Q (require test (some a))
  require-Given true a h = some-Given a (h refl)
  require-Given false a h = none-Given

module _ {A B : Type 0} {Q : B → Type 0} where
  bind-Given : (m : Option A) {f : A → Option B} → ((a : A) → Given Q (f a)) → Given Q (m >>= f)
  unfolding ◌>>=◌
  bind-Given none h = none-Given
  bind-Given (some a) h = h a

module _ (is_datetime : String → Bool) (hard_deny escalation : List Reason) where
  -- The tests, each as a fact, for each decision.
  accepted_IsSound :
      (p : PolicyOutput) (d : DecisionOutcome)
      → p.decision ≡ d
      → (is_policy_output is_datetime p && is_refined p hard_deny escalation) ≡ true
      → IsSound p
  unfolding is_policy_output is_refined
  accepted_IsSound p allow d h =
      let a : is_allow p.decision ≡ true = ap is_allow d in
      let b : is_deny p.decision ≡ false = ap is_deny d in
      let c : is_needs_human p.decision ≡ false = ap is_needs_human d in
      record {
        reasons = ground (arith, a, b, c, h);
        human = ground (arith, a, b, c, h);
        undenied = λ k. ground (arith, a, b, c, h);
        allowed = λ k. (ground (arith, a, b, c, h), ground (arith, a, b, c, h));
      }
  accepted_IsSound p deny d h =
      let a : is_allow p.decision ≡ false = ap is_allow d in
      let b : is_deny p.decision ≡ true = ap is_deny d in
      let c : is_needs_human p.decision ≡ false = ap is_needs_human d in
      record {
        reasons = ground (arith, a, b, c, h);
        human = ground (arith, a, b, c, h);
        undenied = λ k. absurd (ground (arith, b, k));
        allowed = λ k. absurd (ground (arith, a, k));
      }
  accepted_IsSound p needs_human d h =
      let a : is_allow p.decision ≡ false = ap is_allow d in
      let b : is_deny p.decision ≡ false = ap is_deny d in
      let c : is_needs_human p.decision ≡ true = ap is_needs_human d in
      record {
        reasons = ground (arith, a, b, c, h);
        human = ground (arith, a, b, c, h);
        undenied = λ k. ground (arith, a, b, c, h);
        allowed = λ k. absurd (ground (arith, a, k));
      }

  checked-IsSound : (p : PolicyOutput) → Given IsSound (checked is_datetime hard_deny escalation p)
  unfolding checked
  checked-IsSound p = require-Given _ p (accepted_IsSound p p.decision refl)

module _ {N : Type 0} (is_datetime : String → Bool) (now : String) where
  transform_fields-IsSound :
      (raw : JsonFields N) → Given IsSound (transform_fields is_datetime now raw)
  unfolding transform_fields
  transform_fields-IsSound raw = bind-Given _ λ decision_field. bind-Given _ λ given.
      bind-Given _ λ hard_deny. bind-Given _ λ escalation. bind-Given _ λ reasons.
        bind-Given _ λ human_field. bind-Given _ λ allow_field. bind-Given _ λ allow_rules.
          bind-Given _ λ deny_field. bind-Given _ λ deny_rules. bind-Given _ λ decision.
            bind-Given _ λ requires_human. bind-Given _ λ evaluated_at.
              checked-IsSound is_datetime hard_deny escalation (record {
                decision = decision;
                reasons = reasons;
                requires_human_approval = requires_human;
                matched_allow_rules = allow_rules;
                matched_deny_rules = deny_rules;
                evaluated_at = evaluated_at;
              })

  -- Whatever the policy engine answers: an output that `transformOpaOutput` returns has reasons, asks for a
  -- human exactly when its decision is "needs_human", names no deny rule unless it denies, and when it
  -- allows, it names allow rules, and the rule of each reason is one of them.
  pub transform-IsSound : (raw : Json N) → Given IsSound (transform_opa_output is_datetime now raw)
  unfolding transform_opa_output
  transform-IsSound (obj fields) = transform_fields-IsSound fields
  transform-IsSound null = none-Given
  transform-IsSound (bool b) = none-Given
  transform-IsSound (num a) = none-Given
  transform-IsSound (str s) = none-Given
  transform-IsSound (arr items) = none-Given
