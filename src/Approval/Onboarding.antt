-- ===== src/Approval/Onboarding.antt =====
-- `approve` of `ApprovalStore` in packages/approval/src/store.ts with the allowlist that an onboarding
-- writes, and `JsonFileAllowlistOnboardingStore.add` of allowlist-store.ts. What the writes of one call
-- end in is its `Writes`; a write of the file that throws leaves it as it was.
pub mod Atomic
use agent_trading_guardrails.Base.{
  String, Bool, true, false, not, ◌&&◌, ◌==◌, Option, none, some, List, [], ◌∷◌, ◌++◌,
  if◌then◌else◌,
}
use agent_trading_guardrails.Base.Dict
use agent_trading_guardrails.Js.Text.{template}
use agent_trading_guardrails.Schemas.Json.{
  Json, bool, num, str, JsonFields, no_fields, field, property,
}
use agent_trading_guardrails.Schemas.Encode.{environment_text}
use agent_trading_guardrails.Broker.Keys.{key_le}
use agent_trading_guardrails.Approval.Types.{ApprovalRequest, approved, is_pending, is_one_time}
use agent_trading_guardrails.Approval.Store.{
  ApprovalStore, Transition, saved, refused, threw, save, time_out, as_null,
}

pub record AllowlistOnboardingEntry (N : Type 0) : Type 0 where
  pub name : String
  pub principal : String
  pub action : String
  pub resource : String
  pub condition : JsonFields N

pub record Writes : Type 0 where
  pub configured : Bool  -- `config.allowlistOnboarding` is given
  pub added : Bool  -- `store.add` reads and writes the file
  pub update_accepted : Bool  -- the event "allowlist.updated" is written
  pub decision_accepted : Bool  -- the event of the decision and the row are written
  pub rolled_back : Bool  -- `rollback` writes the file
  pub committed : Bool  -- the transaction of the database commits

pub record Onboarded (N : Type 0) : Type 0 where
  pub transition : Transition N
  pub requests : ApprovalStore N
  pub allowlist : List (AllowlistOnboardingEntry N)

module _ {N : Type 0} where
  -- A property of the condition, if the value has the right type.
  abbrev if_text : String → Option (Json N) → JsonFields N → JsonFields N
  if_text name (some (str text)) rest = field name (str text) rest
  if_text name _ rest = rest

  abbrev if_number : String → Option (Json N) → JsonFields N → JsonFields N
  if_number name (some (num n)) rest = field name (num n) rest
  if_number name _ rest = rest

  unfoldable pub build_allowlist_condition : ApprovalRequest N → JsonFields N
  build_allowlist_condition request =
      field "environment" (str (environment_text request.environment)) (
        field "requiresHumanApproval" (bool false) (
          if_text "accountMode" (property "accountMode" request.intent_data) (
            if_number "maxNotionalUsd" (property "maxNotionalUsd" request.intent_data)
              (if_number "maxLeverage" (property "leverage" request.intent_data) no_fields))))

  unfoldable pub build_allowlist_entry : ApprovalRequest N → AllowlistOnboardingEntry N
  unfolding build_allowlist_condition template
  build_allowlist_entry request = record {
    name = template ("approval-" ∷ request.approval_id ∷ []);
    principal = request.principal;
    action = request.action;
    resource = request.resource;
    condition = build_allowlist_condition request;
  }

  abbrev outcome_of :
      List (AllowlistOnboardingEntry N) → Transition N × ApprovalStore N → Onboarded N
  outcome_of allowlist (transition, s) = record {
    transition = transition;
    requests = s;
    allowlist = allowlist;
  }

  -- `rollback`, then the error is thrown again.
  abbrev roll_back :
      Writes → ApprovalStore N → (before after : List (AllowlistOnboardingEntry N)) → Onboarded N
  roll_back w s before after = record {
    transition = threw;
    requests = s;
    allowlist = if w.rolled_back then before else after;
  }

  -- applyAllowlistOnboarding, the event of the decision and `save`
  unfoldable pub onboard :
      Writes
      → String
      → String
      → ApprovalStore N
      → List (AllowlistOnboardingEntry N)
      → ApprovalRequest N
      → Onboarded N
  unfolding build_allowlist_entry
  onboard w decided_by decided_at s before request =
      let after = before ++ build_allowlist_entry request ∷ [] in
      if not (w.configured && w.added)
      then outcome_of before (threw, s)
      else if not (w.update_accepted && w.decision_accepted)
      then roll_back w s before after
      else outcome_of after (save request (approved decided_at decided_by) s)

  abbrev approve_found :
      Writes
      → String
      → String
      → ApprovalStore N
      → List (AllowlistOnboardingEntry N)
      → ApprovalRequest N
      → Onboarded N
  approve_found w decided_by decided_at s before request =
      if not (is_pending request.state)
      then outcome_of before (refused, s)
      else if key_le request.timeout_at decided_at
      then outcome_of before (as_null (time_out w.decision_accepted request decided_at s))
      else if not (is_one_time request.approval_type)
      then onboard w decided_by decided_at s before request
      else if w.decision_accepted
      then outcome_of before (save request (approved decided_at decided_by) s)
      else outcome_of before (threw, s)

  -- What a commit that fails makes of it: the file is not part of the transaction.
  abbrev commit : Bool → ApprovalStore N → Onboarded N → Onboarded N
  commit true before end = end
  commit false before end = record end { transition = threw; requests = before }

  -- approve(approvalId, decidedBy)
  unfoldable pub approve_with :
      Writes
      → (id decided_by decided_at : String) → ApprovalStore N
      → List (AllowlistOnboardingEntry N)
      → Onboarded N
  unfolding onboard key_le
  approve_with w id decided_by decided_at s allowlist = elim (Dict.get id s.requests) [
    | none ↦ outcome_of allowlist (refused, s)
    | some request ↦
        commit w.committed s (approve_found w decided_by decided_at s allowlist request)
  ]
