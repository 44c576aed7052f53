-- ===== src/Approval/Store.antt =====
-- packages/approval/src/store.ts: the transitions of `ApprovalStore`, over the table of its requests.
-- A row holds the request itself; the database and the JSON text of a row are not modelled. What an
-- operation reads of the world is an argument: the time as a text and as a number, whether the audit
-- writer accepts the event, and whether the onboarding to the allowlist succeeds; the
-- allowlist itself is in Approval/Onboarding. An operation that throws leaves the table as it was, as its transaction is
-- rolled back.
pub mod Laws
pub mod Once
use agent_trading_guardrails.Base.{
  String, Bool, true, false, not, ◌&&◌, ◌||◌, Option, none, some, List, [], ◌∷◌, if◌then◌else◌,
}
use agent_trading_guardrails.Base.Dict
use agent_trading_guardrails.Base.Dict.{Dict}
use agent_trading_guardrails.Js.{JsNumber}
use agent_trading_guardrails.Broker.Keys.{key_le}
use agent_trading_guardrails.Approval.Types.{
  ApprovalState, pending, approved, denied, timeout, consumed, ApprovalRequest, is_pending,
  is_one_time,
}

pub record ApprovalStore (N : Type 0) : Type 0 where
  pub requests : Dict (ApprovalRequest N)

-- What an operation ends in: a request, `null`, or an error.
pub data Transition (N : Type 0) : Type 0 where
  saved : ApprovalRequest N → Transition N
  refused threw : Transition N

module _ {N : Type 0} where
  -- save({ ...request, state })
  abbrev pub save :
      ApprovalRequest N → ApprovalState → ApprovalStore N → Transition N × ApprovalStore N
  save request state s =
      let changed = record request { state = state } in
      (saved changed, record { requests = Dict.put request.approval_id changed s.requests })

  -- timeout(request, decidedAt), of which `approve` and `deny` return null.
  abbrev pub time_out :
      Bool → ApprovalRequest N → String → ApprovalStore N → Transition N × ApprovalStore N
  time_out audit_accepts request decided_at s =
      if audit_accepts then save request (timeout decided_at) s else (threw, s)

  abbrev pub as_null : Transition N × ApprovalStore N → Transition N × ApprovalStore N
  as_null (saved request, s) = (refused, s)
  as_null (refused, s) = (refused, s)
  as_null (threw, s) = (threw, s)

  -- create(params): the new approval id and the two times are in the request. An approval id that is
  -- taken is an error of the database.
  unfoldable pub create : ApprovalRequest N → ApprovalStore N → Transition N × ApprovalStore N
  create request s = elim (Dict.get request.approval_id s.requests) [
    | some found ↦ (threw, s)
    | none ↦ save request pending s
  ]

  -- What `approve` and `deny` do with the request that they find.
  abbrev decide_found :
      Bool
      → Bool
      → ApprovalState
      → String
      → ApprovalStore N
      → ApprovalRequest N
      → Transition N × ApprovalStore N
  decide_found audit_accepts onboards decision decided_at s request =
      if not (is_pending request.state)
      then (refused, s)
      else if key_le request.timeout_at decided_at
      then as_null (time_out audit_accepts request decided_at s)
      else if onboards && audit_accepts
      then save request decision s
      else (threw, s)

  -- approve(approvalId, decidedBy); `onboards` counts for requests of allowlist onboarding only.
  unfoldable pub approve :
      Bool → Bool → String → String → String → ApprovalStore N → Transition N × ApprovalStore N
  unfolding key_le
  approve audit_accepts onboards id decided_by decided_at s = elim (Dict.get id s.requests) [
    | none ↦ (refused, s)
    | some request ↦
        decide_found audit_accepts (is_one_time request.approval_type || onboards)
          (approved decided_at decided_by) decided_at s request
  ]

  -- deny(approvalId, decidedBy)
  unfoldable pub deny :
      Bool → String → String → String → ApprovalStore N → Transition N × ApprovalStore N
  unfolding key_le
  deny audit_accepts id decided_by decided_at s = elim (Dict.get id s.requests) [
    | none ↦ (refused, s)
    | some request ↦
        decide_found audit_accepts true (denied decided_at decided_by) decided_at s request
  ]

  -- expire(approvalId)
  unfoldable pub expire : Bool → String → String → ApprovalStore N → Transition N × ApprovalStore N
  unfolding key_le
  expire audit_accepts id now s = elim (Dict.get id s.requests) [
    | none ↦ (refused, s)
    | some request ↦
        if not (is_pending request.state) || not (key_le request.timeout_at now)
        then (refused, s)
        else time_out audit_accepts request now s
  ]

  abbrev pub consume_state :
      Bool → ApprovalRequest N → ApprovalStore N → ApprovalState → Transition N × ApprovalStore N
  consume_state may request s (approved decided_at decided_by) =
      if may then save request (consumed decided_at decided_by) s else (refused, s)
  consume_state may request s _ = (refused, s)

module _ {N : Type 0} ⦃number : JsNumber N⦄ where
  -- consumeOneTime(approvalId); `now` is `Date.now()`.
  unfoldable pub consume_one_time :
      (date_parse : String → N)
      → String
      → (now : N) → ApprovalStore N
      → Transition N × ApprovalStore N
  consume_one_time date_parse id now s = elim (Dict.get id s.requests) [
    | none ↦ (refused, s)
    | some request ↦
        consume_state
          (is_one_time request.approval_type && not (number.le (date_parse request.timeout_at) now))
          request s request.state
  ]
