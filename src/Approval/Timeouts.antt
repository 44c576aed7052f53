-- ===== src/Approval/Timeouts.antt =====
-- `checkTimeouts`, `list` and `delete` of `ApprovalStore` in packages/approval/src/store.ts. The order of
-- the table is that of its rows. Each `expire` of `checkTimeouts` reads the time anew and writes an audit
-- event: `at` and `accepts` are what it reads and whether the event is taken, by the id of the request.
pub mod Rows
pub mod Clears
use agent_trading_guardrails.Base.{
  String, Bool, true, false, ◌&&◌, Option, none, some, List, [], ◌∷◌, is_some, if◌then◌else◌,
}
use agent_trading_guardrails.Base.Dict
use agent_trading_guardrails.Base.Dict.{Dict}
use agent_trading_guardrails.Broker.Keys.{key_le}
use agent_trading_guardrails.Approval.Types.{ApprovalRequest, is_pending}
use agent_trading_guardrails.Approval.Store.{
  ApprovalStore, Transition, saved, refused, threw, expire,
}

module _ {N : Type 0} where
  -- delete(approvalId): whether there was a row
  unfoldable pub delete : String → ApprovalStore N → Bool × ApprovalStore N
  delete id s = (is_some (Dict.get id s.requests), record { requests = Dict.remove id s.requests })

  -- state = 'pending' AND timeout_at <= now
  abbrev pub is_overdue : String → ApprovalRequest N → Bool
  is_overdue now request = is_pending request.state && key_le request.timeout_at now

  -- The ids that `selectExpired` returns.
  abbrev pub overdue_ids : String → Dict (ApprovalRequest N) → List String
  overdue_ids now [] = []
  overdue_ids now ((id, request) ∷ rows) =
      let rest = overdue_ids now rows in if is_overdue now request then id ∷ rest else rest

  module _ (at : String → String) (accepts : String → Bool) where
    -- The requests that were timed out, or `none` for the error of an `expire`; those before it stay.
    abbrev with_expired :
        Transition N
        → Option (List (ApprovalRequest N)) × ApprovalStore N
        → Option (List (ApprovalRequest N)) × ApprovalStore N
    with_expired (saved request) (some timed_out, s) = (some (request ∷ timed_out), s)
    with_expired transition end = end

    abbrev pub or_error :
        Transition N × ApprovalStore N
        → Option (List (ApprovalRequest N)) × ApprovalStore N
        → Option (List (ApprovalRequest N)) × ApprovalStore N
    or_error (threw, s) rest = (none, s)
    or_error (saved request, s) rest = with_expired (saved request) rest
    or_error (refused, s) rest = rest

    unfoldable pub expire_each :
        List String → ApprovalStore N → Option (List (ApprovalRequest N)) × ApprovalStore N
    unfolding expire
    expire_each [] s = (some [], s)
    expire_each (id ∷ ids) s =
        let expired = expire (accepts id) id (at id) s in
        let rest = expire_each ids expired.1 in or_error expired rest

    -- checkTimeouts()
    unfoldable pub check_timeouts :
        String → ApprovalStore N → Option (List (ApprovalRequest N)) × ApprovalStore N
    unfolding expire_each key_le
    check_timeouts now s = expire_each (overdue_ids now s.requests) s
