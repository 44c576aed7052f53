-- ===== src/Approval/Waiting.antt =====
-- `ApprovalStore.waitForApproval` of packages/approval/src/store.ts: a poll of the table, again and again,
-- while other callers change it. The times that a poll reads, and whether the audit writer accepts the
-- event of a timeout, are its `Reading`; `others` is what becomes of the table before the next poll.
-- The promise is rejected with an error for each constructor of `WaitEnd` but the first.
pub mod Ends
use agent_trading_guardrails.Base.{
  ℕ, zero, suc, String, Bool, true, false, Option, none, some, if◌then◌else◌,
}
use agent_trading_guardrails.Base.Dict
use agent_trading_guardrails.Js.{JsNumber}
use agent_trading_guardrails.Approval.Types.{
  ApprovalState, pending, approved, denied, timeout, consumed, ApprovalRequest, is_pending,
}
use agent_trading_guardrails.Approval.Store.{
  ApprovalStore, Transition, saved, refused, threw, expire,
}

pub record Reading (N : Type 0) : Type 0 where
  pub at_timeout : N
  pub at_deadline : N
  pub expired_at : String
  pub audit_accepts : Bool

pub data WaitEnd (N : Type 0) : Type 0 where
  approved_with : ApprovalRequest N → WaitEnd N
  not_found timed_out was_denied already_used gave_up audit_failed : WaitEnd N

module _ {N : Type 0} where
  -- The error of a request whose time is over: that of `expire`, if it throws.
  abbrev end_of_expire : Transition N × ApprovalStore N → Option (WaitEnd N) × ApprovalStore N
  end_of_expire (threw, s) = (some audit_failed, s)
  end_of_expire (saved request, s) = (some timed_out, s)
  end_of_expire (refused, s) = (some timed_out, s)

  abbrev pub after_poll :
      Option (WaitEnd N) × ApprovalStore N
      → Option (WaitEnd N) × ApprovalStore N
      → Option (WaitEnd N) × ApprovalStore N
  after_poll rest (some e, s) = (some e, s)
  after_poll rest (none, s) = rest

module _ {N : Type 0} ⦃number : JsNumber N⦄ (date_parse : String → N) (id : String)
    (deadline : N) where
  -- `none`: the poll is made again.
  abbrev poll_state : Reading N → ApprovalRequest N → ApprovalState → Option (WaitEnd N)
  poll_state r request (approved at by) = some (approved_with request)
  poll_state r request (denied at by) = some was_denied
  poll_state r request (timeout at) = some timed_out
  poll_state r request (consumed at by) = some already_used
  poll_state r request pending = if number.le deadline r.at_deadline then some gave_up else none

  -- poll()
  unfoldable pub poll : Reading N → ApprovalStore N → Option (WaitEnd N) × ApprovalStore N
  unfolding expire
  poll r s = elim (Dict.get id s.requests) [
    | none ↦ (some not_found, s)
    | some request ↦
        if number.le (date_parse request.timeout_at) r.at_timeout
        then (if is_pending request.state
            then end_of_expire (expire r.audit_accepts id r.expired_at s)
            else (some timed_out, s))
        else (poll_state r request request.state, s)
  ]

  module _ (readings : ℕ → Reading N) (others : ℕ → ApprovalStore N → ApprovalStore N) where
    -- waitForApproval(approvalId, timeoutMs, pollMs) from its poll `n` on, for as many polls as there
    -- is fuel; `none` is a promise that is not settled yet.
    unfoldable pub wait_for_approval :
        ℕ → ℕ → ApprovalStore N → Option (WaitEnd N) × ApprovalStore N
    unfolding poll
    wait_for_approval zero n s = (none, s)
    wait_for_approval (suc fuel) n s =
        let now = poll (readings n) s in
        let rest = wait_for_approval fuel (suc n) (others n now.1) in after_poll rest now
