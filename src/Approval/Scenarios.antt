-- ===== src/Approval/Scenarios.antt =====
-- One request that is waited for, times out, or is onboarded to the allowlist.
use agent_trading_guardrails.Base.{
  ℕ, suc, String, ◌≡◌, ◌≢◌, ◌↔◌, refl, Bool, true, false, ◌&&◌, none, some, [], ◌∷◌, if◌then◌else◌,
  arith,
}
use agent_trading_guardrails.Base.Int.{pos}
use agent_trading_guardrails.Base.Dict
use agent_trading_guardrails.Base.Dict.{get, put}
use agent_trading_guardrails.Js.Grid.{Grid, whole, grid_number}
use agent_trading_guardrails.Schemas.{paper}
use agent_trading_guardrails.Schemas.Json.{num, field, no_fields}
use agent_trading_guardrails.Broker.Keys.{units, units_le, key_le}
use agent_trading_guardrails.Approval.Types.{
  ApprovalRequest, allowlist_onboarding, pending, approved,
}
use agent_trading_guardrails.Approval.Store.{ApprovalStore, saved, approve, create}
use agent_trading_guardrails.Approval.Store.Laws.{IsKeyed, create-IsKeyed}
use agent_trading_guardrails.Approval.Waiting.{Reading, wait_for_approval}
use agent_trading_guardrails.Approval.Waiting.Ends.{EndsBy, wait_for_approval-EndsBy}
use agent_trading_guardrails.Approval.Timeouts.{check_timeouts}
use agent_trading_guardrails.Approval.Timeouts.Clears.{HasOverdue, check_timeouts-TimesOut}
use agent_trading_guardrails.Approval.Timeouts.Rows.{TimesOut}
use agent_trading_guardrails.Approval.Onboarding.{Writes, build_allowlist_entry, approve_with}
use agent_trading_guardrails.Approval.Onboarding.Atomic.{
  IsApprovable, approve_with-saved_iff, is_saved, approve_with_onboards,
}

abbrev onboarding : ApprovalRequest Grid
onboarding = record {
  approval_id = "a-1";
  intent_id = "i-1";
  correlation_id = "c-1";
  principal = "agent-1";
  action = "cex.place_order";
  resource = "cex:binance:sub-1:ETH-USDC";
  environment = paper;
  escalation_reason = "new market";
  approval_type = allowlist_onboarding;
  intent_data = field "leverage" (num (whole (pos 2))) no_fields;
  created_at = "2026-01-01";
  timeout_at = "2026-01-03";
  state = pending;
}

abbrev empty : ApprovalStore Grid
empty = record { requests = [] }

empty-IsKeyed : IsKeyed empty
unfolding get
empty-IsKeyed id found q = cc q

abbrev asked : ApprovalStore Grid
asked = (create onboarding empty).1

asked-IsKeyed : IsKeyed asked
asked-IsKeyed = create-IsKeyed empty empty-IsKeyed onboarding

asked_row : Dict.get "a-1" asked.requests ≡ some onboarding
unfolding create get put
asked_row = refl

-- The clock counts the polls; the request is over at 9, and the deadline is 4.
abbrev parse : String → Grid
parse text = whole (pos 9)

abbrev counting : ℕ → Reading Grid
counting n = record {
  at_timeout = whole (pos n);
  at_deadline = whole (pos n);
  expired_at = "2026-01-02";
  audit_accepts = true;
}

-- Someone approves it after the second poll.
abbrev approved_second : ℕ → ApprovalStore Grid → ApprovalStore Grid
approved_second (suc n) s = (approve true true "a-1" "alice" "2026-01-02" s).1
approved_second n s = s

wait_for_approval-EndsBy_example :
    EndsBy parse "a-1"
      (whole (pos 4))
      counting
      approved_second
      4
      0
      asked
      (wait_for_approval parse "a-1" (whole (pos 4)) counting approved_second 6 0 asked).0
wait_for_approval-EndsBy_example =
    wait_for_approval-EndsBy parse "a-1" (whole (pos 4)) counting approved_second 4 0 6 asked
      (omega arith) refl

abbrev at_noon : String → String
at_noon id = "2026-01-04"

abbrev accepts : String → Bool
accepts id = true

not_back : (id : String) → key_le "2026-01-04" (at_noon id) ≡ true
unfolding units units_le key_le
not_back id = refl

timed_out : (check_timeouts at_noon accepts "2026-01-04" asked).0 ≢ none
unfolding create get put units units_le key_le check_timeouts
timed_out h = cc h

check_timeouts-TimesOut_example :
    ¬ HasOverdue "2026-01-04" "a-1" (check_timeouts at_noon accepts "2026-01-04" asked).1
    × TimesOut at_noon accepts "a-1"
        (Dict.get "a-1" asked.requests)
        (Dict.get "a-1" (check_timeouts at_noon accepts "2026-01-04" asked).1.requests)
check_timeouts-TimesOut_example =
    check_timeouts-TimesOut "2026-01-04" at_noon accepts "a-1" asked asked-IsKeyed not_back
      timed_out

-- The event of the decision is not taken, and the entry is taken back.
abbrev refused_event : Writes
refused_event = record {
  configured = true;
  added = true;
  update_accepted = true;
  decision_accepted = false;
  rolled_back = true;
  committed = true;
}

in_time : key_le "2026-01-03" "2026-01-02" ≡ false
unfolding units units_le key_le
in_time = refl

abbrev all_written : Writes
all_written = record refused_event { decision_accepted = true }

approve_with-saved_iff_example :
    ((approve_with all_written "a-1" "alice" "2026-01-02" asked []).transition
      ≡ saved (record onboarding { state = approved "2026-01-02" "alice" }))
    ↔ ((request : ApprovalRequest Grid) × IsApprovable all_written "a-1" "alice" "2026-01-02" asked
          request
          (record onboarding { state = approved "2026-01-02" "alice" }))
approve_with-saved_iff_example =
    approve_with-saved_iff all_written "a-1" "alice" "2026-01-02" asked []
      (record onboarding { state = approved "2026-01-02" "alice" })

-- It is approved: the description on the right holds there.
onboarding_approved :
    (approve_with all_written "a-1" "alice" "2026-01-02" asked []).transition
    ≡ saved (record onboarding { state = approved "2026-01-02" "alice" })
onboarding_approved =
    (approve_with-saved_iff all_written "a-1" "alice" "2026-01-02" asked []
        (record onboarding { state = approved "2026-01-02" "alice" })).1
      (onboarding, (asked_row, refl, in_time, refl, refl, refl, refl))

approve_with_onboards_example :
    (approve_with refused_event "a-1" "alice" "2026-01-02" asked []).allowlist ≡ (
      if is_saved (approve_with refused_event "a-1" "alice" "2026-01-02" asked []).transition
        && true
      then build_allowlist_entry onboarding ∷ []
      else [])
approve_with_onboards_example =
    approve_with_onboards refused_event "a-1" "alice" "2026-01-02" asked onboarding [] refl refl
      asked_row
